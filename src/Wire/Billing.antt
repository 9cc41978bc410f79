-- ===== src/Wire/Billing.antt =====
-- usageToProto and usageFromProto of runtimego/grpc/gateway_server.go. `int` has 64 bits, so the
-- conversions between `int` and `int64` change nothing.
use airgate_sdk.Prelude.{◌≡◌, refl, Option, none, some, ap}
use airgate_sdk.Outcome.{Usage, BillingAdjustments}
use airgate_sdk.Wire.Proto.{ProtoUsage, ProtoBilling}

module _ {F : Type 0} where
  -- cloneBillingAmount: a copy of the number behind the pointer
  clone_billing_amount : Option F → Option F
  clone_billing_amount none = none
  clone_billing_amount (some x) = some x

  billing_to_proto : Option (BillingAdjustments F) → Option (ProtoBilling F)
  unfolding clone_billing_amount
  billing_to_proto none = none
  billing_to_proto (some b) = some (record {
    charge_override = clone_billing_amount b.charge_override;
    charge_addon = clone_billing_amount b.charge_addon;
    api_key_base_cost = clone_billing_amount b.api_key_base_cost;
  })

  billing_from_proto : Option (ProtoBilling F) → Option (BillingAdjustments F)
  unfolding clone_billing_amount
  billing_from_proto none = none
  billing_from_proto (some b) = some (record {
    charge_override = clone_billing_amount b.charge_override;
    charge_addon = clone_billing_amount b.charge_addon;
    api_key_base_cost = clone_billing_amount b.api_key_base_cost;
  })

  unfoldable pub usage_to_proto : Usage F → ProtoUsage F
  unfolding billing_to_proto
  usage_to_proto u = record {
    model = u.model;
    account_cost = u.account_cost;
    user_cost = u.user_cost;
    billing_multiplier = u.billing_multiplier;
    currency = u.currency;
    summary = u.summary;
    first_event_ms = u.first_event_ms;
    metadata = u.metadata;
    input_tokens = u.input_tokens;
    output_tokens = u.output_tokens;
    cached_input_tokens = u.cached_input_tokens;
    cache_creation_tokens = u.cache_creation_tokens;
    reasoning_output_tokens = u.reasoning_output_tokens;
    input_price = u.input_price;
    output_price = u.output_price;
    cached_input_price = u.cached_input_price;
    cache_creation_price = u.cache_creation_price;
    input_cost = u.input_cost;
    output_cost = u.output_cost;
    cached_input_cost = u.cached_input_cost;
    cache_creation_cost = u.cache_creation_cost;
    reasoning_effort = u.reasoning_effort;
    first_token_ms = u.first_token_ms;
    ws_dial_ms = u.ws_dial_ms;
    billing = billing_to_proto u.billing;
  }

  unfoldable pub usage_from_proto : ProtoUsage F → Usage F
  unfolding billing_from_proto
  usage_from_proto p = record {
    model = p.model;
    account_cost = p.account_cost;
    user_cost = p.user_cost;
    billing_multiplier = p.billing_multiplier;
    currency = p.currency;
    summary = p.summary;
    first_event_ms = p.first_event_ms;
    first_token_ms = p.first_token_ms;
    ws_dial_ms = p.ws_dial_ms;
    metadata = p.metadata;
    input_tokens = p.input_tokens;
    output_tokens = p.output_tokens;
    cached_input_tokens = p.cached_input_tokens;
    cache_creation_tokens = p.cache_creation_tokens;
    reasoning_output_tokens = p.reasoning_output_tokens;
    reasoning_effort = p.reasoning_effort;
    input_price = p.input_price;
    output_price = p.output_price;
    cached_input_price = p.cached_input_price;
    cache_creation_price = p.cache_creation_price;
    input_cost = p.input_cost;
    output_cost = p.output_cost;
    cached_input_cost = p.cached_input_cost;
    cache_creation_cost = p.cache_creation_cost;
    billing = billing_from_proto p.billing;
  }

  clone_lem : (x : Option F) → clone_billing_amount (clone_billing_amount x) ≡ x
  unfolding clone_billing_amount
  clone_lem none = refl
  clone_lem (some x) = refl

  billing_from_proto-to_proto :
      (b : Option (BillingAdjustments F)) → billing_from_proto (billing_to_proto b) ≡ b
  unfolding billing_from_proto billing_to_proto
  billing_from_proto-to_proto none = refl
  billing_from_proto-to_proto (some b) = λ i. some (record {
    charge_override = clone_lem b.charge_override i;
    charge_addon = clone_lem b.charge_addon i;
    api_key_base_cost = clone_lem b.api_key_base_cost i;
  })

  -- A usage record, its billing quotes included, comes back as it was sent.
  pub usage_from_proto-to_proto : (u : Usage F) → usage_from_proto (usage_to_proto u) ≡ u
  unfolding usage_from_proto usage_to_proto
  usage_from_proto-to_proto u =
      ap (λ b. record u { billing = b }) (billing_from_proto-to_proto u.billing)
