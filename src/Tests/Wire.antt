-- ===== src/Tests/Wire.antt =====
-- Verdicts that cross the wire.
use airgate_sdk.Prelude.{ℕ, ◌≡◌, none, some, [], ◌∷◌, pos, arith, whole_milliseconds}
use airgate_sdk.Outcome.{ForwardOutcome, Usage}
use airgate_sdk.Wire.Kinds.{declared}
use airgate_sdk.Wire.Verdicts.{
  outcome_to_proto, outcome_from_proto, IsCarried, outcome_from_proto-to_proto,
}
use airgate_sdk.Tests.{succeeded}

abbrev answered : ForwardOutcome ℕ
answered = record succeeded {
  duration = pos 1234567;
  upstream = record { status_code = pos 200; headers = ("X", "a" ∷ "b" ∷ []) ∷ []; body = 1 ∷ [] };
}

answered-IsCarried : IsCarried answered
answered-IsCarried = record {
  status = omega arith;
  statuses = tt;
  duration = omega arith;
  retry_after = omega arith;
}

outcome_from_proto-to_proto_example :
    outcome_from_proto (some (outcome_to_proto answered)) ≡ record answered {
      kind = declared answered.kind;
      duration = whole_milliseconds answered.duration;
      retry_after = whole_milliseconds answered.retry_after;
    }
outcome_from_proto-to_proto_example = outcome_from_proto-to_proto answered answered-IsCarried

abbrev priced : Usage ℕ
priced = record {
  model = "m";
  account_cost = 5;
  user_cost = 6;
  billing_multiplier = 1;
  currency = "USD";
  summary = "";
  first_event_ms = pos 3;
  first_token_ms = pos 4;
  ws_dial_ms = pos 0;
  input_tokens = pos 10;
  output_tokens = pos 20;
  cached_input_tokens = pos 0;
  cache_creation_tokens = pos 0;
  reasoning_output_tokens = pos 0;
  reasoning_effort = "low";
  input_price = 1;
  output_price = 2;
  cached_input_price = 0;
  cache_creation_price = 0;
  input_cost = 1;
  output_cost = 4;
  cached_input_cost = 0;
  cache_creation_cost = 0;
  metadata = ("tier", "fast") ∷ [];
  billing =
      some (record { charge_override = some 9; charge_addon = none; api_key_base_cost = none });
}
