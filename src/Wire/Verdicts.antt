-- ===== src/Wire/Verdicts.antt =====
-- outcomeToProto and outcomeFromProto of runtimego/grpc/gateway_server.go.
use airgate_sdk.Prelude.{
  ◌≡◌, refl, Option, none, some, [], false, pos, milliseconds, of_milliseconds, whole_milliseconds,
  of_milliseconds-milliseconds, IsInt32, IsInt64,
}
use airgate_sdk.Outcome.{OutcomeKind, Usage, ForwardOutcome}
use airgate_sdk.Wire.Proto.{ProtoUsage, ProtoOutcome}
use airgate_sdk.Wire.Kinds.{kind_to_proto, kind_from_proto, declared, kind_from_proto-to_proto}
use airgate_sdk.Wire.Billing.{usage_to_proto, usage_from_proto, usage_from_proto-to_proto}
use airgate_sdk.Wire.Diagnostics.{
  upstream_to_proto, upstream_from_proto, no_upstream, diagnostic_to_proto, diagnostic_from_proto,
  Fits, upstream_from_proto-to_proto, diagnostic_from_proto-to_proto,
}

module _ {F : Type 0} where
  pub optional_usage_to_proto : Option (Usage F) → Option (ProtoUsage F)
  optional_usage_to_proto none = none
  optional_usage_to_proto (some u) = some (usage_to_proto u)

  pub optional_usage_from_proto : Option (ProtoUsage F) → Option (Usage F)
  optional_usage_from_proto none = none
  optional_usage_from_proto (some u) = some (usage_from_proto u)

  unfoldable pub outcome_to_proto : ForwardOutcome F → ProtoOutcome F
  unfolding optional_usage_to_proto
  outcome_to_proto o = record {
    kind = kind_to_proto o.kind;
    failover_scope = o.failover_scope;
    model_fallback_reason = o.model_fallback_reason;
    upstream = some (upstream_to_proto o.upstream);
    duration_ms = milliseconds o.duration;
    retry_after_ms = milliseconds o.retry_after;
    reason = o.reason;
    updated_credentials = o.updated_credentials;
    safety_rejected = o.safety_rejected;
    usage = optional_usage_to_proto o.usage;
    final_error_diagnostic = diagnostic_to_proto o.final_error_diagnostic;
  }

  -- The zero value of an outcome.
  abbrev pub no_outcome : ForwardOutcome F
  no_outcome = record {
    kind = OutcomeKind.unknown;
    failover_scope = "";
    model_fallback_reason = "";
    upstream = no_upstream;
    usage = none;
    duration = pos 0;
    retry_after = pos 0;
    reason = "";
    updated_credentials = [];
    final_error_diagnostic = none;
    safety_rejected = false;
  }

  unfoldable pub outcome_from_proto : Option (ProtoOutcome F) → ForwardOutcome F
  unfolding optional_usage_from_proto
  outcome_from_proto none = no_outcome
  outcome_from_proto (some p) = record {
    kind = kind_from_proto p.kind;
    failover_scope = p.failover_scope;
    model_fallback_reason = p.model_fallback_reason;
    upstream = upstream_from_proto p.upstream;
    duration = of_milliseconds p.duration_ms;
    retry_after = of_milliseconds p.retry_after_ms;
    reason = p.reason;
    updated_credentials = p.updated_credentials;
    safety_rejected = p.safety_rejected;
    usage = optional_usage_from_proto p.usage;
    final_error_diagnostic = diagnostic_from_proto p.final_error_diagnostic;
  }

  pub usage_round_trip :
      (u : Option (Usage F)) → optional_usage_from_proto (optional_usage_to_proto u) ≡ u
  unfolding optional_usage_from_proto optional_usage_to_proto
  usage_round_trip none = refl
  usage_round_trip (some u) = λ i. some (usage_from_proto-to_proto u i)

  -- What the wire can carry: statuses of 32 bits, durations of 64.
  pub record IsCarried (o : ForwardOutcome F) : Type 0 where
    pub status : IsInt32 o.upstream.status_code
    pub statuses : Fits o.final_error_diagnostic
    pub duration : IsInt64 o.duration
    pub retry_after : IsInt64 o.retry_after

  -- A verdict that is sent and received is the same verdict, with its two durations cut to whole
  -- milliseconds and a kind that has no name read as unknown: for statuses of 32 bits and
  -- durations of 64.
  pub outcome_from_proto-to_proto :
      (o : ForwardOutcome F)
      → IsCarried o
      → outcome_from_proto (some (outcome_to_proto o)) ≡ record o {
        kind = declared o.kind;
        duration = whole_milliseconds o.duration;
        retry_after = whole_milliseconds o.retry_after;
      }
  unfolding outcome_from_proto outcome_to_proto
  outcome_from_proto-to_proto o h = λ i. record o {
    kind = kind_from_proto-to_proto o.kind i;
    upstream = upstream_from_proto-to_proto o.upstream h.status i;
    duration = of_milliseconds-milliseconds o.duration h.duration i;
    retry_after = of_milliseconds-milliseconds o.retry_after h.retry_after i;
    usage = usage_round_trip o.usage i;
    final_error_diagnostic = diagnostic_from_proto-to_proto o.final_error_diagnostic h.statuses i;
  }
