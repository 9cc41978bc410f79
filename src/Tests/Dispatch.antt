-- ===== src/Tests/Dispatch.antt =====
-- A rule and a plan that cross the wire.
use airgate_sdk.Prelude.{◌≡◌, ◌≢◌, ◌⊎◌, none, some, pos, [], ◌∷◌, arith}
use airgate_sdk.Dispatch.Records.{DispatchDsl, DispatchGate, DispatchPlan, ProtoPlan}
use airgate_sdk.Dispatch.Conversions.{plan_to_proto, plan_from_proto, no_plan}
use airgate_sdk.Dispatch.RoundTrip.{plan_from_proto-to_proto}

abbrev gate : DispatchGate
gate = record {
  required_operation = "image";
  status = pos 403;
  error_type = "permission_error";
  code = "forbidden";
  message = "off";
}

abbrev pub dsl : DispatchDsl
dsl = record {
  rules =
      record {
        id = "r";
        when = record {
          methods = "POST" ∷ [];
          paths = [];
          path_prefixes = "/v1" ∷ [];
          models = [];
          model_prefixes = [];
          model_suffixes = "-thinking" ∷ [];
        };
        model = record { strip_suffix = "-thinking" };
        operation = "chat";
        timeout_profile = "long";
        gate = gate;
        context_window_fallback = "";
        candidates = record { scheduling = "a"; wire = "b" } ∷ [];
      }
      ∷ [];
}

abbrev plan : DispatchPlan
plan = record {
  client_model = "a";
  scheduling_model = "a";
  wire_model = "";
  rule_id = "r";
  operation = "chat";
  timeout_profile = "";
  gate = gate;
}

plan_from_proto-to_proto_example :
    (((plan ≡ no_plan) × (plan_to_proto plan ≡ none))
      ⊎ ((plan ≢ no_plan) × ((m : ProtoPlan) × (plan_to_proto plan ≡ some m))))
    × (plan_from_proto (plan_to_proto plan) ≡ plan)
plan_from_proto-to_proto_example = plan_from_proto-to_proto plan (omega arith, omega arith)
