-- ===== src/Dispatch/Conversions.antt =====
-- The conversions of runtimego/grpc/common.go.
use airgate_sdk.Prelude.{
  pos, eqb_ℤ, to_int32, Bool, ◌&&◌, Option, none, some, List, [], ◌∷◌, if◌then◌else◌,
}
use text.Mathlib.Text.{◌==◌}
use airgate_sdk.Dispatch.Records.{
  DispatchWhen, DispatchModel, DispatchCandidate, DispatchGate, DispatchRule, DispatchDsl,
  DispatchPlan, ProtoWhen, ProtoModel, ProtoCandidate, ProtoGate, ProtoRule, ProtoDsl, ProtoPlan,
}

unfoldable pub when_to_proto : DispatchWhen → Option ProtoWhen
when_to_proto w = some (record {
  methods = w.methods;
  paths = w.paths;
  path_prefixes = w.path_prefixes;
  models = w.models;
  model_prefixes = w.model_prefixes;
  model_suffixes = w.model_suffixes;
})

unfoldable pub when_from_proto : Option ProtoWhen → DispatchWhen
when_from_proto none = record {
  methods = [];
  paths = [];
  path_prefixes = [];
  models = [];
  model_prefixes = [];
  model_suffixes = [];
}
when_from_proto (some w) = record {
  methods = w.methods;
  paths = w.paths;
  path_prefixes = w.path_prefixes;
  models = w.models;
  model_prefixes = w.model_prefixes;
  model_suffixes = w.model_suffixes;
}

unfoldable pub model_to_proto : DispatchModel → Option ProtoModel
model_to_proto m = some (record { strip_suffix = m.strip_suffix })

unfoldable pub model_from_proto : Option ProtoModel → DispatchModel
model_from_proto none = record { strip_suffix = "" }
model_from_proto (some m) = record { strip_suffix = m.strip_suffix }

unfoldable pub gate_to_proto : DispatchGate → Option ProtoGate
gate_to_proto g = some (record {
  required_operation = g.required_operation;
  status = to_int32 g.status;
  error_type = g.error_type;
  code = g.code;
  message = g.message;
})

abbrev pub no_gate : DispatchGate
no_gate = record {
  required_operation = "";
  status = pos 0;
  error_type = "";
  code = "";
  message = "";
}

unfoldable pub gate_from_proto : Option ProtoGate → DispatchGate
gate_from_proto none = no_gate
gate_from_proto (some g) = record {
  required_operation = g.required_operation;
  status = g.status;
  error_type = g.error_type;
  code = g.code;
  message = g.message;
}

-- The two guards on an empty list give the empty list, as the loops do.
unfoldable pub candidates_to_proto : List DispatchCandidate → List (Option ProtoCandidate)
candidates_to_proto [] = []
candidates_to_proto (c ∷ cs) =
    some (record { scheduling = c.scheduling; wire = c.wire }) ∷ candidates_to_proto cs

unfoldable pub candidates_from_proto : List (Option ProtoCandidate) → List DispatchCandidate
candidates_from_proto [] = []
candidates_from_proto (none ∷ cs) = candidates_from_proto cs
candidates_from_proto (some c ∷ cs) =
    record { scheduling = c.scheduling; wire = c.wire } ∷ candidates_from_proto cs

unfoldable pub rules_to_proto : List DispatchRule → List (Option ProtoRule)
rules_to_proto [] = []
rules_to_proto (r ∷ rs) =
    some (record {
      id = r.id;
      when = when_to_proto r.when;
      model = model_to_proto r.model;
      operation = r.operation;
      timeout_profile = r.timeout_profile;
      gate = gate_to_proto r.gate;
      context_window_fallback = r.context_window_fallback;
      candidates = candidates_to_proto r.candidates;
    })
    ∷ rules_to_proto rs

unfoldable pub rules_from_proto : List (Option ProtoRule) → List DispatchRule
rules_from_proto [] = []
rules_from_proto (none ∷ rs) = rules_from_proto rs
rules_from_proto (some r ∷ rs) =
    record {
      id = r.id;
      when = when_from_proto r.when;
      model = model_from_proto r.model;
      operation = r.operation;
      timeout_profile = r.timeout_profile;
      gate = gate_from_proto r.gate;
      context_window_fallback = r.context_window_fallback;
      candidates = candidates_from_proto r.candidates;
    }
    ∷ rules_from_proto rs

-- A DSL without rules is sent as nil.
unfoldable pub dsl_to_proto : DispatchDsl → Option ProtoDsl
dsl_to_proto d = elim d.rules [
  | [] ↦ none
  | ◌∷◌ r rs ↦ some (record { rules = rules_to_proto (r ∷ rs) })
]

unfoldable pub dsl_from_proto : Option ProtoDsl → DispatchDsl
dsl_from_proto none = record { rules = [] }
dsl_from_proto (some d) = record { rules = rules_from_proto d.rules }

abbrev pub no_plan : DispatchPlan
no_plan = record {
  client_model = "";
  scheduling_model = "";
  wire_model = "";
  rule_id = "";
  operation = "";
  timeout_profile = "";
  gate = no_gate;
}

unfoldable pub is_no_gate : DispatchGate → Bool
is_no_gate g =
    g.required_operation == ""
    && (eqb_ℤ g.status (pos 0) && (g.error_type == "" && (g.code == "" && g.message == "")))

-- plan == (sdk.DispatchPlan{})
unfoldable pub is_no_plan : DispatchPlan → Bool
is_no_plan p =
    p.client_model == ""
    && (p.scheduling_model == ""
        && (p.wire_model == ""
            && (p.rule_id == ""
                && (p.operation == "" && (p.timeout_profile == "" && is_no_gate p.gate)))))

unfoldable pub plan_to_proto : DispatchPlan → Option ProtoPlan
plan_to_proto p =
    if is_no_plan p
    then none
    else some (record {
      client_model = p.client_model;
      scheduling_model = p.scheduling_model;
      wire_model = p.wire_model;
      rule_id = p.rule_id;
      operation = p.operation;
      timeout_profile = p.timeout_profile;
      gate = gate_to_proto p.gate;
    })

unfoldable pub plan_from_proto : Option ProtoPlan → DispatchPlan
plan_from_proto none = no_plan
plan_from_proto (some p) = record {
  client_model = p.client_model;
  scheduling_model = p.scheduling_model;
  wire_model = p.wire_model;
  rule_id = p.rule_id;
  operation = p.operation;
  timeout_profile = p.timeout_profile;
  gate = gate_from_proto p.gate;
}
