-- ===== src/Dispatch/RoundTrip.antt =====
-- Rules and plans that are sent and received.
use airgate_sdk.Prelude.{
  pos, eqb_ℤ, eqb_ℤ_iff, IsInt32, to_int32_in_range, ◌≡◌, ◌≢◌, refl, sym, ap, ◌∙◌, ◌⊎◌, inl, inr,
  none, some, Bool, true, ◌&&◌, List, [], ◌∷◌, All, arith, Bool-cases, String,
}
use text.Mathlib.Text.{◌==◌}
use text.Mathlib.TextEquality.{eq_iff}
use airgate_sdk.Dispatch.Records.{
  DispatchCandidate, DispatchGate, DispatchRule, DispatchDsl, DispatchPlan, ProtoPlan,
}
use airgate_sdk.Dispatch.Conversions.{
  candidates_to_proto, candidates_from_proto, when_to_proto, when_from_proto, model_to_proto,
  model_from_proto, gate_to_proto, gate_from_proto, no_gate, no_plan, is_no_gate, is_no_plan,
  rules_to_proto, rules_from_proto, dsl_to_proto, dsl_from_proto, plan_to_proto, plan_from_proto,
}

candidates_lem : (cs : List DispatchCandidate) → candidates_from_proto (candidates_to_proto cs) ≡ cs
unfolding candidates_from_proto candidates_to_proto
candidates_lem [] = refl
candidates_lem (c ∷ cs) = λ i. c ∷ candidates_lem cs i

gate_lem : (g : DispatchGate) → IsInt32 g.status → gate_from_proto (gate_to_proto g) ≡ g
unfolding gate_from_proto gate_to_proto
gate_lem g h = λ i. record g { status = to_int32_in_range g.status h i }

-- The status of a rule's gate fits the 32 bits that the message has for it.
abbrev pub HasStatus : DispatchRule → Type 0
HasStatus r = IsInt32 r.gate.status

rules_lem : (rs : List DispatchRule) → All HasStatus rs → rules_from_proto (rules_to_proto rs) ≡ rs
unfolding rules_from_proto rules_to_proto when_to_proto when_from_proto model_to_proto
    model_from_proto
rules_lem [] h = refl
rules_lem (r ∷ rs) h = λ i.
    record r { gate = gate_lem r.gate h.0 i; candidates = candidates_lem r.candidates i }
    ∷ rules_lem rs h.1 i

-- The rules of a plugin come back in their order, none added or dropped and each unchanged, if the
-- statuses of their gates fit 32 bits.
pub dsl_from_proto-to_proto :
    (d : DispatchDsl) → All HasStatus d.rules → dsl_from_proto (dsl_to_proto d) ≡ d
unfolding dsl_from_proto dsl_to_proto
dsl_from_proto-to_proto d h =
    elim d.rules
        as (λ rs.
          All HasStatus rs
          → dsl_from_proto (dsl_to_proto (record { rules = rs })) ≡ record { rules = rs }) [
            | [] ↦ λ h. refl
            | ◌∷◌ r rs ↦ λ h. ap (λ l. record { rules = l }) (rules_lem (r ∷ rs) h)
          ]
      h

pub empty_text : (s : String) → (s == "") ≡ true → s ≡ ""
empty_text s h = (eq_iff s "").0 h

pub both : (a b : Bool) → (a && b) ≡ true → (a ≡ true) × (b ≡ true)
both a b h = (ground arith, ground arith)

no_gate_lem : (g : DispatchGate) → is_no_gate g ≡ true → g ≡ no_gate
unfolding is_no_gate
no_gate_lem g e =
    let (a, e1) = both (g.required_operation == "") _ e in
    let (b, e2) = both (eqb_ℤ g.status (pos 0)) _ e1 in
    let (c, e3) = both (g.error_type == "") _ e2 in
    let (d, f) = both (g.code == "") _ e3 in
    λ i. record {
      required_operation = empty_text g.required_operation a i;
      status = (eqb_ℤ_iff g.status (pos 0)).0 b i;
      error_type = empty_text g.error_type c i;
      code = empty_text g.code d i;
      message = empty_text g.message f i;
    }

no_plan_lem : (p : DispatchPlan) → is_no_plan p ≡ true → p ≡ no_plan
unfolding is_no_plan
no_plan_lem p e =
    let (a, e1) = both (p.client_model == "") _ e in
    let (b, e2) = both (p.scheduling_model == "") _ e1 in
    let (c, e3) = both (p.wire_model == "") _ e2 in
    let (d, e4) = both (p.rule_id == "") _ e3 in
    let (o, e5) = both (p.operation == "") _ e4 in
    let (t, g) = both (p.timeout_profile == "") _ e5 in
    λ i. record {
      client_model = empty_text p.client_model a i;
      scheduling_model = empty_text p.scheduling_model b i;
      wire_model = empty_text p.wire_model c i;
      rule_id = empty_text p.rule_id d i;
      operation = empty_text p.operation o i;
      timeout_profile = empty_text p.timeout_profile t i;
      gate = no_gate_lem p.gate g i;
    }

no_plan-is_no_plan : (p : DispatchPlan) → p ≡ no_plan → is_no_plan p ≡ true
unfolding is_no_plan is_no_gate eqb_ℤ
no_plan-is_no_plan p e = ap is_no_plan e

-- The empty plan, and it alone, is sent as nil; every plan comes back unchanged, if the status of its
-- gate fits 32 bits.
pub plan_from_proto-to_proto :
    (p : DispatchPlan)
    → IsInt32 p.gate.status
    → (((p ≡ no_plan) × (plan_to_proto p ≡ none))
        ⊎ ((p ≢ no_plan) × ((m : ProtoPlan) × (plan_to_proto p ≡ some m))))
      × (plan_from_proto (plan_to_proto p) ≡ p)
unfolding plan_from_proto plan_to_proto
plan_from_proto-to_proto p h = elim (Bool-cases (is_no_plan p)) [
  | inl empty ↦
      rw (empty, plan_to_proto) (inl (no_plan_lem p empty, refl), sym (no_plan_lem p empty))
  | inr full ↦
      rw (full, plan_to_proto)
        (
          inr (λ same. cc (sym full ∙ no_plan-is_no_plan p same), (_, refl)),
          λ i. record p { gate = gate_lem p.gate h i },
        )
]
