-- ===== src/Plans.antt =====
-- Account plans: NormalizeAccountPlans of sdkgo/account_plan.go and the conversions of
-- runtimego/grpc/account_plan.go. The functions of strings and regexp are parameters.
pub mod Distinct
pub mod Matches
pub mod Accepted
pub mod Normal
use airgate_sdk.Prelude.{
  ◌≡◌, refl, ap, Result, ok, err, String, Bool, true, false, not, ◌&&◌, ◌||◌, Option, none, some,
  List, [], ◌∷◌, ◌++◌, if◌then◌else◌,
}
use text.Mathlib.Text.{◌==◌}

pub record AccountPlan : Type 0 where
  pub key : String
  pub label : String
  pub credential_key : String
  pub match_mode : String
  pub matches : List String

-- strings.TrimSpace, ReplaceAll of "_" by "", the test of accountPlanKeyPattern, and ContainsAny of
-- the ASCII letters and digits.
pub record PlanTexts : Type 0 where
  pub trim : String → String
  pub bare : String → String
  pub is_key : String → Bool
  pub has_letter : String → Bool

-- The errors, with what their texts quote.
pub data PlanError : Type 0 where
  bad_key : (key : String) → PlanError
  two_credential_keys : PlanError
  bad_mode : (mode : String) → PlanError
  empty_match : (key : String) → PlanError
  empty_normalized_match : (key : String) → PlanError

-- A map[string]bool, as the list of its keys.
unfoldable pub contains : String → List String → Bool
contains s [] = false
contains s (x ∷ xs) = x == s || contains s xs

abbrev pub is_reserved : String → Bool
is_reserved bare = bare == "unknown" || bare == "none" || bare == "oauth" || bare == "apikey"

abbrev pub is_mode : String → Bool
is_mode mode = mode == "exact" || mode == "contains" || mode == "normalized_contains"

abbrev pub or_default : String → String → String
or_default s value = if s == "" then value else s

-- values := plan.Matches, or the key if there are none
unfoldable pub plan_values : String → List String → List String
plan_values key [] = key ∷ []
plan_values key (v ∷ values) = v ∷ values

module _ (lib : PlanTexts) where
  unfoldable pub value_error : (key mode value : String) → Option PlanError
  value_error key mode value =
      if value == ""
      then some (empty_match key)
      else if mode == "normalized_contains" && not (lib.has_letter value)
      then some (empty_normalized_match key)
      else none

  -- The loop over the values; `seen` has the same ones as plan.Matches.
  unfoldable pub normalize_values :
      (key mode : String) → List String → (matches : List String) → Result PlanError (List String)
  unfolding value_error
  normalize_values key mode [] matches = ok matches
  normalize_values key mode (v ∷ values) matches =
      let value = lib.trim v in
      let rest =
        normalize_values key mode values
          (if contains value matches then matches else matches ++ value ∷ []) in
      elim (value_error key mode value) [ some e ↦ err e | none ↦ rest ]

  -- The checks of one plan before its values, with the keys and the credential key of those before it.
  unfoldable pub plan_error :
      (keys : List String) (credential : String) → AccountPlan → Option PlanError
  plan_error keys credential plan =
      let key = lib.trim plan.key in
      let bare = lib.bare key in
      let credential_key = or_default (lib.trim plan.credential_key) "plan_type" in
      let mode = or_default plan.match_mode "exact" in
      if not (lib.is_key key) || is_reserved bare || contains bare keys
      then some (bad_key key)
      else if not (credential == "") && not (credential == credential_key)
      then some two_credential_keys
      else if not (is_mode mode)
      then some (bad_mode mode)
      else none

  -- The plan with these matches.
  abbrev pub normal_plan : AccountPlan → List String → AccountPlan
  normal_plan plan matches = record {
    key = lib.trim plan.key;
    label = or_default (lib.trim plan.label) (lib.trim plan.key);
    credential_key = or_default (lib.trim plan.credential_key) "plan_type";
    match_mode = or_default plan.match_mode "exact";
    matches = matches;
  }

  -- One round of the loop.
  unfoldable pub normalize_plan :
      (keys : List String) (credential : String) → AccountPlan → Result PlanError AccountPlan
  unfolding plan_error normalize_values plan_values
  normalize_plan keys credential plan = elim (plan_error keys credential plan) [
    | some e ↦ err e
    | none ↦
        let key = lib.trim plan.key in
        elim (normalize_values key (or_default plan.match_mode "exact")
          (plan_values key plan.matches) []) [
            | err e ↦ err e
            | ok matches ↦ ok (normal_plan plan matches)
          ]
  ]

  unfoldable pub normalize_loop :
      List AccountPlan
      → (keys : List String) (credential : String) (result : List AccountPlan)
      → Result PlanError (List AccountPlan)
  unfolding normalize_plan
  normalize_loop [] keys credential result = ok result
  normalize_loop (plan ∷ plans) keys credential result =
      elim (normalize_plan keys credential plan) [
        | err e ↦ err e
        | ok p ↦
            normalize_loop plans (keys ++ lib.bare p.key ∷ []) p.credential_key (result ++ p ∷ [])
      ]

  -- NormalizeAccountPlans
  unfoldable pub normalize_account_plans : List AccountPlan → Result PlanError (List AccountPlan)
  normalize_account_plans plans = normalize_loop plans [] "" []

-- AccountPlanProto
pub record ProtoPlan : Type 0 where
  pub key : String
  pub label : String
  pub credential_key : String
  pub match_mode : String
  pub matches : List String

unfoldable pub account_plans_to_proto : List AccountPlan → List (Option ProtoPlan)
account_plans_to_proto [] = []
account_plans_to_proto (p ∷ plans) =
    some (record {
      key = p.key;
      label = p.label;
      credential_key = p.credential_key;
      match_mode = p.match_mode;
      matches = p.matches;
    })
    ∷ account_plans_to_proto plans

-- An entry that is nil is dropped.
unfoldable pub account_plans_from_proto : List (Option ProtoPlan) → List AccountPlan
account_plans_from_proto [] = []
account_plans_from_proto (none ∷ plans) = account_plans_from_proto plans
account_plans_from_proto (some p ∷ plans) =
    record {
      key = p.key;
      label = p.label;
      credential_key = p.credential_key;
      match_mode = p.match_mode;
      matches = p.matches;
    }
    ∷ account_plans_from_proto plans

pub account_plans_from_proto-to_proto :
    (plans : List AccountPlan) → account_plans_from_proto (account_plans_to_proto plans) ≡ plans
unfolding account_plans_to_proto account_plans_from_proto
account_plans_from_proto-to_proto [] = refl
account_plans_from_proto-to_proto (p ∷ plans) =
    ap (λ ps. p ∷ ps) (account_plans_from_proto-to_proto plans)
