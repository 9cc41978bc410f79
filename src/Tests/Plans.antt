-- ===== src/Tests/Plans.antt =====
-- Two account plans of a platform.
use airgate_sdk.Prelude.{ok, err, ◌≡◌, refl, String, not, List, [], ◌∷◌, length}
use text.Mathlib.Text.{◌==◌}
use airgate_sdk.Plans.{
  AccountPlan, PlanTexts, PlanError, contains, normalize_account_plans, normalize_loop,
  normalize_plan, plan_error, normalize_values, value_error, plan_values,
}
use airgate_sdk.Plans.Normal.{IsNormal, normalize_account_plans-IsNormal}

-- strings and regexp, on the texts of these tests
abbrev plain_texts : PlanTexts
plain_texts = record {
  trim = λ s. s;
  bare = λ s. s;
  is_key = λ s. not (s == "");
  has_letter = λ s. not (s == "");
}

abbrev pro_plan : AccountPlan
pro_plan = record { key = "pro"; label = ""; credential_key = ""; match_mode = ""; matches = [] }

abbrev team_plan : AccountPlan
team_plan = record pro_plan {
  key = "team";
  label = "Team";
  match_mode = "contains";
  matches = "team" ∷ "business" ∷ "team" ∷ [];
}

abbrev normal_plans : List AccountPlan
normal_plans =
    record {
      key = "pro";
      label = "pro";
      credential_key = "plan_type";
      match_mode = "exact";
      matches = "pro" ∷ [];
    }
    ∷ record {
      key = "team";
      label = "Team";
      credential_key = "plan_type";
      match_mode = "contains";
      matches = "team" ∷ "business" ∷ [];
    }
    ∷ []

plans_normalized : normalize_account_plans plain_texts (pro_plan ∷ team_plan ∷ []) ≡ ok normal_plans
unfolding normalize_account_plans normalize_loop normalize_plan plan_error normalize_values
    value_error plan_values contains
plans_normalized = refl

plans_repeated :
    normalize_account_plans plain_texts (pro_plan ∷ pro_plan ∷ []) ≡ err (PlanError.bad_key "pro")
unfolding normalize_account_plans normalize_loop normalize_plan plan_error normalize_values
    value_error plan_values contains
plans_repeated = refl

normalize_account_plans-IsNormal_example :
    ((c : String) × IsNormal plain_texts c normal_plans)
    × (length normal_plans ≡ length (pro_plan ∷ team_plan ∷ []))
normalize_account_plans-IsNormal_example =
    normalize_account_plans-IsNormal plain_texts (pro_plan ∷ team_plan ∷ []) normal_plans
      plans_normalized
