-- ===== src/Plans/Accepted.antt =====
-- What a plan is to pass in NormalizeAccountPlans, and what it becomes.
use airgate_sdk.Prelude.{
  Result-cases, ok-injective, Result, ok, err, String, ◌≤◌, ◌≡◌, refl, sym, ◌∙◌, subst, ◌⊎◌, inl,
  inr, Bool, true, false, not, ◌&&◌, ◌||◌, none, some, List, [], if◌then◌else◌, length, Bool-cases,
  Option-cases,
}
use text.Mathlib.Text.{◌==◌}
use text.Mathlib.TextEquality.{eq_iff}
use airgate_sdk.Plans.{
  AccountPlan, PlanTexts, PlanError, contains, is_reserved, is_mode, or_default, plan_values,
  normalize_values, plan_error, normal_plan, normalize_plan,
}
use airgate_sdk.Plans.Matches.{IsMatches, normalize_values-IsMatches, plan_values-length}

module _ (lib : PlanTexts) where
  pub record IsNormalPlan (credential : String) (p : AccountPlan) : Type 0 where
    pub key_fits : lib.is_key p.key ≡ true
    pub unreserved : is_reserved (lib.bare p.key) ≡ false
    pub one_credential : p.credential_key ≡ credential
    pub mode_fits : is_mode p.match_mode ≡ true
    pub matches_fit : IsMatches lib p.match_mode p.matches
    pub has_match : 1 ≤ length p.matches

  -- What a plan without an error has passed.
  pub record IsAccepted (keys : List String) (credential : String) (plan : AccountPlan)
      : Type 0 where
    pub key_fits : lib.is_key (lib.trim plan.key) ≡ true
    pub unreserved : is_reserved (lib.bare (lib.trim plan.key)) ≡ false
    pub fresh : contains (lib.bare (lib.trim plan.key)) keys ≡ false
    pub same_credential :
        ((credential == "") ≡ true)
        ⊎ ((credential == or_default (lib.trim plan.credential_key) "plan_type") ≡ true)
    pub mode_fits : is_mode (or_default plan.match_mode "exact") ≡ true

  plan_error-IsAccepted :
      (keys : List String) (credential : String) (plan : AccountPlan)
      → plan_error lib keys credential plan ≡ none
      → IsAccepted keys credential plan
  unfolding plan_error
  plan_error-IsAccepted keys credential plan e =
      let fits = lib.is_key (lib.trim plan.key) in
      let reserved = is_reserved (lib.bare (lib.trim plan.key)) in
      let known = contains (lib.bare (lib.trim plan.key)) keys in
      let other = credential == or_default (lib.trim plan.credential_key) "plan_type" in
      let moded = is_mode (or_default plan.match_mode "exact") in
      accept fits reserved known (credential == "") other moded refl refl refl refl refl refl e
    where
      accept :
          (fits reserved known blank other moded : Bool)
          → lib.is_key (lib.trim plan.key) ≡ fits
          → is_reserved (lib.bare (lib.trim plan.key)) ≡ reserved
          → contains (lib.bare (lib.trim plan.key)) keys ≡ known
          → (credential == "") ≡ blank
          → (credential == or_default (lib.trim plan.credential_key) "plan_type") ≡ other
          → is_mode (or_default plan.match_mode "exact") ≡ moded
          → (if not fits || reserved || known
              then some (PlanError.bad_key (lib.trim plan.key))
              else if not blank && not other
              then some PlanError.two_credential_keys
              else if not moded
              then some (PlanError.bad_mode (or_default plan.match_mode "exact"))
              else none)
            ≡ none
          → IsAccepted keys credential plan
      accept false reserved known blank other moded a b c d f g e = absurd (cc e)
      accept true true known blank other moded a b c d f g e = absurd (cc e)
      accept true false true blank other moded a b c d f g e = absurd (cc e)
      accept true false false false false moded a b c d f g e = absurd (cc e)
      accept true false false true other false a b c d f g e = absurd (cc e)
      accept true false false true other true a b c d f g e = record {
        key_fits = a;
        unreserved = b;
        fresh = c;
        same_credential = inl d;
        mode_fits = g;
      }
      accept true false false false true false a b c d f g e = absurd (cc e)
      accept true false false false true true a b c d f g e = record {
        key_fits = a;
        unreserved = b;
        fresh = c;
        same_credential = inr f;
        mode_fits = g;
      }

  or_default-nonempty :
      (s value : String) → (value == "") ≡ false → (or_default s value == "") ≡ false
  or_default-nonempty s value full = elim (Bool-cases (s == "")) [
    | inl blank ↦ rw blank full
    | inr text ↦ rw text text
  ]

  plan_failed :
      (keys : List String) (credential : String) (plan : AccountPlan) (x : PlanError)
      → plan_error lib keys credential plan ≡ some x
      → normalize_plan lib keys credential plan ≡ err x
  unfolding normalize_plan
  plan_failed keys credential plan x e = rw (e, normalize_plan) refl

  abbrev the_values : AccountPlan → Result PlanError (List String)
  the_values plan =
      normalize_values lib (lib.trim plan.key) (or_default plan.match_mode "exact")
        (plan_values (lib.trim plan.key) plan.matches) []

  plan_values_failed :
      (keys : List String) (credential : String) (plan : AccountPlan) (x : PlanError)
      → plan_error lib keys credential plan ≡ none
      → the_values plan ≡ err x
      → normalize_plan lib keys credential plan ≡ err x
  unfolding normalize_plan
  plan_values_failed keys credential plan x e v = rw (e, v, normalize_plan) refl

  plan_done :
      (keys : List String) (credential : String) (plan : AccountPlan) (matches : List String)
      → plan_error lib keys credential plan ≡ none
      → the_values plan ≡ ok matches
      → normalize_plan lib keys credential plan ≡ ok (normal_plan lib plan matches)
  unfolding normalize_plan
  plan_done keys credential plan matches e v = rw (e, v, normalize_plan) refl

  -- What the loop knows of a plan that it adds.
  pub record IsAdded (keys : List String) (credential : String) (p : AccountPlan) : Type 0 where
    pub normal : IsNormalPlan p.credential_key p
    pub fresh : contains (lib.bare p.key) keys ≡ false
    pub same_credential : ((credential == "") ≡ true) ⊎ (credential ≡ p.credential_key)
    pub has_credential : (p.credential_key == "") ≡ false

  done-IsAdded :
      (keys : List String) (credential : String) (plan : AccountPlan) (matches : List String)
      → IsAccepted keys credential plan
      → the_values plan ≡ ok matches
      → IsAdded keys credential (normal_plan lib plan matches)
  done-IsAdded keys credential plan matches a v = record {
    normal = record {
      key_fits = a.key_fits;
      unreserved = a.unreserved;
      one_credential = refl;
      mode_fits = a.mode_fits;
      matches_fit =
          normalize_values-IsMatches lib (lib.trim plan.key) (or_default plan.match_mode "exact")
            (plan_values (lib.trim plan.key) plan.matches) [] matches
            (record { fit = _; distinct = _ }) v;
      has_match =
          plan_values-length lib (lib.trim plan.key) (or_default plan.match_mode "exact")
            plan.matches matches v;
    };
    fresh = a.fresh;
    same_credential = elim a.same_credential [
      | inl blank ↦ inl blank
      | inr same ↦
          inr ((eq_iff credential (or_default (lib.trim plan.credential_key) "plan_type")).0 same)
    ];
    has_credential = or_default-nonempty (lib.trim plan.credential_key) "plan_type" refl;
  }

  pub normalize_plan-IsAdded :
      (keys : List String) (credential : String) (plan p : AccountPlan)
      → normalize_plan lib keys credential plan ≡ ok p
      → IsAdded keys credential p
  normalize_plan-IsAdded keys credential plan p e =
      elim (Option-cases (plan_error lib keys credential plan)) [
        | inr (x, bad) ↦ absurd (cc (sym (plan_failed keys credential plan x bad) ∙ e))
        | inl good ↦ elim (Result-cases (the_values plan)) [
          | inl (x, bad) ↦
              absurd (cc (sym (plan_values_failed keys credential plan x good bad) ∙ e))
          | inr (matches, v) ↦
              let same : normal_plan lib plan matches ≡ p =
                ok-injective (sym (plan_done keys credential plan matches good v) ∙ e) in
              subst (IsAdded keys credential) same (
                done-IsAdded keys credential plan matches
                  (plan_error-IsAccepted keys credential plan good) v)
        ]
      ]
