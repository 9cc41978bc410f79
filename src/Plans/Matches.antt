-- ===== src/Plans/Matches.antt =====
-- The matches that NormalizeAccountPlans gives a plan.
use airgate_sdk.Prelude.{
  ok, err, String, ◌≤◌, ◌≡◌, refl, sym, ◌∙◌, subst, inl, inr, true, false, not, ◌&&◌, none, some,
  List, [], ◌∷◌, ◌++◌, if◌then◌else◌, length, length-append, All, All-append, Bool-cases,
  Option-cases, arith,
}
use text.Mathlib.Text.{◌==◌}
use airgate_sdk.Plans.{PlanTexts, PlanError, contains, plan_values, value_error, normalize_values}
use airgate_sdk.Plans.Distinct.{IsDistinct, IsDistinct-concat}

module _ (lib : PlanTexts) where
  -- A match value that its plan's mode can use.
  abbrev pub IsValue : String → String → Type 0
  IsValue mode value =
      ((value == "") ≡ false)
      × ((mode == "normalized_contains" && not (lib.has_letter value)) ≡ false)

  value_error-IsValue :
      (key mode value : String) → value_error lib key mode value ≡ none → IsValue mode value
  unfolding value_error
  value_error-IsValue key mode value e = elim (Bool-cases (value == "")) [
    | inl blank ↦ absurd (cc (rw (blank, value_error) at e))
    | inr text ↦ elim (Bool-cases (mode == "normalized_contains" && not (lib.has_letter value))) [
      | inl bare ↦ absurd (cc (rw (text, bare, value_error) at e))
      | inr letters ↦ (text, letters)
    ]
  ]

  values_failed :
      (key mode v : String) (values matches : List String) (e : PlanError)
      → value_error lib key mode (lib.trim v) ≡ some e
      → normalize_values lib key mode (v ∷ values) matches ≡ err e
  unfolding normalize_values
  values_failed key mode v values matches e h = rw (h, normalize_values) refl

  values_next :
      (key mode v : String) (values matches : List String)
      → value_error lib key mode (lib.trim v) ≡ none
      → normalize_values lib key mode (v ∷ values) matches
        ≡ normalize_values lib key mode values
            (if contains (lib.trim v) matches then matches else matches ++ lib.trim v ∷ [])
  unfolding normalize_values
  values_next key mode v values matches h = rw (h, normalize_values) refl

  -- The matches of a plan.
  pub record IsMatches (mode : String) (matches : List String) : Type 0 where
    pub fit : All (IsValue mode) matches
    pub distinct : IsDistinct matches

  added :
      (mode value : String) (matches : List String)
      → IsValue mode value
      → IsMatches mode matches
      → IsMatches mode (if contains value matches then matches else matches ++ value ∷ [])
  added mode value matches fits h = elim (Bool-cases (contains value matches)) [
    | inl known ↦ rw known h
    | inr fresh ↦ rw fresh (record {
      fit = All-append (IsValue mode) matches (value ∷ []) h.fit (fits, _);
      distinct = IsDistinct-concat matches value h.distinct fresh;
    })
  ]

  pub normalize_values-IsMatches :
      (key mode : String) (values matches out : List String)
      → IsMatches mode matches
      → normalize_values lib key mode values matches ≡ ok out
      → IsMatches mode out
  unfolding normalize_values
  normalize_values-IsMatches key mode [] matches out h e = subst (IsMatches mode) (cc e) h
  normalize_values-IsMatches key mode (v ∷ values) matches out h e =
      elim (Option-cases (value_error lib key mode (lib.trim v))) [
        | inr (x, bad) ↦ absurd (cc (sym (values_failed key mode v values matches x bad) ∙ e))
        | inl good ↦
            normalize_values-IsMatches key mode values _ out
              (added mode (lib.trim v) matches (value_error-IsValue key mode (lib.trim v) good) h)
              (sym (values_next key mode v values matches good) ∙ e)
      ]

  known-length : (s : String) (xs : List String) → contains s xs ≡ true → 1 ≤ length xs
  unfolding contains
  known-length s [] e = absurd (cc e)
  known-length s (x ∷ xs) e = omega arith

  added-length :
      (value : String) (matches : List String)
      → (1 ≤ length (if contains value matches then matches else matches ++ value ∷ []))
  added-length value matches = elim (Bool-cases (contains value matches)) [
    | inl known ↦ rw known (known-length value matches known)
    | inr fresh ↦ rw fresh (omega (arith, length-append matches (value ∷ [])))
  ]

  normalize_values-length :
      (key mode : String) (values matches out : List String)
      → 1 ≤ length matches
      → normalize_values lib key mode values matches ≡ ok out
      → 1 ≤ length out
  unfolding normalize_values
  normalize_values-length key mode [] matches out h e =
      let same : matches ≡ out = cc e in subst (λ m. 1 ≤ length m) same h
  normalize_values-length key mode (v ∷ values) matches out h e =
      elim (Option-cases (value_error lib key mode (lib.trim v))) [
        | inr (x, bad) ↦ absurd (cc (sym (values_failed key mode v values matches x bad) ∙ e))
        | inl good ↦
            normalize_values-length key mode values _ out (added-length (lib.trim v) matches)
              (sym (values_next key mode v values matches good) ∙ e)
      ]

  first-length :
      (key mode v : String) (values out : List String)
      → normalize_values lib key mode (v ∷ values) [] ≡ ok out
      → 1 ≤ length out
  first-length key mode v values out e =
      elim (Option-cases (value_error lib key mode (lib.trim v))) [
        | inr (x, bad) ↦ absurd (cc (sym (values_failed key mode v values [] x bad) ∙ e))
        | inl good ↦
            normalize_values-length key mode values _ out (added-length (lib.trim v) [])
              (sym (values_next key mode v values [] good) ∙ e)
      ]

  -- A plan has a match, its key if no other.
  pub plan_values-length :
      (key mode : String) (values out : List String)
      → normalize_values lib key mode (plan_values key values) [] ≡ ok out
      → 1 ≤ length out
  unfolding plan_values
  plan_values-length key mode [] out e = first-length key mode key [] out e
  plan_values-length key mode (v ∷ values) out e = first-length key mode v values out e
