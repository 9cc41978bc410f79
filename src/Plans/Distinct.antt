-- ===== src/Plans/Distinct.antt =====
-- Lists of strings without repetition.
use airgate_sdk.Prelude.{
  String, ◌≡◌, refl, ◌∙◌, Bool, false, ◌||◌, List, [], ◌∷◌, ◌++◌, text_differs, arith,
}
use text.Mathlib.Text.{◌==◌}
use airgate_sdk.Plans.{contains}

abbrev pub IsDistinct : List String → Type 0
IsDistinct [] = Unit
IsDistinct (x ∷ xs) = (contains x xs ≡ false) × IsDistinct xs

contains-append :
    (s : String) (xs ys : List String) → contains s (xs ++ ys) ≡ (contains s xs || contains s ys)
unfolding contains
contains-append s [] ys = refl
contains-append s (x ∷ xs) ys = ground (arith, contains-append s xs ys)

pub or_false_left : (a b : Bool) → (a || b) ≡ false → a ≡ false
or_false_left a b e = ground arith

pub or_false_right : (a b : Bool) → (a || b) ≡ false → b ≡ false
or_false_right a b e = ground arith

or_false : (a b : Bool) → a ≡ false → b ≡ false → (a || b) ≡ false
or_false a b ha hb = ground arith

pub IsDistinct-concat :
    (xs : List String) (s : String)
    → IsDistinct xs
    → contains s xs ≡ false
    → IsDistinct (xs ++ s ∷ [])
unfolding contains
IsDistinct-concat [] s h fresh = (refl, _)
IsDistinct-concat (x ∷ xs) s (first, more) fresh =
    let differs = text_differs x s (or_false_left (x == s) (contains s xs) fresh) in
    (
      contains-append x xs (s ∷ [])
          ∙ or_false (contains x xs) (s == x || false) first (or_false (s == x) false differs refl),
      IsDistinct-concat xs s more (or_false_right (x == s) (contains s xs) fresh),
    )
