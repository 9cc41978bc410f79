-- ===== src/Prelude/Bytes.antt =====
-- Strings and slices of bytes: comparison and prefixes.
use Prim.Native.Nat.{ℕ}
use mathlib.Core.Path.{◌≡◌, refl, ap, ◌∙◌}
use mathlib.Core.Logic.{inl, inr}
use mathlib.Core.Bool.{Bool, true, false, ◌&&◌}
use mathlib.Core.Option.{Option, none, some}
use mathlib.Core.List.{List, [], ◌∷◌, ◌++◌}
use native.Mathlib.Omega.{arith}
use airgate_sdk.Prelude.Tests.{◌==◌, if◌then◌else◌, Bool-cases}

-- bytes.Equal
unfoldable pub equal_bytes : List ℕ → List ℕ → Bool
equal_bytes [] [] = true
equal_bytes [] (_ ∷ _) = false
equal_bytes (_ ∷ _) [] = false
equal_bytes (a ∷ rest) (b ∷ other) = (a == b) && equal_bytes rest other

-- What follows a prefix, if the bytes have it.
unfoldable pub after_prefix : List ℕ → List ℕ → Option (List ℕ)
after_prefix [] bytes = some bytes
after_prefix (_ ∷ _) [] = none
after_prefix (a ∷ more) (b ∷ bytes) = if a == b then after_prefix more bytes else none

pub equal_bytes_refl : (a : List ℕ) → equal_bytes a a ≡ true
unfolding equal_bytes
equal_bytes_refl [] = refl
equal_bytes_refl (b ∷ a) = ground (arith, equal_bytes_refl a)

pub equal_bytes_eq : (a b : List ℕ) → equal_bytes a b ≡ true → a ≡ b
unfolding equal_bytes
equal_bytes_eq [] [] e = refl
equal_bytes_eq [] (y ∷ b) e = absurd (cc e)
equal_bytes_eq (x ∷ a) [] e = absurd (cc e)
equal_bytes_eq (x ∷ a) (y ∷ b) e =
    let same : x ≡ y = ground arith in
    let more : equal_bytes a b ≡ true = ground arith in
    ap (λ z. z ∷ a) same ∙ ap (λ r. y ∷ r) (equal_bytes_eq a b more)

pub after_prefix-append : (a b : List ℕ) → after_prefix a (a ++ b) ≡ some b
unfolding after_prefix
after_prefix-append [] b = refl
after_prefix-append (x ∷ a) b = ground (arith, after_prefix-append a b)

pub after_prefix_eq : (a p b : List ℕ) → after_prefix a p ≡ some b → p ≡ a ++ b
unfolding after_prefix
after_prefix_eq [] p b e = cc e
after_prefix_eq (x ∷ a) [] b e = absurd (cc e)
after_prefix_eq (x ∷ a) (y ∷ p) b e = elim (Bool-cases (x == y)) [
  | inl same ↦
      let first : y ≡ x = ground arith in
      ap (λ z. z ∷ p) first ∙ ap (λ r. x ∷ r) (after_prefix_eq a p b (rw same at e))
  | inr differs ↦ absurd (cc (rw differs at e))
]
