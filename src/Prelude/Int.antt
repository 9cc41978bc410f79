-- ===== src/Prelude/Int.antt =====
-- Go's signed integers over the native numbers: `int` and `int64` are values of ℤ, a conversion
-- to a narrower type and a product keep their wrap-around written out.
use airgate_sdk.Prelude.Tests.{ltb, if◌then◌else◌}
use Prim.Native.Nat.{ℕ, zero, suc, ◌+◌, ◌-◌, ◌*◌, ◌/◌, ◌%◌, ◌≤◌, ◌<◌, compare, Ordering}
use mathlib.Core.Path.{◌≡◌, refl, ap}
use mathlib.Core.Bool.{Bool, true, false}
use mathlib.Core.Logic.{◌↔◌}
use native.Mathlib.Omega.{arith}

-- `negsuc n` is -(n + 1).
pub data ℤ : Type 0 where
  pos : ℕ → ℤ
  negsuc : ℕ → ℤ

abbrev pub pos_part : ℤ → ℕ
pos_part (pos n) = n
pos_part (negsuc n) = 0

abbrev pub neg_part : ℤ → ℕ
neg_part (pos n) = 0
neg_part (negsuc n) = suc n

infix 50 ◌≤ℤ◌
abbrev pub ◌≤ℤ◌ : ℤ → ℤ → Type 0
a ≤ℤ b = pos_part a + neg_part b ≤ pos_part b + neg_part a

unfoldable pub ltb_ℤ : ℤ → ℤ → Bool
ltb_ℤ a b = ltb (pos_part a + neg_part b) (pos_part b + neg_part a)

unfoldable pub eqb_ℤ : ℤ → ℤ → Bool
eqb_ℤ a b = elim (compare (pos_part a + neg_part b) (pos_part b + neg_part a)) [
  | Ordering.eq ↦ true
  | _ ↦ false
]

pub eqb_ℤ_iff : (a b : ℤ) → (eqb_ℤ a b ≡ true) ↔ (a ≡ b)
unfolding eqb_ℤ
eqb_ℤ_iff (pos a) (pos b) = ground arith
eqb_ℤ_iff (pos a) (negsuc b) = ground arith
eqb_ℤ_iff (negsuc a) (pos b) = ground arith
eqb_ℤ_iff (negsuc a) (negsuc b) = ground arith

pub eqb_ℤ_refl : (a : ℤ) → eqb_ℤ a a ≡ true
eqb_ℤ_refl a = (eqb_ℤ_iff a a).1 refl

infix 50 ◌<ℤ◌
abbrev pub ◌<ℤ◌ : ℤ → ℤ → Type 0
a <ℤ b = pos_part a + neg_part b < pos_part b + neg_part a

pub ltb_ℤ_iff : (a b : ℤ) → (ltb_ℤ a b ≡ true) ↔ (a <ℤ b)
unfolding ltb_ℤ
ltb_ℤ_iff a b = ground arith

pub ltb_ℤ_false : (a b : ℤ) → ltb_ℤ a b ≡ false → b ≤ℤ a
unfolding ltb_ℤ
ltb_ℤ_false a b h = ground arith

-- z + 1
abbrev pub suc_ℤ : ℤ → ℤ
suc_ℤ (pos n) = pos (suc n)
suc_ℤ (negsuc zero) = pos 0
suc_ℤ (negsuc (suc n)) = negsuc n

pub suc_ℤ_parts : (z : ℤ) → pos_part (suc_ℤ z) + neg_part z ≡ pos_part z + neg_part (suc_ℤ z) + 1
suc_ℤ_parts (pos n) = omega arith
suc_ℤ_parts (negsuc zero) = omega arith
suc_ℤ_parts (negsuc (suc n)) = omega arith

-- -n
abbrev pub neg_ℕ : ℕ → ℤ
neg_ℕ zero = pos 0
neg_ℕ (suc n) = negsuc n

-- The two's complement value that is left of an integer in a word of the modulus 2 * half.
abbrev wrap_bits : ℕ → ℤ → ℕ
wrap_bits half (pos n) = n % (half * 2)
wrap_bits half (negsuc n) = half * 2 - 1 - n % (half * 2)

abbrev signed : ℕ → ℕ → ℤ
signed half r = if ltb r half then pos r else negsuc (half * 2 - 1 - r)

-- int32(z)
unfoldable pub to_int32 : ℤ → ℤ
to_int32 z = signed 0x80000000 (wrap_bits 0x80000000 z)

-- int64 arithmetic wraps
unfoldable pub to_int64 : ℤ → ℤ
to_int64 z = signed 0x8000000000000000 (wrap_bits 0x8000000000000000 z)

abbrev pub IsInt32 : ℤ → Type 0
IsInt32 z = (pos_part z < 0x80000000) × (neg_part z ≤ 0x80000000)

abbrev pub IsInt64 : ℤ → Type 0
IsInt64 z = (pos_part z < 0x8000000000000000) × (neg_part z ≤ 0x8000000000000000)

pub to_int32_in_range : (z : ℤ) → IsInt32 z → to_int32 z ≡ z
unfolding to_int32
to_int32_in_range (pos n) h = ground arith
to_int32_in_range (negsuc n) h = ground arith

pub to_int64_in_range : (z : ℤ) → IsInt64 z → to_int64 z ≡ z
unfolding to_int64
to_int64_in_range (pos n) h = ground arith
to_int64_in_range (negsuc n) h = ground arith

-- time.Duration.Milliseconds: the quotient, truncated towards zero
unfoldable pub milliseconds : ℤ → ℤ
milliseconds (pos n) = pos (n / 1000000)
milliseconds (negsuc n) = neg_ℕ (suc n / 1000000)

mul_million : ℤ → ℤ
mul_million (pos n) = pos (n * 1000000)
mul_million (negsuc n) = neg_ℕ (suc n * 1000000)

-- time.Duration(ms) * time.Millisecond
unfoldable pub of_milliseconds : ℤ → ℤ
unfolding mul_million
of_milliseconds ms = to_int64 (mul_million ms)

-- A duration without what is below a millisecond.
unfoldable pub whole_milliseconds : ℤ → ℤ
whole_milliseconds (pos n) = pos (n - n % 1000000)
whole_milliseconds (negsuc n) = neg_ℕ (suc n - suc n % 1000000)

scaled_neg : (n : ℕ) → mul_million (neg_ℕ n) ≡ neg_ℕ (n * 1000000)
unfolding mul_million
scaled_neg zero = refl
scaled_neg (suc n) = refl

neg_in_range : (n : ℕ) → n ≤ 0x8000000000000000 → IsInt64 (neg_ℕ n)
neg_in_range zero h = omega arith
neg_in_range (suc n) h = omega arith

pub of_milliseconds-milliseconds :
    (d : ℤ) → IsInt64 d → of_milliseconds (milliseconds d) ≡ whole_milliseconds d
unfolding of_milliseconds milliseconds whole_milliseconds
of_milliseconds-milliseconds (pos n) h =
    rw (to_int64_in_range (pos (n / 1000000 * 1000000)) (omega arith)) (ap pos (omega arith))
of_milliseconds-milliseconds (negsuc n) h = rw (scaled_neg (suc n / 1000000)) (
    rw (to_int64_in_range _ (neg_in_range (suc n / 1000000 * 1000000) (omega arith)))
      (ap neg_ℕ (omega arith)))

abbrev diff : ℕ → ℕ → ℤ
diff a b = if ltb a b then negsuc (b - a - 1) else pos (a - b)

infixl 60 ◌+ℤ◌
unfoldable pub ◌+ℤ◌ : ℤ → ℤ → ℤ
a +ℤ b = diff (pos_part a + pos_part b) (neg_part a + neg_part b)

pub add_parts :
    (a b : ℤ)
    → pos_part (a +ℤ b) + neg_part a + neg_part b ≡ pos_part a + pos_part b + neg_part (a +ℤ b)
unfolding ◌+ℤ◌
add_parts a b = ground arith

pub add_pos : (a b : ℕ) → (pos a +ℤ pos b) ≡ pos (a + b)
unfolding ◌+ℤ◌
add_pos a b = ground arith
