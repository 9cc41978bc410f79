-- ===== src/Prelude/Texts.antt =====
-- Comparing strings.
use mathlib.Core.Path.{◌≡◌, sym, ◌∙◌}
use mathlib.Core.Logic.{inl, inr}
use mathlib.Core.Bool.{false}
use Prim.Native.String.{String}
use text.Mathlib.Text.{◌==◌}
use text.Mathlib.TextEquality.{eq_iff}
use airgate_sdk.Prelude.Tests.{Bool-cases}

pub text_differs : (a b : String) → (a == b) ≡ false → (b == a) ≡ false
text_differs a b differs = elim (Bool-cases (b == a)) [
  | inr e ↦ e
  | inl e ↦ absurd (cc (sym differs ∙ (eq_iff a b).1 (sym ((eq_iff b a).0 e))))
]
