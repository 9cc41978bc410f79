-- ===== src/Tests/Changes.antt =====
-- The changes of a host's state, and the versions that they give to its keys, like the counter of
-- devkit/testhost/state.go.
use airgate_sdk.Prelude.{
  ℕ, zero, suc, ◌≤◌, ◌++◌, arith, ◌≡◌, refl, ap, inl, inr, List, [], ◌∷◌, String, Bool-cases,
  if◌then◌else◌,
}
use text.Mathlib.Text.{◌==◌}

-- What a key undergoes: a value is put, or it is deleted.
pub data Change : Type 0 where
  put : (key value : String) → Change
  drop : (key : String) → Change

-- sequence: the number of the values that were put.
abbrev pub sequence : List Change → ℕ
sequence [] = 0
sequence (put k v ∷ cs) = suc (sequence cs)
sequence (drop k ∷ cs) = sequence cs

-- The value of a key and the number of its version, which is that of the put; 0 where there is none.
abbrev pub cell : String → List Change → String × ℕ
cell key [] = ("", 0)
cell key (put k v ∷ cs) = if k == key then (v, suc (sequence cs)) else cell key cs
cell key (drop k ∷ cs) = if k == key then ("", 0) else cell key cs

abbrev pub tally : ℕ → String
tally zero = ""
tally (suc n) = String.◌∷◌ "#" (tally n)

-- A version is a text that is not empty.
abbrev pub version_of : ℕ → String
version_of n = String.◌∷◌ "v" (tally n)

-- The number of a version.
abbrev pub marks : String → ℕ
marks String.[] = 0
marks (String.◌∷◌ c s) = suc (marks s)

marks-tally : (n : ℕ) → marks (tally n) ≡ n
marks-tally zero = refl
marks-tally (suc n) = ap suc (marks-tally n)

pub same_number : (m n : ℕ) → version_of m ≡ version_of n → m ≡ n
same_number m n e =
    let counted : suc (marks (tally m)) ≡ suc (marks (tally n)) = ap marks e in
    omega (arith, counted, marks-tally m, marks-tally n)

module _ (key : String) where
  cell_bound : (cs : List Change) → (cell key cs).1 ≤ sequence cs
  cell_bound [] = omega arith
  cell_bound (put k v ∷ cs) = elim (Bool-cases (k == key)) [
    | inl e ↦ rw e (omega arith)
    | inr e ↦ rw e (omega (arith, cell_bound cs))
  ]
  cell_bound (drop k ∷ cs) = elim (Bool-cases (k == key)) [
    | inl e ↦ rw e (omega arith)
    | inr e ↦ rw e (cell_bound cs)
  ]

  -- A key without a version has no value.
  cell_absent : (cs : List Change) → (cell key cs).1 ≡ 0 → (cell key cs).0 ≡ ""
  cell_absent [] z = refl
  cell_absent (put k v ∷ cs) z = elim (Bool-cases (k == key)) [
    | inl e ↦ absurd (let z' = rw e at z in omega (arith, z'))
    | inr e ↦ rw e (cell_absent cs (rw e at z))
  ]
  cell_absent (drop k ∷ cs) z = elim (Bool-cases (k == key)) [
    | inl e ↦ rw e refl
    | inr e ↦ rw e (cell_absent cs (rw e at z))
  ]

  sequence_grows : (more cs : List Change) → sequence cs ≤ sequence (more ++ cs)
  sequence_grows [] cs = omega arith
  sequence_grows (put k v ∷ more) cs = omega (arith, sequence_grows more cs)
  sequence_grows (drop k ∷ more) cs = sequence_grows more cs

  -- After more changes, a key with the version of before has its value of before.
  pub cell_same :
      (more cs : List Change)
      → (cell key cs).1 ≡ (cell key (more ++ cs)).1
      → (cell key cs).0 ≡ (cell key (more ++ cs)).0
  cell_same [] cs same = refl
  cell_same (put k v ∷ more) cs same = elim (Bool-cases (k == key)) [
    | inl e ↦
        absurd (let new = rw e at same in omega (arith, new, cell_bound cs, sequence_grows more cs))
    | inr e ↦ rw e (cell_same more cs (rw e at same))
  ]
  cell_same (drop k ∷ more) cs same = elim (Bool-cases (k == key)) [
    | inl e ↦ rw e (cell_absent cs (rw e at same))
    | inr e ↦ rw e (cell_same more cs (rw e at same))
  ]
