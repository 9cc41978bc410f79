-- ===== src/Dev/Accounts/Loading.antt =====
-- What load makes of the file: the ids it may give out next.
use airgate_sdk.Prelude.{
  ℤ, pos, suc_ℤ, suc_ℤ_parts, to_int64_in_range, IsInt64, ltb_ℤ, ltb_ℤ_iff, ltb_ℤ_false, ◌≤ℤ◌, ◌≡◌,
  subst, inl, inr, some, List, [], ◌∷◌, arith, All, Bool-cases,
}
use airgate_sdk.Dev.Accounts.{DevAccount, raise_next_id, new_account_store}
use airgate_sdk.Dev.Accounts.Entries.{IdsBelow, DistinctIds}
use airgate_sdk.Dev.Accounts.Laws.{IsValid}

-- No id is the greatest int64.
abbrev pub HasNextIds : List DevAccount → Type 0
HasNextIds = All (λ a. IsInt64 (suc_ℤ a.id))

raise_next_id_above :
    (next : ℤ) (accounts : List DevAccount)
    → HasNextIds accounts
    → (next ≤ℤ raise_next_id next accounts) × IdsBelow (raise_next_id next accounts) accounts
unfolding raise_next_id
raise_next_id_above next [] h = (omega arith, tt)
raise_next_id_above next (a ∷ accounts) h = elim (Bool-cases (ltb_ℤ a.id next)) [
  | inl low ↦
      let (rises, below) = raise_next_id_above next accounts h.1 in
      let e : raise_next_id next accounts ≡ raise_next_id next (a ∷ accounts) = rw low in
      subst (λ n. (next ≤ℤ n) × IdsBelow n (a ∷ accounts)) e
        (rises, (omega (arith, (ltb_ℤ_iff a.id next).0 low), below))
  | inr high ↦
      let (rises, below) = raise_next_id_above (suc_ℤ a.id) accounts h.1 in
      let le = ltb_ℤ_false a.id next high in
      let e : raise_next_id (suc_ℤ a.id) accounts ≡ raise_next_id next (a ∷ accounts) =
        rw (high, to_int64_in_range (suc_ℤ a.id) h.0) in
      subst (λ n. (next ≤ℤ n) × IdsBelow n (a ∷ accounts)) e
        (omega (arith, suc_ℤ_parts a.id), (omega (arith, suc_ℤ_parts a.id), below))
]

-- A store that is loaded from a file whose ids differ, and none of which is the greatest int64,
-- has a next id above them all: it is valid.
pub new_account_store-IsValid :
    (accounts : List DevAccount)
    → HasNextIds accounts
    → DistinctIds accounts
    → IsValid (new_account_store (some accounts))
unfolding new_account_store
new_account_store-IsValid accounts h d = record {
  below = (raise_next_id_above (pos 1) accounts h).1;
  distinct = d;
}
