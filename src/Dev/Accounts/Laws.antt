-- ===== src/Dev/Accounts/Laws.antt =====
-- The store seen by its lookups, and the invariant of its ids.
use airgate_sdk.Prelude.{
  ℤ, suc_ℤ, suc_ℤ_parts, to_int64, to_int64_in_range, IsInt64, eqb_ℤ, eqb_ℤ_iff, ◌<ℤ◌, ◌≡◌, refl,
  inl, inr, false, none, some, [], ◌∷◌, arith, All-append, or_else, ◌↔◌, if◌then◌else◌,
  Option-cases,
}
use airgate_sdk.Dev.Accounts.{
  DevAccount, AccountStore, get, create, update, delete, replace_account, remove_account,
}
use airgate_sdk.Dev.Accounts.Entries.{
  IdsBelow, DistinctIds, find_account_above, find_account-append, find_account-replace,
  find_account-remove, replace_account-none, remove_account-none, DistinctIds-append,
  DistinctIds-replace, DistinctIds-remove, IdsBelow-replace, IdsBelow-remove, IdsBelow-mono,
}

-- An id has been given out once at most, and the next one is above them all.
pub record IsValid (s : AccountStore) : Type 0 where
  pub below : IdsBelow s.next_id s.accounts
  pub distinct : DistinctIds s.accounts

-- Ids are left: s.nextID++ does not overflow.
abbrev pub HasRoom : AccountStore → Type 0
HasRoom s = IsInt64 (suc_ℤ s.next_id)

next_after_create : (s : AccountStore) → HasRoom s → to_int64 (suc_ℤ s.next_id) ≡ suc_ℤ s.next_id
next_after_create s h = to_int64_in_range (suc_ℤ s.next_id) h

-- Create gives the account an id that no account had, keeps the ids distinct, and changes no
-- other lookup; the file holds the new list.
pub create_lem :
    (s : AccountStore) (a : DevAccount)
    → IsValid s
    → HasRoom s
    → let (s', made) = create s a in
      (made ≡ record a { id = s.next_id })
      × (get s s.next_id ≡ none)
      × ((j : ℤ) → get s' j ≡ (if eqb_ℤ s.next_id j then some made else get s j))
      × IsValid s'
      × (s'.file ≡ some s'.accounts)
unfolding create get
create_lem s a v room =
    let fresh = find_account_above s.next_id s.accounts v.below in
    let made = record a { id = s.next_id } in
    (
      refl,
      fresh,
      λ j. ground (arith, find_account-append s.accounts made j, eqb_ℤ_iff s.next_id j, fresh),
      record {
        below = rw (next_after_create s room) (
            All-append (λ x. x.id <ℤ suc_ℤ s.next_id) s.accounts (made ∷ [])
              (IdsBelow-mono s.next_id (suc_ℤ s.next_id) s.accounts
                (omega (arith, suc_ℤ_parts s.next_id)) v.below)
              (omega (arith, suc_ℤ_parts s.next_id), tt));
        distinct = DistinctIds-append s.accounts made v.distinct fresh;
      },
      refl,
    )

-- Update succeeds exactly when the id is there; it then replaces what a lookup of this id gives
-- and nothing else, and keeps the ids.
pub update_lem :
    (s : AccountStore) (id : ℤ) (a : DevAccount)
    → IsValid s
    → let (s', r) = update s id a in
      ((r ≡ none) ↔ (get s id ≡ none))
      × ((j : ℤ) → get s' j ≡ (if eqb_ℤ id j then or_else r (get s j) else get s j))
      × IsValid s'
unfolding update get
update_lem s id a v = elim (Option-cases (replace_account id a s.accounts)) [
  | inl missing ↦
      rw (missing, update)
        (
          (λ _. (replace_account-none id a s.accounts).0 missing, λ _. refl),
          λ j. ground (arith, eqb_ℤ_iff id j, (replace_account-none id a s.accounts).0 missing),
          v,
        )
  | inr (r, found) ↦
      rw (found, update)
        (
          (
            λ e. absurd (ground arith),
            λ e. ground (arith, (replace_account-none id a s.accounts).1 e),
          ),
          λ j. ground (arith, find_account-replace id a s.accounts r j found),
          record {
            below = IdsBelow-replace s.next_id id a s.accounts r v.below found;
            distinct = DistinctIds-replace id a s.accounts r v.distinct found;
          },
        )
]

-- What Update answers where the id is there.
pub update_found :
    (s : AccountStore) (id : ℤ) (a x : DevAccount)
    → get s id ≡ some x
    → (update s id a).1 ≡ some (record a { id = id })
unfolding update get
update_found s id a x h = elim (Option-cases (replace_account id a s.accounts)) [
  | inl missing ↦ absurd (ground (arith, (replace_account-none id a s.accounts).0 missing))
  | inr (r, found) ↦ rw (found, update) refl
]

-- Delete answers true exactly when the id is there; it then removes what a lookup of this id
-- gives and nothing else, and keeps the ids.
pub delete_lem :
    (s : AccountStore) (id : ℤ)
    → IsValid s
    → let (s', r) = delete s id in
      ((r ≡ false) ↔ (get s id ≡ none))
      × ((j : ℤ) → get s' j ≡ (if eqb_ℤ id j then none else get s j))
      × IsValid s'
unfolding delete get
delete_lem s id v = elim (Option-cases (remove_account id s.accounts)) [
  | inl missing ↦
      rw (missing, delete)
        (
          (λ _. (remove_account-none id s.accounts).0 missing, λ _. refl),
          λ j. ground (arith, eqb_ℤ_iff id j, (remove_account-none id s.accounts).0 missing),
          v,
        )
  | inr (r, found) ↦
      rw (found, delete)
        (
          (
            λ e. absurd (ground arith),
            λ e. ground (arith, (remove_account-none id s.accounts).1 e),
          ),
          λ j. ground (arith, find_account-remove id s.accounts r j v.distinct found),
          record {
            below = IdsBelow-remove s.next_id id s.accounts r v.below found;
            distinct = DistinctIds-remove id s.accounts r v.distinct found;
          },
        )
]
