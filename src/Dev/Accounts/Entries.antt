-- ===== src/Dev/Accounts/Entries.antt =====
-- The account list under its three loops.
use airgate_sdk.Prelude.{
  ℤ, eqb_ℤ, eqb_ℤ_iff, ◌<ℤ◌, ◌≤ℤ◌, ◌≡◌, refl, subst, inl, inr, none, some, List, [], ◌∷◌, ◌++◌,
  arith, All, or_else, ◌↔◌, if◌then◌else◌, Bool-cases, Option-cases,
}
use airgate_sdk.Dev.Accounts.{DevAccount, find_account, replace_account, remove_account}

-- Every id is below the bound.
abbrev pub IdsBelow : ℤ → List DevAccount → Type 0
IdsBelow n = All (λ a. a.id <ℤ n)

-- No two accounts share an id.
abbrev pub DistinctIds : List DevAccount → Type 0
DistinctIds [] = Unit
DistinctIds (a ∷ accounts) = (find_account a.id accounts ≡ none) × DistinctIds accounts

pub find_account_above :
    (id : ℤ) (accounts : List DevAccount) → IdsBelow id accounts → find_account id accounts ≡ none
unfolding find_account
find_account_above id [] h = refl
find_account_above id (a ∷ accounts) h =
    ground (arith, eqb_ℤ_iff a.id id, find_account_above id accounts h.1)

pub find_account-append :
    (accounts : List DevAccount) (a : DevAccount) (j : ℤ)
    → find_account j (accounts ++ a ∷ [])
      ≡ or_else (find_account j accounts) (if eqb_ℤ a.id j then some a else none)
unfolding find_account
find_account-append [] a j = refl
find_account-append (x ∷ accounts) a j = ground (arith, find_account-append accounts a j)

-- An account that is found has the id that was asked for.
pub find_account-id :
    (j : ℤ) (accounts : List DevAccount) (a : DevAccount)
    → find_account j accounts ≡ some a
    → a.id ≡ j
unfolding find_account
find_account-id j [] a h = cc
find_account-id j (x ∷ accounts) a h =
    ground (arith, eqb_ℤ_iff x.id j, find_account-id j accounts a)

-- The loop of Update finds its account exactly when a lookup does.
pub replace_account-none :
    (id : ℤ) (a : DevAccount) (accounts : List DevAccount)
    → (replace_account id a accounts ≡ none) ↔ (find_account id accounts ≡ none)
unfolding replace_account find_account
replace_account-none id a [] = (λ _. refl, λ _. refl)
replace_account-none id a (x ∷ accounts) = (
  ground (arith, (replace_account-none id a accounts).0),
  ground (arith, (replace_account-none id a accounts).1),
)

-- So does the loop of Delete.
pub remove_account-none :
    (id : ℤ) (accounts : List DevAccount)
    → (remove_account id accounts ≡ none) ↔ (find_account id accounts ≡ none)
unfolding remove_account find_account
remove_account-none id [] = (λ _. refl, λ _. refl)
remove_account-none id (x ∷ accounts) = (
  ground (arith, (remove_account-none id accounts).0),
  ground (arith, (remove_account-none id accounts).1),
)

pub find_account-replace :
    (id : ℤ) (a : DevAccount) (accounts r : List DevAccount) (j : ℤ)
    → replace_account id a accounts ≡ some r
    → find_account j r
      ≡ (if eqb_ℤ id j then some (record a { id = id }) else find_account j accounts)
unfolding replace_account find_account
find_account-replace id a [] r j h = cc
find_account-replace id a (x ∷ accounts) r j h =
    elim (Option-cases (replace_account id a accounts)) [
      | inl missing ↦ ground (arith, eqb_ℤ_iff x.id id, eqb_ℤ_iff x.id j, eqb_ℤ_iff id j)
      | inr (r', found) ↦ ground (
        arith,
        eqb_ℤ_iff x.id id,
        eqb_ℤ_iff x.id j,
        eqb_ℤ_iff id j,
        find_account-replace id a accounts r' j found,
      )
    ]

pub find_account-remove :
    (id : ℤ) (accounts r : List DevAccount) (j : ℤ)
    → DistinctIds accounts
    → remove_account id accounts ≡ some r
    → find_account j r ≡ (if eqb_ℤ id j then none else find_account j accounts)
unfolding remove_account find_account
find_account-remove id [] r j d h = cc
find_account-remove id (x ∷ accounts) r j d h = elim (Option-cases (remove_account id accounts)) [
  | inl missing ↦ ground (arith, eqb_ℤ_iff x.id id, eqb_ℤ_iff x.id j, eqb_ℤ_iff id j)
  | inr (r', found) ↦ ground (
    arith,
    eqb_ℤ_iff x.id id,
    eqb_ℤ_iff x.id j,
    eqb_ℤ_iff id j,
    find_account-remove id accounts r' j d.1 found,
  )
]

pub DistinctIds-append :
    (accounts : List DevAccount) (a : DevAccount)
    → DistinctIds accounts
    → find_account a.id accounts ≡ none
    → DistinctIds (accounts ++ a ∷ [])
unfolding find_account
DistinctIds-append [] a d h = (refl, tt)
DistinctIds-append (x ∷ accounts) a d h = (
  ground (arith, find_account-append accounts a x.id, eqb_ℤ_iff a.id x.id, eqb_ℤ_iff x.id a.id),
  DistinctIds-append accounts a d.1 (ground arith),
)

pub DistinctIds-replace :
    (id : ℤ) (a : DevAccount) (accounts r : List DevAccount)
    → DistinctIds accounts
    → replace_account id a accounts ≡ some r
    → DistinctIds r
unfolding replace_account
DistinctIds-replace id a [] r d h = cc
DistinctIds-replace id a (x ∷ accounts) r d h = elim (Bool-cases (eqb_ℤ x.id id)) [
  | inl hit ↦
      let e : (record a { id = id } ∷ accounts) ≡ r = ground arith in
      subst DistinctIds e (rw (← (eqb_ℤ_iff x.id id).0 hit) d.0, d.1)
  | inr miss ↦ elim (Option-cases (replace_account id a accounts)) [
    | inl missing ↦ absurd (ground arith)
    | inr (r', found) ↦
        let e : (x ∷ r') ≡ r = ground arith in
        subst DistinctIds e (
          ground (
            arith,
            find_account-replace id a accounts r' x.id found,
            eqb_ℤ_iff x.id id,
            eqb_ℤ_iff id x.id,
          ),
          DistinctIds-replace id a accounts r' d.1 found,
        )
  ]
]

pub DistinctIds-remove :
    (id : ℤ) (accounts r : List DevAccount)
    → DistinctIds accounts
    → remove_account id accounts ≡ some r
    → DistinctIds r
unfolding remove_account
DistinctIds-remove id [] r d h = cc
DistinctIds-remove id (x ∷ accounts) r d h = elim (Bool-cases (eqb_ℤ x.id id)) [
  | inl hit ↦ let e : accounts ≡ r = ground arith in subst DistinctIds e d.1
  | inr miss ↦ elim (Option-cases (remove_account id accounts)) [
    | inl missing ↦ absurd (ground arith)
    | inr (r', found) ↦
        let e : (x ∷ r') ≡ r = ground arith in
        subst DistinctIds e (
          ground (arith, find_account-remove id accounts r' x.id d.1 found),
          DistinctIds-remove id accounts r' d.1 found,
        )
  ]
]

pub IdsBelow-replace :
    (n id : ℤ) (a : DevAccount) (accounts r : List DevAccount)
    → IdsBelow n accounts
    → replace_account id a accounts ≡ some r
    → IdsBelow n r
unfolding replace_account
IdsBelow-replace n id a [] r d h = cc
IdsBelow-replace n id a (x ∷ accounts) r d h = elim (Bool-cases (eqb_ℤ x.id id)) [
  | inl hit ↦
      let e : (record a { id = id } ∷ accounts) ≡ r = ground arith in
      subst (IdsBelow n) e (rw (← (eqb_ℤ_iff x.id id).0 hit) d.0, d.1)
  | inr miss ↦ elim (Option-cases (replace_account id a accounts)) [
    | inl missing ↦ absurd (ground arith)
    | inr (r', found) ↦
        let e : (x ∷ r') ≡ r = ground arith in
        subst (IdsBelow n) e (d.0, IdsBelow-replace n id a accounts r' d.1 found)
  ]
]

pub IdsBelow-remove :
    (n id : ℤ) (accounts r : List DevAccount)
    → IdsBelow n accounts
    → remove_account id accounts ≡ some r
    → IdsBelow n r
unfolding remove_account
IdsBelow-remove n id [] r d h = cc
IdsBelow-remove n id (x ∷ accounts) r d h = elim (Bool-cases (eqb_ℤ x.id id)) [
  | inl hit ↦ let e : accounts ≡ r = ground arith in subst (IdsBelow n) e d.1
  | inr miss ↦ elim (Option-cases (remove_account id accounts)) [
    | inl missing ↦ absurd (ground arith)
    | inr (r', found) ↦
        let e : (x ∷ r') ≡ r = ground arith in
        subst (IdsBelow n) e (d.0, IdsBelow-remove n id accounts r' d.1 found)
  ]
]

pub IdsBelow-mono :
    (m n : ℤ) (accounts : List DevAccount) → m ≤ℤ n → IdsBelow m accounts → IdsBelow n accounts
IdsBelow-mono m n [] le h = tt
IdsBelow-mono m n (a ∷ accounts) le h = (omega arith, IdsBelow-mono m n accounts le h.1)
