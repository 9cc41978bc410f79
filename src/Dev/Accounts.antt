-- ===== src/Dev/Accounts.antt =====
-- AccountStore of devkit/devserver/accounts.go. An id is an int64. The JSON file is outside the
-- repository's code: `file` is the list that was last handed to it, and `load` takes what could be
-- read. The lock makes each method one step.
pub mod Entries
pub mod Laws
pub mod Loading
use airgate_sdk.Prelude.{
  ℤ, pos, suc_ℤ, to_int64, eqb_ℤ, ltb_ℤ, String, Bool, true, false, Option, none, some, List, [],
  ◌∷◌, ◌++◌, if◌then◌else◌,
}
use mathlib.Core.Option
use airgate_sdk.Outcome.{StringMap}

pub record DevAccount : Type 0 where
  pub id : ℤ
  pub name : String
  pub account_type : String
  pub credentials : StringMap
  pub proxy_url : String
  pub weight : ℤ

pub record AccountStore : Type 0 where
  pub file : Option (List DevAccount)
  pub accounts : List DevAccount
  pub next_id : ℤ

-- The loop of load: if a.ID >= s.nextID { s.nextID = a.ID + 1 }
unfoldable pub raise_next_id : ℤ → List DevAccount → ℤ
raise_next_id next [] = next
raise_next_id next (a ∷ accounts) =
    raise_next_id (if ltb_ℤ a.id next then next else to_int64 (suc_ℤ a.id)) accounts

-- NewAccountStore and load: `none` if the file could not be read.
unfoldable pub new_account_store : Option (List DevAccount) → AccountStore
unfolding raise_next_id
new_account_store none = record { file = none; accounts = []; next_id = pos 1 }
new_account_store (some accounts) = record {
  file = some accounts;
  accounts = accounts;
  next_id = raise_next_id (pos 1) accounts;
}

unfoldable pub save : AccountStore → AccountStore
save s = record s { file = some s.accounts }

-- List
unfoldable pub list : AccountStore → List DevAccount
list s = s.accounts

unfoldable pub find_account : ℤ → List DevAccount → Option DevAccount
find_account id [] = none
find_account id (a ∷ accounts) = if eqb_ℤ a.id id then some a else find_account id accounts

unfoldable pub get : AccountStore → ℤ → Option DevAccount
get s id = find_account id s.accounts

first_account : List DevAccount → Option DevAccount
first_account [] = none
first_account (a ∷ accounts) = some a

unfoldable pub first : AccountStore → Option DevAccount
unfolding first_account
first s = first_account s.accounts

unfoldable pub create : AccountStore → DevAccount → AccountStore × DevAccount
unfolding save
create s a =
    let created = record a { id = s.next_id } in
    (
      save (record s {
        next_id = to_int64 (suc_ℤ s.next_id);
        accounts = s.accounts ++ created ∷ [];
      }),
      created,
    )

-- The loop of Update: the list with the first account of this id replaced, if there is one.
unfoldable pub replace_account : ℤ → DevAccount → List DevAccount → Option (List DevAccount)
replace_account id a [] = none
replace_account id a (x ∷ accounts) =
    if eqb_ℤ x.id id
    then some (record a { id = id } ∷ accounts)
    else Option.map (λ rest. x ∷ rest) (replace_account id a accounts)

-- The loop of Delete: the list without the first account of this id, if there is one.
unfoldable pub remove_account : ℤ → List DevAccount → Option (List DevAccount)
remove_account id [] = none
remove_account id (x ∷ accounts) =
    if eqb_ℤ x.id id
    then some accounts
    else Option.map (λ rest. x ∷ rest) (remove_account id accounts)

unfoldable pub update : AccountStore → ℤ → DevAccount → AccountStore × Option DevAccount
unfolding save
update s id a = elim (replace_account id a s.accounts) [
  | none ↦ (s, none)
  | some accounts ↦ (save (record s { accounts = accounts }), some (record a { id = id }))
]

unfoldable pub delete : AccountStore → ℤ → AccountStore × Bool
unfolding save
delete s id = elim (remove_account id s.accounts) [
  | none ↦ (s, false)
  | some accounts ↦ (save (record s { accounts = accounts }), true)
]
