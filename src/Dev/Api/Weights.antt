-- ===== src/Dev/Api/Weights.antt =====
-- What the scheduler's API changes.
use airgate_sdk.Prelude.{
  ℤ, pos, eqb_ℤ, ltb_ℤ, ◌≡◌, refl, sym, ap, ◌∙◌, inl, inr, true, false, some, or_else,
  if◌then◌else◌, Option-cases, arith,
}
use text.Mathlib.Text.{◌==◌}
use airgate_sdk.Dev.Accounts.{DevAccount, AccountStore, get}
use airgate_sdk.Dev.Accounts.Entries.{find_account-id}
use airgate_sdk.Dev.Accounts.Laws.{IsValid, update_lem, update_found}
use airgate_sdk.Dev.Scheduler.{Scheduler, schedule_none, select, select_pinned, set_pinned}
use airgate_sdk.Dev.Api.{weight_set, pinned, weigh, serve_pinned}

get-id : (s : AccountStore) (id : ℤ) (a : DevAccount) → get s id ≡ some a → a.id ≡ id
unfolding get
get-id s id a h = find_account-id id s.accounts a h

-- A weight that is not negative is set on the account that has the id, whose other fields stay;
-- no other lookup changes, and the store stays valid.
pub weigh_lem :
    (store : AccountStore) (id weight : ℤ) (a : DevAccount)
    → IsValid store
    → ltb_ℤ weight (pos 0) ≡ false
    → get store id ≡ some a
    → let (store', r) = weigh store id (some weight) in
      (r ≡ weight_set id weight)
      × ((j : ℤ)
          → get store' j
            ≡ (if eqb_ℤ id j then some (record a { weight = weight }) else get store j))
      × IsValid store'
unfolding weigh
weigh_lem store id weight a v positive found =
    let heavier = record a { weight = weight } in
    let (_, lookups, valid) = update_lem store id heavier v in
    let same : record heavier { id = id } ≡ heavier =
      λ i. record heavier { id = sym (get-id store id a found) i } in
    let answer = update_found store id heavier a found ∙ ap some same in
    rw (positive, found, weigh)
      (
        refl,
        λ j.
            lookups j
            ∙ ap (λ r. if eqb_ℤ id j then or_else r (get store j) else get store j) answer,
        valid,
      )

-- Where a positive id is pinned, it is the id of an account, and with the same accounts Select
-- gives that account, under the policy none.
pub select-serve_pinned :
    (store : AccountStore) (s : Scheduler) (id now : ℤ)
    → (s.policy == schedule_none) ≡ true
    → ltb_ℤ (pos 0) id ≡ true
    → let (s', r) = serve_pinned store s (some id) in
      r ≡ pinned id
      → (a : DevAccount) × (get store id ≡ some a) × ((select s' store now).1 ≡ some a)
unfolding serve_pinned select select_pinned set_pinned
select-serve_pinned store s id now direct positive q = elim (Option-cases (get store id)) [
  | inl missing ↦ absurd (ground arith)
  | inr (a, found) ↦ (a, found, ground arith)
]
