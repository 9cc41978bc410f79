-- ===== src/Dev/Proxy/Failover.antt =====
-- Which accounts a request is forwarded with, and which attempt answers it.
use airgate_sdk.Prelude.{
  ℕ, zero, suc, ◌+◌, ◌≤◌, max, ℤ, ◌≡◌, refl, ◌⊎◌, inl, inr, Bool, false, none, some, List, [], ◌∷◌,
  length, arith, Option-cases,
}
use airgate_sdk.Dev.Accounts.{DevAccount, AccountStore, list}
use airgate_sdk.Dev.Scheduler.{Scheduler, select}
use airgate_sdk.Dev.Proxy.{
  Answer, Reply, exhausted, Served, tried_id, try_account, next_account, attempts, attempts_left,
  handle_http,
}

-- No id twice.
abbrev pub Distinct : List ℤ → Type 0
Distinct [] = Unit
Distinct (id ∷ ids) = (tried_id ids id ≡ false) × Distinct ids

module _ {F : Type 0} (forward : ℕ → DevAccount → Answer F) (selected_at reported_at : ℕ → ℤ)
    (stream : Bool) (store : AccountStore) where
  next_account_untried :
      (attempt : ℕ) (s : Scheduler) (tried : List ℤ) (a : DevAccount)
      → (next_account forward selected_at reported_at stream store attempt s tried).1 ≡ some a
      → tried_id tried a.id ≡ false
  unfolding next_account
  next_account_untried attempt s tried a h = ground arith

  -- A request that has ended after an attempt with this account.
  unfoldable pub ended : Scheduler → List ℤ → DevAccount → Reply → Served
  ended s tried account r = record { scheduler = s; tried = account.id ∷ tried; reply = r }

  -- The three ways on from an attempt that is not the last one possible.
  pub attempts_step :
      (left attempt : ℕ) (tried : List ℤ) (s : Scheduler) (account : DevAccount)
      → let run = attempts forward selected_at reported_at stream store in
        let (s', done) =
          try_account forward selected_at reported_at stream store attempt s account in
        let (s'', next) =
          next_account forward selected_at reported_at stream store
            (suc attempt)
            s'
            (account.id ∷ tried) in
        ((r : Reply) × (done ≡ some r)
          × (run (suc left) attempt tried s account ≡ ended s' tried account r))
        ⊎ (((done ≡ none)
              × (next ≡ none)
              × (run (suc left) attempt tried s account ≡ ended s'' tried account exhausted))
            ⊎ ((a : DevAccount) × (done ≡ none)
                × (next ≡ some a)
                × (run (suc left) attempt tried s account
                    ≡ run left (suc attempt) (account.id ∷ tried) s'' a)))
  unfolding attempts ended
  attempts_step left attempt tried s account =
      let (s', done) = try_account forward selected_at reported_at stream store attempt s account in
      let next =
        (next_account forward selected_at reported_at stream store (suc attempt) s'
          (account.id ∷ tried)).1 in
      elim (Option-cases done) [
        | inr (r, e) ↦ inl (r, e, rw (e, attempts))
        | inl again ↦ elim (Option-cases next) [
          | inl over ↦ inr (inl (again, over, rw (again, over, attempts)))
          | inr (a, on) ↦ inr (inr (a, again, on, rw (again, on, attempts)))
        ]
      ]

  attempts-Distinct :
      (left attempt : ℕ) (tried : List ℤ) (s : Scheduler) (account : DevAccount)
      → Distinct (account.id ∷ tried)
      → let r =
          attempts forward selected_at reported_at stream store left attempt tried s account in
        Distinct r.tried × (length r.tried ≤ suc (left + length tried))
  unfolding attempts
  attempts-Distinct zero attempt tried s account d = (d, omega arith)
  attempts-Distinct (suc left) attempt tried s account d =
      elim (attempts_step left attempt tried s account) [
        | inl (r, _, same) ↦ rw same (unfold ended in (d, omega arith))
        | inr (inl (_, _, same)) ↦ rw same (unfold ended in (d, omega arith))
        | inr (inr (a, _, on, same)) ↦
            let fresh = next_account_untried (suc attempt) _ (account.id ∷ tried) a on in
            let (distinct, bounded) =
              attempts-Distinct left (suc attempt) (account.id ∷ tried) _ a (fresh, d) in
            rw same (distinct, omega (arith, bounded))
      ]

  -- A request is forwarded with no account twice, and at most as often as there are accounts (once
  -- at most if there is none).
  pub handle_http-Distinct :
      (s : Scheduler)
      → let r = handle_http forward selected_at reported_at stream store s in
        Distinct r.tried × (length r.tried ≤ max 1 (length (list store)))
  unfolding handle_http attempts_left tried_id
  handle_http-Distinct s = elim (Option-cases (select s store (selected_at 0)).1) [
    | inl nobody ↦ rw (nobody, handle_http) (tt, omega arith)
    | inr (a, first) ↦
        let left = attempts_left forward selected_at reported_at stream store (list store) in
        let s' = (select s store (selected_at 0)).0 in
        let (distinct, bounded) = attempts-Distinct left 0 [] s' a (refl, tt) in
        rw (first, handle_http) (distinct, omega (arith, bounded, left_lem (list store)))
  ]
    where
      left_lem :
          (accounts : List DevAccount)
          → suc (attempts_left forward selected_at reported_at stream store accounts)
            ≤ max 1 (length accounts)
      left_lem [] = omega arith
      left_lem (a ∷ accounts) = omega arith
