-- ===== src/Dev/Proxy/Replies.antt =====
-- Which attempt a request's reply comes from.
use airgate_sdk.Prelude.{
  ℕ, zero, suc, ℤ, ◌≡◌, refl, ap, ◌∙◌, ◌⊎◌, inl, inr, Bool, true, false, Option, none, some, List,
  [], ◌∷◌, length, arith, Bool-cases, Option-cases,
}
use text.Mathlib.Text.{◌==◌}
use airgate_sdk.Outcome.{ForwardOutcome}
use airgate_sdk.Dev.Accounts.{DevAccount, AccountStore, list}
use airgate_sdk.Dev.Scheduler.{
  Scheduler, schedule_none, select, pick, select_weighted_rr, report_result, is_retryable,
}
use airgate_sdk.Dev.Scheduler.Cooldowns.{report_result_policy}
use airgate_sdk.Dev.Proxy.{
  Answer, Reply, no_accounts, exhausted, Served, conclude, is_failure, try_account, next_account,
  attempts, handle_http,
}
use airgate_sdk.Dev.Proxy.Failover.{ended, attempts_step}

pick_policy :
    (s : Scheduler) (a : DevAccount) (slots : List DevAccount)
    → (pick s a slots).0.policy ≡ s.policy
unfolding pick
pick_policy s a [] = refl
pick_policy s a (x ∷ slots) = refl

weighted_policy :
    (s : Scheduler) (now : ℤ) (accounts : List DevAccount)
    → (select_weighted_rr s now accounts).0.policy ≡ s.policy
unfolding select_weighted_rr
weighted_policy s now [] = refl
weighted_policy s now (a ∷ accounts) = pick_policy _ a _

select_policy :
    (s : Scheduler) (store : AccountStore) (now : ℤ) → (select s store now).0.policy ≡ s.policy
unfolding select
select_policy s store now = elim (Bool-cases (s.policy == schedule_none)) [
  | inl direct ↦ rw (direct, select) refl
  | inr weighted ↦ rw (weighted, select) (weighted_policy s now (list store))
]

is_retryable_policy :
    {F : Type 0} (s s' : Scheduler) (o : ForwardOutcome F) (failed : Bool)
    → s'.policy ≡ s.policy
    → is_retryable s' o failed ≡ is_retryable s o failed
unfolding is_retryable
is_retryable_policy s s' o failed e = rw e

module _ {F : Type 0} (forward : ℕ → DevAccount → Answer F) (selected_at reported_at : ℕ → ℤ)
    (stream : Bool) (store : AccountStore) where
  -- The last attempt of a request either may not be repeated, and gives the reply, or it may, and
  -- the request ends as exhausted. Attempt n is the one that n others came before.
  pub record IsAnswered (s : Scheduler) (r : Served) : Type 0 where
    pub account : DevAccount
    pub others : List ℤ
    pub last : r.tried ≡ account.id ∷ others
    pub answered :
        let a = forward (length others) account in
        let again = is_retryable s a.outcome (is_failure a.failure) in
        ((again ≡ false) × (r.reply ≡ conclude stream a)) ⊎ ((again ≡ true) × (r.reply ≡ exhausted))

  -- An attempt ends the request with its own reply, or does not end it.
  abbrev Decides : ℕ → Scheduler → DevAccount → Option Reply → Type 0
  Decides attempt s account done =
      let a = forward attempt account in
      let again = is_retryable s a.outcome (is_failure a.failure) in
      ((again ≡ false) × (done ≡ some (conclude stream a))) ⊎ ((again ≡ true) × (done ≡ none))

  ended-IsAnswered :
      (attempt : ℕ) (tried : List ℤ) (s s' : Scheduler) (account : DevAccount) (done : Option Reply)
      (r : Reply)
      → attempt ≡ length tried
      → Decides attempt s account done
      → (done ≡ some r) ⊎ ((done ≡ none) × (r ≡ exhausted))
      → IsAnswered s (ended forward selected_at reported_at stream store s' tried account r)
  unfolding ended
  ended-IsAnswered attempt tried s s' account done r n decided end = record {
    account = account;
    others = tried;
    last = refl;
    answered = rw (← n) (reply decided end);
  }
    where
      a : Answer F
      a = forward attempt account

      again : Bool
      again = is_retryable s a.outcome (is_failure a.failure)

      reply :
          Decides attempt s account done
          → (done ≡ some r) ⊎ ((done ≡ none) × (r ≡ exhausted))
          → ((again ≡ false) × (r ≡ conclude stream a)) ⊎ ((again ≡ true) × (r ≡ exhausted))
      reply (inl (final, is)) (inl e) = inl (final, ground arith)
      reply (inl (final, is)) (inr (e, _)) = absurd (ground arith)
      reply (inr (go_on, is)) (inl e) = absurd (ground arith)
      reply (inr (go_on, is)) (inr (e, out)) = inr (go_on, out)

  -- What one attempt decides, whatever the scheduler has become meanwhile.
  try_account_lem :
      (attempt : ℕ) (s s0 : Scheduler) (account : DevAccount)
      → s.policy ≡ s0.policy
      → let (s', done) =
          try_account forward selected_at reported_at stream store attempt s account in
        Decides attempt s0 account done × (s'.policy ≡ s0.policy)
  unfolding try_account
  try_account_lem attempt s s0 account e =
      let a = forward attempt account in
      let kept = report_result_policy s account.id a.outcome (reported_at attempt) ∙ e in
      let s' = report_result s account.id a.outcome (reported_at attempt) in
      let same = is_retryable_policy s0 s' a.outcome (is_failure a.failure) kept in
      elim (Bool-cases (is_retryable s0 a.outcome (is_failure a.failure))) [
        | inl again ↦ (inr (again, rw (same, again)), kept)
        | inr final ↦ (inl (final, rw (same, final)), kept)
      ]

  next_account_policy :
      (attempt : ℕ) (s : Scheduler) (tried : List ℤ)
      → (next_account forward selected_at reported_at stream store attempt s tried).0.policy
        ≡ s.policy
  unfolding next_account
  next_account_policy attempt s tried =
      elim (Option-cases (select s store (selected_at attempt)).1) [
        | inl nobody ↦ rw (nobody, next_account) (select_policy s store (selected_at attempt))
        | inr (a, e) ↦ rw (e, next_account) (select_policy s store (selected_at attempt))
      ]

  attempts-IsAnswered :
      (left attempt : ℕ) (tried : List ℤ) (s s0 : Scheduler) (account : DevAccount)
      → attempt ≡ length tried
      → s.policy ≡ s0.policy
      → IsAnswered s0
          (attempts forward selected_at reported_at stream store left attempt tried s account)
  unfolding attempts ended
  attempts-IsAnswered zero attempt tried s s0 account n e =
      let (decided, kept) = try_account_lem attempt s s0 account e in
      elim (Option-cases
        (try_account forward selected_at reported_at stream store attempt s account).1) [
          | inr (r, done) ↦
              rw (done, attempts)
                (ended-IsAnswered attempt tried s0 _ account _ r n decided (inl done))
          | inl none_left ↦
              rw (none_left, attempts)
                (ended-IsAnswered attempt tried s0 _ account _ exhausted n decided
                  (inr (none_left, refl)))
        ]
  attempts-IsAnswered (suc left) attempt tried s s0 account n e =
      let (decided, kept) = try_account_lem attempt s s0 account e in
      elim (attempts_step forward selected_at reported_at stream store left attempt tried s
        account) [
          | inl (r, done, same) ↦
              rw same (ended-IsAnswered attempt tried s0 _ account _ r n decided (inl done))
          | inr (inl (none_left, _, same)) ↦ rw same (
              ended-IsAnswered attempt tried s0 _ account _ exhausted n decided
                (inr (none_left, refl)))
          | inr (inr (a, _, _, same)) ↦ rw same (
              attempts-IsAnswered left (suc attempt) (account.id ∷ tried) _ s0 a (ap suc n)
                (next_account_policy (suc attempt) _ (account.id ∷ tried) ∙ kept))
        ]

  -- A request is answered as if no account were configured only if it was forwarded with none;
  -- otherwise its last attempt gives the reply, or may be repeated and ends it as exhausted.
  pub handle_http-IsAnswered :
      (s : Scheduler)
      → let r = handle_http forward selected_at reported_at stream store s in
        ((r.tried ≡ []) × (r.reply ≡ no_accounts)) ⊎ IsAnswered s r
  unfolding handle_http
  handle_http-IsAnswered s = elim (Option-cases (select s store (selected_at 0)).1) [
    | inl nobody ↦ rw (nobody, handle_http) (inl (refl, refl))
    | inr (a, first) ↦
        rw (first, handle_http)
          (inr (attempts-IsAnswered _ 0 [] _ s a refl (select_policy s store (selected_at 0))))
  ]
