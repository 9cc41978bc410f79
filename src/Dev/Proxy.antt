-- ===== src/Dev/Proxy.antt =====
-- ProxyHandler.handleHTTP of devkit/devserver/proxy.go, with a scheduler, once the body is read.
-- The plugin is not part of the repository: `forward` is what its Forward answers to an attempt with
-- an account; `selected_at` and `reported_at` are the times that the scheduler reads. Logging is left out, and so is the account list's
-- concurrent change: the list is the same throughout a request.
pub mod Failover
pub mod Replies
use airgate_sdk.Prelude.{
  ℕ, zero, suc, ◌+◌, ℤ, pos, eqb_ℤ, ltb_ℤ, String, Bool, true, false, ◌&&◌, ◌||◌, Option, none,
  some, List, [], ◌∷◌, ◌++◌, if◌then◌else◌, length, max,
}
use airgate_sdk.Outcome.{Bytes, Header, UpstreamResponse, ForwardOutcome}
use airgate_sdk.Dev.Accounts.{DevAccount, AccountStore, list}
use airgate_sdk.Dev.Scheduler.{Scheduler, select, report_result, is_retryable}

-- devBufferWriter: what a plugin wrote to it.
pub record Buffered : Type 0 where
  pub headers : Header
  pub code : ℤ
  pub body : Bytes

-- What Forward answers: its outcome, the text of its error if it has one, and what it wrote.
pub record Answer (F : Type 0) : Type 0 where
  pub outcome : ForwardOutcome F
  pub failure : Option String
  pub written : Buffered

-- The reply to the client. `as_written` is a streamed one, which the plugin wrote itself.
pub data Reply : Type 0 where
  no_accounts : Reply
  bad_gateway : String → Reply
  exhausted : Reply
  as_written : Reply
  response : (status : ℤ) → Header → Bytes → Reply

or_if_empty : {A : Type 0} → List A → List A → List A
or_if_empty [] ys = ys
or_if_empty (x ∷ xs) ys = x ∷ xs

unfoldable pub is_failure : Option String → Bool
is_failure none = false
is_failure (some e) = true

-- Its status: the upstream's, else the one that was written, else 200.
status_of : UpstreamResponse → Buffered → ℤ
status_of u b =
    if eqb_ℤ u.status_code (pos 0)
    then (if ltb_ℤ (pos 0) b.code then b.code else pos 200)
    else u.status_code

-- writeForwardOutcome
unfoldable pub write_forward_outcome : {F : Type 0} → ForwardOutcome F → Buffered → Reply
unfolding status_of or_if_empty
write_forward_outcome o b =
    response (status_of o.upstream b) (or_if_empty o.upstream.headers b.headers)
      (or_if_empty o.upstream.body b.body)

-- What ends a request after an attempt that is not tried again.
unfoldable pub conclude : {F : Type 0} → Bool → Answer F → Reply
unfolding write_forward_outcome
conclude stream a = elim a.failure [
  | some e ↦
      if eqb_ℤ a.outcome.upstream.status_code (pos 0)
      then bad_gateway e
      else (if stream then as_written else write_forward_outcome a.outcome a.written)
  | none ↦ if stream then as_written else write_forward_outcome a.outcome a.written
]

-- tried[id]
unfoldable pub tried_id : List ℤ → ℤ → Bool
tried_id [] id = false
tried_id (t ∷ tried) id = eqb_ℤ t id || tried_id tried id

-- A request that has ended: the accounts that it was forwarded with, the latest first.
pub record Served : Type 0 where
  pub scheduler : Scheduler
  pub tried : List ℤ
  pub reply : Reply

module _ {F : Type 0} (forward : ℕ → DevAccount → Answer F) (selected_at reported_at : ℕ → ℤ)
    (stream : Bool) (store : AccountStore) where
  -- The body of the loop, up to its `continue`: the scheduler, and the reply that ends the request.
  unfoldable pub try_account : ℕ → Scheduler → DevAccount → Scheduler × Option Reply
  unfolding is_failure
  try_account attempt s account =
      let a = forward attempt account in
      let s' = report_result s account.id a.outcome (reported_at attempt) in
      (
        s',
        (if is_retryable s' a.outcome (is_failure a.failure)
            then none
            else some (conclude stream a)),
      )

  -- The account of the next attempt, if it was not tried.
  unfoldable pub next_account : ℕ → Scheduler → List ℤ → Scheduler × Option DevAccount
  next_account attempt s tried =
      let (s', r) = select s store (selected_at attempt) in
      elim r [ none ↦ (s', none) | some a ↦ (s', (if tried_id tried a.id then none else some a)) ]

  -- for attempt := …; attempt < maxAttempts; attempt++ with `left` attempts after this one
  unfoldable pub attempts : ℕ → ℕ → List ℤ → Scheduler → DevAccount → Served
  unfolding try_account next_account
  attempts zero attempt tried s account =
      let (s', done) = try_account attempt s account in
      record {
        scheduler = s';
        tried = account.id ∷ tried;
        reply = elim done [ some r ↦ r | none ↦ exhausted ];
      }
  attempts (suc left) attempt tried s account =
      let (s', done) = try_account attempt s account in
      elim done [
        | some r ↦ record { scheduler = s'; tried = account.id ∷ tried; reply = r }
        | none ↦
            let (s'', next) = next_account (suc attempt) s' (account.id ∷ tried) in
            elim next [
              | none ↦ record { scheduler = s''; tried = account.id ∷ tried; reply = exhausted }
              | some a ↦ attempts left (suc attempt) (account.id ∷ tried) s'' a
            ]
      ]

  -- The attempts after the first: one for each account but one.
  unfoldable pub attempts_left : List DevAccount → ℕ
  attempts_left [] = 0
  attempts_left (a ∷ accounts) = length accounts

  unfoldable pub handle_http : Scheduler → Served
  unfolding attempts attempts_left
  handle_http s =
      let (s', r) = select s store (selected_at 0) in
      elim r [
        | none ↦ record { scheduler = s'; tried = []; reply = no_accounts }
        | some a ↦ attempts (attempts_left (list store)) 0 [] s' a
      ]
