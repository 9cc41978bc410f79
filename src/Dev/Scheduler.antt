-- ===== src/Dev/Scheduler.antt =====
-- Scheduler of devkit/devserver/scheduler.go. The store it points to and the clock are arguments of
-- the methods that read them; a time and a duration are nanoseconds. The map of cooldowns is a
-- function. A policy is its string. Logging and the status texts are left out. The lock makes
-- each method one step.
pub mod Slots
pub mod Cooldowns
pub mod Rotation
pub mod Retries
use airgate_sdk.Prelude.{
  ℕ, ℤ, pos, eqb_ℤ, ltb_ℤ, pos_part, ◌+ℤ◌, String, Bool, true, false, Option, none, some, List, [],
  ◌∷◌, ◌++◌, if◌then◌else◌, length, get_elem?, replicate, ◌%◌, suc,
}
use text.Mathlib.Text.{◌==◌}
use airgate_sdk.Outcome.{ForwardOutcome, OutcomeKind, kind_should_failover}
use airgate_sdk.Dev.Accounts.{DevAccount, AccountStore, list, get, first}

abbrev pub schedule_none : String
schedule_none = "none"

abbrev pub schedule_weighted_rr : String
schedule_weighted_rr = "weighted_rr"

-- The time until which an account rests.
abbrev pub Cooldowns : Type 0
Cooldowns = ℤ → Option ℤ

pub record Scheduler : Type 0 where
  pub policy : String
  pub cooldown : Cooldowns
  pub counter : ℕ
  pub pinned_id : ℤ

unfoldable pub new_scheduler : String → Scheduler
new_scheduler policy = record {
  policy = if policy == "" then schedule_none else policy;
  cooldown = λ id. none;
  counter = 0;
  pinned_id = pos 0;
}

-- delete(s.cooldown, id)
unfoldable pub forget : Cooldowns → ℤ → Cooldowns
forget c id = λ j. if eqb_ℤ id j then none else c j

-- s.cooldown[id] = until
unfoldable pub rest_until : Cooldowns → ℤ → ℤ → Cooldowns
rest_until c id until = λ j. if eqb_ℤ id j then some until else c j

abbrev pub before : ℤ → Option ℤ → Bool
before now none = false
before now (some until) = ltb_ℤ now until

-- coolUntil, ok := s.cooldown[id]; ok && now.Before(coolUntil)
unfoldable pub cooling : Cooldowns → ℤ → ℤ → Bool
cooling c now id = before now (c id)

-- A weight that is not positive counts as 1.
unfoldable pub effective_weight : ℤ → ℕ
effective_weight w = if ltb_ℤ (pos 0) w then pos_part w else 1

-- The loop of selectWeightedRR: the cooldowns without what has expired, and the slots.
unfoldable pub collect_slots : Cooldowns → ℤ → List DevAccount → Cooldowns × List DevAccount
collect_slots c now [] = (c, [])
collect_slots c now (a ∷ accounts) = elim (cooling c now a.id) [
  | true ↦ collect_slots c now accounts
  | false ↦
      let (c', slots) = collect_slots (forget c a.id) now accounts in
      (c', replicate (effective_weight a.weight) a ++ slots)
]

-- What follows the loop. The counter is a uint64.
unfoldable pub pick : Scheduler → DevAccount → List DevAccount → Scheduler × Option DevAccount
pick s fallback [] = (s, some fallback)
pick s fallback (a ∷ slots) = (
  record s { counter = suc s.counter % 0x10000000000000000 },
  get_elem? (a ∷ slots) (s.counter % length (a ∷ slots)),
)

unfoldable pub select_weighted_rr : Scheduler → ℤ → List DevAccount → Scheduler × Option DevAccount
select_weighted_rr s now [] = (s, none)
select_weighted_rr s now (a ∷ accounts) =
    let (c, slots) = collect_slots s.cooldown now (a ∷ accounts) in
    pick (record s { cooldown = c }) a slots

unfoldable pub select_pinned : Scheduler → AccountStore → Option DevAccount
select_pinned s store =
    if ltb_ℤ (pos 0) s.pinned_id
    then elim (get store s.pinned_id) [ some a ↦ some a | none ↦ first store ]
    else first store

unfoldable pub select : Scheduler → AccountStore → ℤ → Scheduler × Option DevAccount
unfolding select_pinned
select s store now =
    if s.policy == schedule_none
    then (s, select_pinned s store)
    else select_weighted_rr s now (list store)

abbrev pub minute : ℤ
minute = pos 60000000000

abbrev pub five_minutes : ℤ
five_minutes = pos 300000000000

-- The rest that the switch of ReportResult gives: none clears it.
unfoldable pub rest_after : {F : Type 0} → ForwardOutcome F → Option ℤ
rest_after outcome = elim outcome.kind [
  | OutcomeKind.account_rate_limited ↦
      some (if ltb_ℤ (pos 0) outcome.retry_after then outcome.retry_after else minute)
  | OutcomeKind.account_dead ↦ some five_minutes
  | OutcomeKind.account_unavailable ↦ some minute
  | _ ↦ none
]

unfoldable pub report_result : {F : Type 0} → Scheduler → ℤ → ForwardOutcome F → ℤ → Scheduler
report_result s id outcome now =
    if s.policy == schedule_none then s else elim (rest_after outcome) [
      | some rest ↦ record s { cooldown = rest_until s.cooldown id (now +ℤ rest) }
      | none ↦ record s { cooldown = forget s.cooldown id }
    ]

-- `failed` says that there is an error.
unfoldable pub is_retryable : {F : Type 0} → Scheduler → ForwardOutcome F → Bool → Bool
is_retryable s outcome failed =
    if s.policy == schedule_none
    then false
    else if failed
    then true
    else kind_should_failover outcome.kind

unfoldable pub set_policy : Scheduler → String → Scheduler
set_policy s policy = record s { policy = policy }

unfoldable pub set_pinned : Scheduler → ℤ → Scheduler
set_pinned s id = record s { pinned_id = id }
