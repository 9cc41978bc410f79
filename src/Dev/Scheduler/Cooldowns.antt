-- ===== src/Dev/Scheduler/Cooldowns.antt =====
-- ReportResult: whom it makes rest and until when, and what the next selections make of it.
use airgate_sdk.Prelude.{
  ℤ, eqb_ℤ, eqb_ℤ_refl, ltb_ℤ, ltb_ℤ_iff, ◌<ℤ◌, ◌+ℤ◌, ◌≡◌, ◌≢◌, sym, ◌∙◌, ap, ◌⊎◌, inl, inr, Bool,
  true, false, Option, none, some, if◌then◌else◌, arith, All, Bool-cases, Option-cases,
}
use text.Mathlib.Text.{◌==◌}
use airgate_sdk.Outcome.{ForwardOutcome}
use airgate_sdk.Dev.Accounts.{DevAccount, AccountStore, list}
use airgate_sdk.Dev.Scheduler.{
  Scheduler, schedule_none, cooling, forget, rest_until, rest_after, report_result, select,
  select_weighted_rr,
}
use airgate_sdk.Dev.Scheduler.Slots.{select_weighted_rr_lem}

-- The account rests at `now`, after a report at `since` of an outcome that gives this rest.
abbrev pub rests : ℤ → ℤ → Option ℤ → Bool
rests since now none = false
rests since now (some rest) = ltb_ℤ now (since +ℤ rest)

-- Under weighted_rr, the account that is reported on rests from then on for exactly the time that
-- its outcome gives (none if the outcome is no fault of the account), and no other account's rest
-- changes.
pub report_result_lem :
    {F : Type 0} (s : Scheduler) (id : ℤ) (outcome : ForwardOutcome F) (since now j : ℤ)
    → (s.policy == schedule_none) ≡ false
    → cooling (report_result s id outcome since).cooldown now j
      ≡ (if eqb_ℤ id j then rests since now (rest_after outcome) else cooling s.cooldown now j)
unfolding report_result cooling forget rest_until
report_result_lem s id outcome since now j weighted = elim (Option-cases (rest_after outcome)) [
  | inl clears ↦ elim (Bool-cases (eqb_ℤ id j)) [
    | inl same ↦ rw (weighted, clears, same, report_result)
    | inr other ↦ rw (weighted, clears, other, report_result)
  ]
  | inr (rest, gives) ↦ elim (Bool-cases (eqb_ℤ id j)) [
    | inl same ↦ rw (weighted, gives, same, report_result)
    | inr other ↦ rw (weighted, gives, other, report_result)
  ]
]

pub report_result_policy :
    {F : Type 0} (s : Scheduler) (id : ℤ) (outcome : ForwardOutcome F) (since : ℤ)
    → (report_result s id outcome since).policy ≡ s.policy
unfolding report_result
report_result_policy s id outcome since = elim (Bool-cases (s.policy == schedule_none)) [
  | inl direct ↦ rw (direct, report_result)
  | inr weighted ↦ elim (Option-cases (rest_after outcome)) [
    | inl clears ↦ rw (weighted, clears, report_result)
    | inr (rest, gives) ↦ rw (weighted, gives, report_result)
  ]
]

-- Under weighted_rr, while an account rests after a report, a selection gives another account,
-- unless every account rests.
pub select-report_result :
    {F : Type 0} (s : Scheduler) (store : AccountStore) (id : ℤ) (outcome : ForwardOutcome F)
    (since now rest : ℤ) (a : DevAccount)
    → (s.policy == schedule_none) ≡ false
    → rest_after outcome ≡ some rest
    → now <ℤ (since +ℤ rest)
    → (select (report_result s id outcome since) store now).1 ≡ some a
    → (a.id ≢ id)
      ⊎ All (λ b. cooling (report_result s id outcome since).cooldown now b.id ≡ true) (list store)
unfolding select
select-report_result s store id outcome since now rest a weighted gives early picked =
    let s' = report_result s id outcome since in
    let weighted' =
      ap (λ p. p == schedule_none) (report_result_policy s id outcome since) ∙ weighted in
    let picked' : (select_weighted_rr s' now (list store)).1 ≡ some a =
      rw (weighted', select) at picked in
    let (_, picks, _) = select_weighted_rr_lem s' now (list store) in
    let resting : cooling s'.cooldown now id ≡ true =
      report_result_lem s id outcome since now id weighted
      ∙ rw (eqb_ℤ_refl id, gives) ((ltb_ℤ_iff now (since +ℤ rest)).1 early) in
    let awake : cooling s'.cooldown now id ≢ false = λ free. absurd (ground (arith, resting)) in
    elim ((picks a picked').1) [
      | inl free ↦
          inl (λ same. absurd (awake (ap (λ j. cooling s'.cooldown now j) (sym same) ∙ free)))
      | inr all ↦ inr all
    ]
