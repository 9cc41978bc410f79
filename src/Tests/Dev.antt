-- ===== src/Tests/Dev.antt =====
-- Two accounts in the dev server.
use airgate_sdk.Prelude.{
  ◌≢◌, ℕ, pos, ◌≡◌, ◌≢◌, ◌≤◌, ◌↔◌, ◌⊎◌, refl, true, false, none, some, [], ◌∷◌, ◌++◌, map, ap,
  length, max, take, drop, ◌%◌, if◌then◌else◌, eqb_ℤ, ltb_ℤ, ltb, ◌+ℤ◌, ◌<ℤ◌, arith, All,
}
use airgate_sdk.Dev.Accounts.{DevAccount, new_account_store, list, find_account}
use airgate_sdk.Dev.Accounts.Laws.{IsValid}
use airgate_sdk.Dev.Accounts.Loading.{new_account_store-IsValid}
use airgate_sdk.Dev.Scheduler.{
  select, select_weighted_rr, report_result, rest_after, cooling, collect_slots, pick, rest_until,
  forget, effective_weight,
}
use airgate_sdk.Dev.Scheduler.Slots.{Among, SameRest, slots_of, select_weighted_rr_lem}
use airgate_sdk.Dev.Scheduler.Cooldowns.{select-report_result}
use airgate_sdk.Dev.Scheduler.Rotation.{selections, select_round}
use airgate_sdk.Dev.Proxy.{Answer, no_accounts, handle_http}
use airgate_sdk.Dev.Proxy.Failover.{Distinct, handle_http-Distinct}
use airgate_sdk.Dev.Proxy.Replies.{IsAnswered, handle_http-IsAnswered}
use airgate_sdk.Dev.Scheduler.{is_retryable}
use airgate_sdk.Dev.Scheduler.Retries.{is_retryable-should_failover}
use airgate_sdk.Outcome.{ForwardOutcome, should_failover, kind_should_failover, scope_terminal}
use airgate_sdk.Tests.{light, heavy, two, robin, succeeded, limited}

new_account_store-IsValid_example : IsValid (new_account_store (some (heavy ∷ light ∷ [])))
unfolding find_account eqb_ℤ
new_account_store-IsValid_example =
    new_account_store-IsValid (heavy ∷ light ∷ [])
      ((omega arith, omega arith), ((omega arith, omega arith), tt)) (refl, (refl, tt))

select_weighted_rr_lem_example :
    let (s', r) = select_weighted_rr robin (pos 0) (light ∷ heavy ∷ []) in
    ((r ≡ none) ↔ ((light ∷ heavy ∷ []) ≡ []))
    × ((a : DevAccount)
        → r ≡ some a
        → Among a (light ∷ heavy ∷ [])
          × ((cooling robin.cooldown (pos 0) a.id ≡ false)
              ⊎ All (λ b. cooling robin.cooldown (pos 0) b.id ≡ true) (light ∷ heavy ∷ [])))
    × SameRest (pos 0) s'.cooldown robin.cooldown
select_weighted_rr_lem_example = select_weighted_rr_lem robin (pos 0) (light ∷ heavy ∷ [])

slots_test : slots_of robin.cooldown (pos 0) (list two) ≡ light ∷ heavy ∷ heavy ∷ []
unfolding slots_of cooling list effective_weight ltb_ℤ
slots_test = refl

select_round_example :
    let slots = slots_of robin.cooldown (pos 0) (list two) in
    let k = 4 % length slots in
    selections (length slots) robin two (pos 0) ≡ map some (drop k slots ++ take k slots)
select_round_example =
    select_round robin two (pos 0) refl (λ e. absurd (ground (arith, slots_test)))
      (omega (arith, ap length slots_test))

limited_rest : rest_after limited ≡ some (pos 30000000000)
unfolding rest_after ltb_ℤ
limited_rest = refl

early : pos 20 <ℤ (pos 10 +ℤ pos 30000000000)
unfolding ◌+ℤ◌
early = omega arith

picks_heavy : (select (report_result robin (pos 1) limited (pos 10)) two (pos 20)).1 ≡ some heavy
unfolding select select_weighted_rr collect_slots pick report_result rest_after rest_until forget
    cooling list effective_weight ltb_ℤ eqb_ℤ ◌+ℤ◌
picks_heavy = refl

select-report_result_example :
    (heavy.id ≢ pos 1)
    ⊎ All
        (λ b. cooling (report_result robin (pos 1) limited (pos 10)).cooldown (pos 20) b.id ≡ true)
        (list two)
select-report_result_example =
    select-report_result robin two (pos 1) limited (pos 10) (pos 20) (pos 30000000000) heavy refl
      limited_rest early picks_heavy

-- The first attempt is limited, the later ones succeed.
abbrev plugin : ℕ → DevAccount → Answer ℕ
plugin attempt account = record {
  outcome = if ltb attempt 1 then limited else succeeded;
  failure = none;
  written = record { headers = []; code = pos 0; body = 7 ∷ [] };
}

handle_http-Distinct_example :
    let r = handle_http plugin (λ n. pos n) (λ n. pos n) false two robin in
    Distinct r.tried × (length r.tried ≤ max 1 (length (list two)))
handle_http-Distinct_example = handle_http-Distinct plugin (λ n. pos n) (λ n. pos n) false two robin

handle_http-IsAnswered_example :
    let r = handle_http plugin (λ n. pos n) (λ n. pos n) false two robin in
    ((r.tried ≡ []) × (r.reply ≡ no_accounts))
    ⊎ IsAnswered plugin (λ n. pos n) (λ n. pos n) false two robin r
handle_http-IsAnswered_example =
    handle_http-IsAnswered plugin (λ n. pos n) (λ n. pos n) false two robin

abbrev terminal : ForwardOutcome ℕ
terminal = record limited { failover_scope = "terminal" }

is_retryable-should_failover_example :
    ((terminal.failover_scope ≢ scope_terminal)
      × (is_retryable robin terminal false ≡ should_failover terminal))
    ⊎ ((terminal.failover_scope ≡ scope_terminal)
        × (should_failover terminal ≡ false)
        × (is_retryable robin terminal false ≡ kind_should_failover terminal.kind))
is_retryable-should_failover_example = is_retryable-should_failover robin terminal refl
