-- ===== src/Dev/Scheduler/Retries.antt =====
-- IsRetryable against the verdict's own answer.
use airgate_sdk.Prelude.{◌≡◌, ◌≢◌, sym, ◌∙◌, ◌⊎◌, inl, inr, false, Bool-cases}
use text.Mathlib.Text.{◌==◌}
use text.Mathlib.TextEquality.{eq_iff}
use airgate_sdk.Outcome.{ForwardOutcome, should_failover, kind_should_failover, scope_terminal}
use airgate_sdk.Dev.Scheduler.{Scheduler, schedule_none, is_retryable}

-- Under weighted_rr and without an error: where the scope of the outcome is not terminal, IsRetryable
-- is the outcome's ShouldFailover; where it is, ShouldFailover forbids another attempt, and
-- IsRetryable still goes by the kind.
pub is_retryable-should_failover :
    {F : Type 0} (s : Scheduler) (o : ForwardOutcome F)
    → (s.policy == schedule_none) ≡ false
    → ((o.failover_scope ≢ scope_terminal) × (is_retryable s o false ≡ should_failover o))
      ⊎ ((o.failover_scope ≡ scope_terminal)
          × (should_failover o ≡ false)
          × (is_retryable s o false ≡ kind_should_failover o.kind))
unfolding is_retryable should_failover
is_retryable-should_failover s o weighted = elim (Bool-cases (o.failover_scope == scope_terminal)) [
  | inl terminal ↦
      inr ((eq_iff o.failover_scope scope_terminal).0 terminal, rw terminal, rw weighted)
  | inr open_scope ↦ inl (
    λ same. cc (sym open_scope ∙ (eq_iff o.failover_scope scope_terminal).1 same),
    rw (weighted, open_scope),
  )
]
