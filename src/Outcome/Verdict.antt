-- ===== src/Outcome/Verdict.antt =====
-- What the verdict of sdkgo/outcome.go allows a caller to do.
use airgate_sdk.Prelude.{◌≡◌, ◌≢◌, true, false, arith}
use airgate_sdk.Outcome.{
  OutcomeKind, ForwardOutcome, is_success, is_account_fault, kind_should_failover, should_failover,
  requests_model_fallback, scope_terminal,
}
use text.Mathlib.TextEquality.{eq_iff}

-- A kind that blames the account always allows another account, and is not a success.
pub fault-failover :
    (k : OutcomeKind)
    → is_account_fault k ≡ true
    → (kind_should_failover k ≡ true) × (is_success k ≡ false)
unfolding is_account_fault kind_should_failover is_success
fault-failover OutcomeKind.success h = ground arith
fault-failover _ h = ground arith

-- An outcome that allows failover is not terminal, is no success, and does not at the same time
-- ask for a model fallback.
pub failover_excludes :
    {F : Type 0} (o : ForwardOutcome F)
    → should_failover o ≡ true
    → (o.failover_scope ≢ scope_terminal)
      × (is_success o.kind ≡ false)
      × (requests_model_fallback o ≡ false)
unfolding should_failover kind_should_failover is_success requests_model_fallback
failover_excludes o h =
    (ground (arith, eq_iff o.failover_scope scope_terminal), ground arith, ground arith)
