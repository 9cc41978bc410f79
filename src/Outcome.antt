-- ===== src/Outcome.antt =====
-- sdkgo/outcome.go, and the quotes of sdkgo/billing.go that a usage record carries.
-- A Go string is a `String`, a byte slice a list of byte values, an `int` or `int64` a ℤ, a
-- duration its nanoseconds, a map an association list in its iteration order. A nil map or slice
-- is the empty one (the code reads both by their length only). `F` stands for float64.
pub mod Verdict
use airgate_sdk.Prelude.{ℕ, ℤ, String, Bool, true, false, Option, List, ◌&&◌, ◌||◌, not}
use text.Mathlib.Text.{◌==◌}

abbrev pub Bytes : Type 0
Bytes = List ℕ

-- http.Header
abbrev pub Header : Type 0
Header = List (String × List String)

abbrev pub StringMap : Type 0
StringMap = List (String × String)

-- An `int` that no constant names is `other`.
pub data OutcomeKind : Type 0 where
  unknown success client_error account_rate_limited account_dead upstream_transient : OutcomeKind
  stream_aborted family_transient account_unavailable account_quota_exhausted : OutcomeKind
  other : ℕ → OutcomeKind

-- OutcomeKind.String
unfoldable pub kind_name : OutcomeKind → String
kind_name OutcomeKind.success = "success"
kind_name OutcomeKind.client_error = "client_error"
kind_name OutcomeKind.account_rate_limited = "account_rate_limited"
kind_name OutcomeKind.account_dead = "account_dead"
kind_name OutcomeKind.upstream_transient = "upstream_transient"
kind_name OutcomeKind.stream_aborted = "stream_aborted"
kind_name OutcomeKind.family_transient = "family_transient"
kind_name OutcomeKind.account_unavailable = "account_unavailable"
kind_name OutcomeKind.account_quota_exhausted = "account_quota_exhausted"
kind_name _ = "unknown"

unfoldable pub is_success : OutcomeKind → Bool
is_success OutcomeKind.success = true
is_success _ = false

unfoldable pub is_account_fault : OutcomeKind → Bool
is_account_fault OutcomeKind.account_rate_limited = true
is_account_fault OutcomeKind.account_dead = true
is_account_fault OutcomeKind.account_unavailable = true
is_account_fault OutcomeKind.account_quota_exhausted = true
is_account_fault OutcomeKind.family_transient = true
is_account_fault _ = false

-- OutcomeKind.ShouldFailover
unfoldable pub kind_should_failover : OutcomeKind → Bool
kind_should_failover OutcomeKind.account_rate_limited = true
kind_should_failover OutcomeKind.account_dead = true
kind_should_failover OutcomeKind.upstream_transient = true
kind_should_failover OutcomeKind.account_unavailable = true
kind_should_failover OutcomeKind.account_quota_exhausted = true
kind_should_failover OutcomeKind.family_transient = true
kind_should_failover _ = false

-- FailoverScope is a string with four named values.
abbrev pub scope_none : String
scope_none = ""

abbrev pub scope_terminal : String
scope_terminal = "terminal"

abbrev pub scope_dispatch_candidate : String
scope_dispatch_candidate = "dispatch_candidate"

abbrev pub scope_model_reroute : String
scope_model_reroute = "model_reroute"

abbrev pub fallback_context_window : String
fallback_context_window = "context_window"

pub record UpstreamResponse : Type 0 where
  pub status_code : ℤ
  pub headers : Header
  pub body : Bytes

pub record OutboundRequestDiagnostic : Type 0 where
  pub transport : String
  pub method : String
  pub url : String
  pub headers : Header
  pub body : Bytes
  pub status_code : ℤ
  pub body_original_size : ℤ

pub record FinalErrorDiagnostic : Type 0 where
  pub outbound_requests : List OutboundRequestDiagnostic
  pub upstream_error_body : Bytes

pub record BillingAdjustments (F : Type 0) : Type 0 where
  pub charge_override : Option F
  pub charge_addon : Option F
  pub api_key_base_cost : Option F

pub record Usage (F : Type 0) : Type 0 where
  pub model : String
  pub account_cost : F
  pub user_cost : F
  pub billing_multiplier : F
  pub currency : String
  pub summary : String
  pub first_event_ms : ℤ
  pub first_token_ms : ℤ
  pub ws_dial_ms : ℤ
  pub input_tokens : ℤ
  pub output_tokens : ℤ
  pub cached_input_tokens : ℤ
  pub cache_creation_tokens : ℤ
  pub reasoning_output_tokens : ℤ
  pub reasoning_effort : String
  pub input_price : F
  pub output_price : F
  pub cached_input_price : F
  pub cache_creation_price : F
  pub input_cost : F
  pub output_cost : F
  pub cached_input_cost : F
  pub cache_creation_cost : F
  pub metadata : StringMap
  pub billing : Option (BillingAdjustments F)

pub record ForwardOutcome (F : Type 0) : Type 0 where
  pub kind : OutcomeKind
  pub failover_scope : String
  pub model_fallback_reason : String
  pub upstream : UpstreamResponse
  pub usage : Option (Usage F)
  pub duration : ℤ
  pub retry_after : ℤ
  pub reason : String
  pub updated_credentials : StringMap
  pub final_error_diagnostic : Option FinalErrorDiagnostic
  pub safety_rejected : Bool

-- k == OutcomeUnknown
unfoldable pub is_unknown : OutcomeKind → Bool
is_unknown OutcomeKind.unknown = true
is_unknown _ = false

is_client_error : OutcomeKind → Bool
is_client_error OutcomeKind.client_error = true
is_client_error _ = false

module _ {F : Type 0} where
  -- ForwardOutcome.ShouldFailover
  unfoldable pub should_failover : ForwardOutcome F → Bool
  should_failover o = not (o.failover_scope == scope_terminal) && kind_should_failover o.kind

  unfoldable pub requests_model_fallback : ForwardOutcome F → Bool
  unfolding is_client_error
  requests_model_fallback o =
      is_client_error o.kind
      && (o.failover_scope == scope_model_reroute
          && o.model_fallback_reason == fallback_context_window)
