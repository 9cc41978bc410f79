-- ===== src/Wire/Proto.antt =====
-- The messages of protocol/proto/plugin.pb.go that carry a verdict. A pointer that may be nil is
-- an Option; an int32 or int64 field is a ℤ in that range; the runtime's own fields are left out.
use airgate_sdk.Prelude.{ℕ, ℤ, String, Bool, Option, List}
use airgate_sdk.Outcome.{Bytes, StringMap}

-- Values that no constant names are `other`.
pub data ProtoKind : Type 0 where
  unknown success client_error account_rate_limited account_dead upstream_transient : ProtoKind
  stream_aborted family_transient account_unavailable account_quota_exhausted : ProtoKind
  other : ℕ → ProtoKind

-- map[string]*HeaderValues
abbrev pub ProtoHeaders : Type 0
ProtoHeaders = List (String × Option (List String))

pub record ProtoUpstream : Type 0 where
  pub status_code : ℤ
  pub headers : ProtoHeaders
  pub body : Bytes

pub record ProtoOutboundRequest : Type 0 where
  pub transport : String
  pub method : String
  pub url : String
  pub headers : ProtoHeaders
  pub body : Bytes
  pub status_code : ℤ
  pub body_original_size : ℤ

pub record ProtoDiagnostic : Type 0 where
  pub outbound_requests : List (Option ProtoOutboundRequest)
  pub upstream_error_body : Bytes

pub record ProtoBilling (F : Type 0) : Type 0 where
  pub charge_override : Option F
  pub charge_addon : Option F
  pub api_key_base_cost : Option F

pub record ProtoUsage (F : Type 0) : Type 0 where
  pub model : String
  pub account_cost : F
  pub user_cost : F
  pub billing_multiplier : F
  pub currency : String
  pub summary : String
  pub first_event_ms : ℤ
  pub metadata : StringMap
  pub input_tokens : ℤ
  pub output_tokens : ℤ
  pub cached_input_tokens : ℤ
  pub cache_creation_tokens : ℤ
  pub reasoning_output_tokens : ℤ
  pub input_price : F
  pub output_price : F
  pub cached_input_price : F
  pub cache_creation_price : F
  pub input_cost : F
  pub output_cost : F
  pub cached_input_cost : F
  pub cache_creation_cost : F
  pub reasoning_effort : String
  pub first_token_ms : ℤ
  pub ws_dial_ms : ℤ
  pub billing : Option (ProtoBilling F)

pub record ProtoOutcome (F : Type 0) : Type 0 where
  pub kind : ProtoKind
  pub upstream : Option ProtoUpstream
  pub usage : Option (ProtoUsage F)
  pub duration_ms : ℤ
  pub retry_after_ms : ℤ
  pub reason : String
  pub updated_credentials : StringMap
  pub failover_scope : String
  pub final_error_diagnostic : Option ProtoDiagnostic
  pub safety_rejected : Bool
  pub model_fallback_reason : String

pub record ForwardChunk (F : Type 0) : Type 0 where
  pub payload : Bytes
  pub done : Bool
  pub final_outcome : Option (ProtoOutcome F)
  pub status_code : ℤ
  pub headers : ProtoHeaders
