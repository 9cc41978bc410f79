-- ===== src/Dispatch/Records.antt =====
-- The records of sdkgo/dispatch.go, and their messages in protocol/proto/plugin.pb.go. A message that
-- is nil is `none`, also inside a list.
use airgate_sdk.Prelude.{ℤ, String, Option, List, if◌then◌else◌}
use text.Mathlib.Text.{◌==◌}

pub record DispatchWhen : Type 0 where
  pub methods : List String
  pub paths : List String
  pub path_prefixes : List String
  pub models : List String
  pub model_prefixes : List String
  pub model_suffixes : List String

pub record DispatchModel : Type 0 where
  pub strip_suffix : String

pub record DispatchCandidate : Type 0 where
  pub scheduling : String
  pub wire : String

pub record DispatchGate : Type 0 where
  pub required_operation : String
  pub status : ℤ
  pub error_type : String
  pub code : String
  pub message : String

pub record DispatchRule : Type 0 where
  pub id : String
  pub when : DispatchWhen
  pub model : DispatchModel
  pub operation : String
  pub timeout_profile : String
  pub gate : DispatchGate
  pub context_window_fallback : String
  pub candidates : List DispatchCandidate

pub record DispatchDsl : Type 0 where
  pub rules : List DispatchRule

pub record DispatchPlan : Type 0 where
  pub client_model : String
  pub scheduling_model : String
  pub wire_model : String
  pub rule_id : String
  pub operation : String
  pub timeout_profile : String
  pub gate : DispatchGate

pub record ProtoWhen : Type 0 where
  pub methods : List String
  pub paths : List String
  pub path_prefixes : List String
  pub models : List String
  pub model_prefixes : List String
  pub model_suffixes : List String

pub record ProtoModel : Type 0 where
  pub strip_suffix : String

pub record ProtoCandidate : Type 0 where
  pub scheduling : String
  pub wire : String

pub record ProtoGate : Type 0 where
  pub required_operation : String
  pub status : ℤ
  pub error_type : String
  pub code : String
  pub message : String

pub record ProtoRule : Type 0 where
  pub id : String
  pub when : Option ProtoWhen
  pub model : Option ProtoModel
  pub operation : String
  pub timeout_profile : String
  pub gate : Option ProtoGate
  pub candidates : List (Option ProtoCandidate)
  pub context_window_fallback : String

pub record ProtoDsl : Type 0 where
  pub rules : List (Option ProtoRule)

pub record ProtoPlan : Type 0 where
  pub client_model : String
  pub scheduling_model : String
  pub wire_model : String
  pub rule_id : String
  pub operation : String
  pub timeout_profile : String
  pub gate : Option ProtoGate

-- DispatchPlan.UpstreamModel
unfoldable pub upstream_model : DispatchPlan → String
upstream_model p = if p.wire_model == "" then p.scheduling_model else p.wire_model
