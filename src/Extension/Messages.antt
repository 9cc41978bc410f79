-- ===== src/Extension/Messages.antt =====
-- The messages of an extension call, from protocol/proto/plugin.pb.go. A method and a path are their
-- bytes.
use airgate_sdk.Prelude.{ℤ, Bool, String}
use airgate_sdk.Outcome.{Bytes}
use airgate_sdk.Wire.Proto.{ProtoHeaders}

pub record HttpRequest : Type 0 where
  pub method : Bytes
  pub path : Bytes
  pub query : Bytes
  pub headers : ProtoHeaders
  pub body : Bytes
  pub remote_addr : String

pub record HttpResponse : Type 0 where
  pub status_code : ℤ
  pub headers : ProtoHeaders
  pub body : Bytes

pub record HttpResponseChunk : Type 0 where
  pub payload : Bytes
  pub done : Bool
  pub status_code : ℤ
  pub headers : ProtoHeaders
