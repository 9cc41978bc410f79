-- ===== src/Info/Schemas.antt =====
-- PluginSchema of sdkgo/schema.go and the messages of protocol/proto/plugin.pb.go. A nil map is the
-- empty one; no entry of a repeated field is nil.
use airgate_sdk.Prelude.{String, List, Option}
use airgate_sdk.Outcome.{StringMap}

pub record PayloadSchema : Type 0 where
  pub content_type : String
  pub schema_text : String
  pub example : String
  pub metadata : StringMap

pub record ProtoPayload : Type 0 where
  pub content_type : String
  pub schema_text : String
  pub example : String
  pub metadata : StringMap

pub record RouteSchema : Type 0 where
  pub method : String
  pub path : String
  pub summary : String
  pub request : PayloadSchema
  pub response : PayloadSchema
  pub metadata : StringMap

pub record ProtoRouteSchema : Type 0 where
  pub method : String
  pub path : String
  pub summary : String
  pub request : Option ProtoPayload
  pub response : Option ProtoPayload
  pub metadata : StringMap

pub record TaskSchema : Type 0 where
  pub task_type : String
  pub summary : String
  pub input : PayloadSchema
  pub output : PayloadSchema
  pub metadata : StringMap

pub record ProtoTaskSchema : Type 0 where
  pub task_type : String
  pub summary : String
  pub input : Option ProtoPayload
  pub output : Option ProtoPayload
  pub metadata : StringMap

pub record EventSchema : Type 0 where
  pub event_type : String
  pub source : String
  pub summary : String
  pub payload : PayloadSchema
  pub metadata : StringMap

pub record ProtoEventSchema : Type 0 where
  pub event_type : String
  pub source : String
  pub summary : String
  pub payload : Option ProtoPayload
  pub metadata : StringMap

pub record InvokeSchema : Type 0 where
  pub method : String
  pub summary : String
  pub transport : String
  pub request : PayloadSchema
  pub response : PayloadSchema
  pub client_frame : PayloadSchema
  pub server_frame : PayloadSchema
  pub metadata : StringMap

pub record ProtoInvokeSchema : Type 0 where
  pub method : String
  pub summary : String
  pub transport : String
  pub request : Option ProtoPayload
  pub response : Option ProtoPayload
  pub client_frame : Option ProtoPayload
  pub server_frame : Option ProtoPayload
  pub metadata : StringMap

pub record PluginSchema : Type 0 where
  pub routes : List RouteSchema
  pub tasks : List TaskSchema
  pub events : List EventSchema
  pub invokes : List InvokeSchema
  pub metadata : StringMap

pub record ProtoPluginSchema : Type 0 where
  pub routes : List ProtoRouteSchema
  pub tasks : List ProtoTaskSchema
  pub events : List ProtoEventSchema
  pub invokes : List ProtoInvokeSchema
  pub metadata : StringMap
