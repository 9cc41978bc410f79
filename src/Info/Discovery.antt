-- ===== src/Info/Discovery.antt =====
-- The conversions of runtimego/grpc/schema.go, GetSchema of plugin_server.go and Schema of common.go.
use airgate_sdk.Prelude.{Bool, true, false, ◌&&◌, Option, none, some, [], ◌∷◌, map, if◌then◌else◌}
use text.Mathlib.Text.{◌==◌}
use airgate_sdk.Outcome.{StringMap}
use airgate_sdk.Info.Schemas.{
  PayloadSchema, ProtoPayload, RouteSchema, ProtoRouteSchema, TaskSchema, ProtoTaskSchema,
  EventSchema, ProtoEventSchema, InvokeSchema, ProtoInvokeSchema, PluginSchema, ProtoPluginSchema,
}

-- len(s.Metadata) == 0
unfoldable pub is_empty_map : StringMap → Bool
is_empty_map [] = true
is_empty_map (_ ∷ _) = false

unfoldable pub is_no_payload : PayloadSchema → Bool
is_no_payload s =
    s.content_type == "" && (s.schema_text == "" && (s.example == "" && is_empty_map s.metadata))

unfoldable pub payload_schema_to_proto : PayloadSchema → Option ProtoPayload
payload_schema_to_proto s =
    if is_no_payload s
    then none
    else some (record {
      content_type = s.content_type;
      schema_text = s.schema_text;
      example = s.example;
      metadata = s.metadata;
    })

-- sdk.PayloadSchema{}
abbrev pub no_payload : PayloadSchema
no_payload = record { content_type = ""; schema_text = ""; example = ""; metadata = [] }

unfoldable pub payload_schema_from_proto : Option ProtoPayload → PayloadSchema
payload_schema_from_proto none = no_payload
payload_schema_from_proto (some p) = record {
  content_type = p.content_type;
  schema_text = p.schema_text;
  example = p.example;
  metadata = p.metadata;
}

unfoldable pub route_schema_to_proto : RouteSchema → ProtoRouteSchema
route_schema_to_proto x = record {
  method = x.method;
  path = x.path;
  summary = x.summary;
  request = payload_schema_to_proto x.request;
  response = payload_schema_to_proto x.response;
  metadata = x.metadata;
}

unfoldable pub route_schema_from_proto : ProtoRouteSchema → RouteSchema
route_schema_from_proto x = record {
  method = x.method;
  path = x.path;
  summary = x.summary;
  request = payload_schema_from_proto x.request;
  response = payload_schema_from_proto x.response;
  metadata = x.metadata;
}

unfoldable pub task_schema_to_proto : TaskSchema → ProtoTaskSchema
task_schema_to_proto x = record {
  task_type = x.task_type;
  summary = x.summary;
  input = payload_schema_to_proto x.input;
  output = payload_schema_to_proto x.output;
  metadata = x.metadata;
}

unfoldable pub task_schema_from_proto : ProtoTaskSchema → TaskSchema
task_schema_from_proto x = record {
  task_type = x.task_type;
  summary = x.summary;
  input = payload_schema_from_proto x.input;
  output = payload_schema_from_proto x.output;
  metadata = x.metadata;
}

unfoldable pub event_schema_to_proto : EventSchema → ProtoEventSchema
event_schema_to_proto x = record {
  event_type = x.event_type;
  source = x.source;
  summary = x.summary;
  payload = payload_schema_to_proto x.payload;
  metadata = x.metadata;
}

unfoldable pub event_schema_from_proto : ProtoEventSchema → EventSchema
event_schema_from_proto x = record {
  event_type = x.event_type;
  source = x.source;
  summary = x.summary;
  payload = payload_schema_from_proto x.payload;
  metadata = x.metadata;
}

unfoldable pub invoke_schema_to_proto : InvokeSchema → ProtoInvokeSchema
invoke_schema_to_proto x = record {
  method = x.method;
  summary = x.summary;
  transport = x.transport;
  request = payload_schema_to_proto x.request;
  response = payload_schema_to_proto x.response;
  client_frame = payload_schema_to_proto x.client_frame;
  server_frame = payload_schema_to_proto x.server_frame;
  metadata = x.metadata;
}

unfoldable pub invoke_schema_from_proto : ProtoInvokeSchema → InvokeSchema
invoke_schema_from_proto x = record {
  method = x.method;
  summary = x.summary;
  transport = x.transport;
  request = payload_schema_from_proto x.request;
  response = payload_schema_from_proto x.response;
  client_frame = payload_schema_from_proto x.client_frame;
  server_frame = payload_schema_from_proto x.server_frame;
  metadata = x.metadata;
}

unfoldable pub schema_to_proto : PluginSchema → ProtoPluginSchema
schema_to_proto s = record {
  routes = map route_schema_to_proto s.routes;
  tasks = map task_schema_to_proto s.tasks;
  events = map event_schema_to_proto s.events;
  invokes = map invoke_schema_to_proto s.invokes;
  metadata = s.metadata;
}

-- sdk.PluginSchema{}
abbrev pub no_schema : PluginSchema
no_schema = record { routes = []; tasks = []; events = []; invokes = []; metadata = [] }

unfoldable pub schema_from_proto : Option ProtoPluginSchema → PluginSchema
schema_from_proto none = no_schema
schema_from_proto (some p) = record {
  routes = map route_schema_from_proto p.routes;
  tasks = map task_schema_from_proto p.tasks;
  events = map event_schema_from_proto p.events;
  invokes = map invoke_schema_from_proto p.invokes;
  metadata = p.metadata;
}

-- GetSchema of a plugin: what its Schema returns, `none` if it has no such method.
unfoldable pub get_schema : Option PluginSchema → ProtoPluginSchema
get_schema none = record { routes = []; tasks = []; events = []; invokes = []; metadata = [] }
get_schema (some s) = schema_to_proto s

-- Schema of the client, from the answer of the RPC; `none` if it fails.
unfoldable pub schema : Option ProtoPluginSchema → PluginSchema
schema none = no_schema
schema (some answer) = schema_from_proto (some answer)
