-- ===== src/Info/Discovered.antt =====
-- The schema of a plugin, sent and received.
use airgate_sdk.Prelude.{
  arith, ◌≡◌, refl, sym, inl, inr, true, Option, none, some, [], ◌∷◌, Bool-cases,
}
use text.Mathlib.Text.{◌==◌}
use airgate_sdk.Outcome.{StringMap}
use airgate_sdk.Dispatch.RoundTrip.{empty_text, both}
use airgate_sdk.Info.RoundTrip.{map-map}
use airgate_sdk.Info.Schemas.{
  PayloadSchema, RouteSchema, TaskSchema, EventSchema, InvokeSchema, PluginSchema,
}
use airgate_sdk.Info.Discovery.{
  is_empty_map, is_no_payload, payload_schema_to_proto, payload_schema_from_proto, no_payload,
  no_schema, schema_to_proto, schema_from_proto, get_schema, schema, route_schema_to_proto,
  route_schema_from_proto, task_schema_to_proto, task_schema_from_proto, event_schema_to_proto,
  event_schema_from_proto, invoke_schema_to_proto, invoke_schema_from_proto,
}

empty_map : (m : StringMap) → is_empty_map m ≡ true → m ≡ []
unfolding is_empty_map
empty_map [] h = refl
empty_map (x ∷ m) h = ground arith

no_payload_lem : (s : PayloadSchema) → is_no_payload s ≡ true → s ≡ no_payload
unfolding is_no_payload
no_payload_lem s e =
    let (a, e1) = both (s.content_type == "") _ e in
    let (b, e2) = both (s.schema_text == "") _ e1 in
    let (c, d) = both (s.example == "") _ e2 in
    λ i. record {
      content_type = empty_text s.content_type a i;
      schema_text = empty_text s.schema_text b i;
      example = empty_text s.example c i;
      metadata = empty_map s.metadata d i;
    }

payload_schema_lem : (s : PayloadSchema) → payload_schema_from_proto (payload_schema_to_proto s) ≡ s
unfolding payload_schema_from_proto payload_schema_to_proto
payload_schema_lem s = elim (Bool-cases (is_no_payload s)) [
  | inl empty ↦ rw (empty, payload_schema_to_proto) (sym (no_payload_lem s empty))
  | inr full ↦ rw (full, payload_schema_to_proto) refl
]

route_schema_lem : (x : RouteSchema) → route_schema_from_proto (route_schema_to_proto x) ≡ x
unfolding route_schema_from_proto route_schema_to_proto
route_schema_lem x = λ i. record x {
  request = payload_schema_lem x.request i;
  response = payload_schema_lem x.response i;
}

task_schema_lem : (x : TaskSchema) → task_schema_from_proto (task_schema_to_proto x) ≡ x
unfolding task_schema_from_proto task_schema_to_proto
task_schema_lem x =
    λ i. record x { input = payload_schema_lem x.input i; output = payload_schema_lem x.output i }

event_schema_lem : (x : EventSchema) → event_schema_from_proto (event_schema_to_proto x) ≡ x
unfolding event_schema_from_proto event_schema_to_proto
event_schema_lem x = λ i. record x { payload = payload_schema_lem x.payload i }

invoke_schema_lem : (x : InvokeSchema) → invoke_schema_from_proto (invoke_schema_to_proto x) ≡ x
unfolding invoke_schema_from_proto invoke_schema_to_proto
invoke_schema_lem x = λ i. record x {
  request = payload_schema_lem x.request i;
  response = payload_schema_lem x.response i;
  client_frame = payload_schema_lem x.client_frame i;
  server_frame = payload_schema_lem x.server_frame i;
}

-- What a plugin declares as its schema comes to Core as it is, routes, tasks, events and actions in
-- their order, empty payloads included; without a Schema method Core gets the empty schema.
pub schema-get_schema :
    (provider : Option PluginSchema)
    → schema (some (get_schema provider)) ≡ elim provider [ none ↦ no_schema | some s ↦ s ]
unfolding schema get_schema schema_to_proto schema_from_proto
schema-get_schema none = refl
schema-get_schema (some s) = λ i. record s {
  routes = map-map route_schema_to_proto route_schema_from_proto route_schema_lem s.routes i;
  tasks = map-map task_schema_to_proto task_schema_from_proto task_schema_lem s.tasks i;
  events = map-map event_schema_to_proto event_schema_from_proto event_schema_lem s.events i;
  invokes = map-map invoke_schema_to_proto invoke_schema_from_proto invoke_schema_lem s.invokes i;
}
