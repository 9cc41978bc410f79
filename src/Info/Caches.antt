-- ===== src/Info/Caches.antt =====
-- The caches of GatewayGRPCClient: Platform, Models, Routes and InvalidateCache of
-- runtimego/grpc/gateway_client.go, InfoContext and invalidateInfoCache of common.go. The answer of an
-- RPC is an argument, `none` if it fails. A nil slice is `none`. Each method
-- is one step: calls that overlap during an RPC, when the lock is given back, are left out.
use airgate_sdk.Prelude.{ℤ, String, not, Option, none, some, List, map, if◌then◌else◌}
use text.Mathlib.Text.{◌==◌}
use airgate_sdk.Outcome.{StringMap}
use airgate_sdk.Info.Records.{PluginInfo, ProtoPluginInfo}
use airgate_sdk.Info.Conversions.{info_from_proto}

pub record ModelInfo : Type 0 where
  pub id : String
  pub name : String
  pub context_window : ℤ
  pub max_output_tokens : ℤ
  pub capabilities : List String
  pub metadata : StringMap

pub record RouteDefinition : Type 0 where
  pub method : String
  pub path : String
  pub description : String
  pub metadata : StringMap

pub record ProtoModelInfo : Type 0 where
  pub id : String
  pub name : String
  pub context_window : ℤ
  pub max_output_tokens : ℤ
  pub capabilities : List String
  pub metadata : StringMap

pub record ProtoRoute : Type 0 where
  pub method : String
  pub path : String
  pub description : String
  pub metadata : StringMap

-- A round of convertModels. An int64 fits an int.
unfoldable pub convert_model : ProtoModelInfo → ModelInfo
convert_model m = record {
  id = m.id;
  name = m.name;
  context_window = m.context_window;
  max_output_tokens = m.max_output_tokens;
  capabilities = m.capabilities;
  metadata = m.metadata;
}

unfoldable pub convert_models : List ProtoModelInfo → List ModelInfo
unfolding convert_model
convert_models models = map convert_model models

unfoldable pub convert_route : ProtoRoute → RouteDefinition
convert_route r = record {
  method = r.method;
  path = r.path;
  description = r.description;
  metadata = r.metadata;
}

-- The cached fields of the client.
pub record Caches : Type 0 where
  pub cached_platform : String
  pub cached_models : Option (List ModelInfo)
  pub cached_routes : Option (List RouteDefinition)
  pub cached_info : Option PluginInfo

unfoldable pub invalidate_cache : Caches → Caches
invalidate_cache c = record {
  cached_platform = "";
  cached_models = none;
  cached_routes = none;
  cached_info = none;
}

unfoldable pub platform : Option String → Caches → Caches × String
platform answer c =
    if not (c.cached_platform == "")
    then (c, c.cached_platform)
    else elim answer [ none ↦ (c, "") | some value ↦ (record c { cached_platform = value }, value) ]

unfoldable pub models : Option (List ProtoModelInfo) → Caches → Caches × Option (List ModelInfo)
models answer c = elim c.cached_models [
  | some cached ↦ (c, some cached)
  | none ↦ elim answer [
    | none ↦ (c, none)
    | some fetched ↦
        (record c { cached_models = some (convert_models fetched) }, some (convert_models fetched))
  ]
]

unfoldable pub routes : Option (List ProtoRoute) → Caches → Caches × Option (List RouteDefinition)
unfolding convert_route
routes answer c = elim c.cached_routes [
  | some cached ↦ (c, some cached)
  | none ↦ elim answer [
    | none ↦ (c, none)
    | some fetched ↦ (
      record c { cached_routes = some (map convert_route fetched) },
      some (map convert_route fetched),
    )
  ]
]

-- InfoContext: `none` is its error.
unfoldable pub info_context : Option ProtoPluginInfo → Caches → Caches × Option PluginInfo
info_context answer c = elim c.cached_info [
  | some cached ↦ (c, some cached)
  | none ↦ elim answer [
    | none ↦ (c, none)
    | some fetched ↦
        (record c { cached_info = some (info_from_proto fetched) }, some (info_from_proto fetched))
  ]
]
