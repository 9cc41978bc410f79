-- ===== src/Info/Fresh.antt =====
-- The cache methods of runtimego/grpc/gateway_client.go and common.go, in any order: what the caches hold is what the plugin has told since they were last cleared.
use airgate_sdk.Prelude.{
  String, Bool, true, false, ◌≡◌, refl, ◌⊎◌, inl, inr, Option, none, some, List, [], ◌∷◌, map,
  Option-cases, arith,
}
use airgate_sdk.Info.Records.{ProtoPluginInfo}
use airgate_sdk.Info.Conversions.{info_from_proto}
use airgate_sdk.Info.Caches.{
  ProtoModelInfo, ProtoRoute, convert_models, convert_route, Caches, invalidate_cache, platform,
  models, routes, info_context,
}

-- What a plugin would answer now.
pub record Plugin : Type 0 where
  pub its_platform : String
  pub its_models : List ProtoModelInfo
  pub its_routes : List ProtoRoute
  pub its_info : ProtoPluginInfo

-- A call, and whether its RPC would come through; or a new plugin, and the InvalidateCache after it.
pub data CacheCall : Type 0 where
  asks_platform asks_models asks_routes asks_info : (reached : Bool) → CacheCall
  replaced : Plugin → CacheCall

abbrev answer : {A : Type 0} → Bool → A → Option A
answer true a = some a
answer false a = none

-- The plugin and the caches after a call.
unfoldable pub cache_call : CacheCall → Plugin × Caches → Plugin × Caches
cache_call (asks_platform r) (p, c) = (p, (platform (answer r p.its_platform) c).0)
cache_call (asks_models r) (p, c) = (p, (models (answer r p.its_models) c).0)
cache_call (asks_routes r) (p, c) = (p, (routes (answer r p.its_routes) c).0)
cache_call (asks_info r) (p, c) = (p, (info_context (answer r p.its_info) c).0)
cache_call (replaced p') (p, c) = (p', invalidate_cache c)

unfoldable pub cache_calls : List CacheCall → Plugin × Caches → Plugin × Caches
unfolding cache_call
cache_calls [] s = s
cache_calls (k ∷ calls) s = cache_calls calls (cache_call k s)

-- Nothing, or what the plugin says.
abbrev pub Holds : {A : Type 0} → Option A → A → Type 0
Holds o a = (o ≡ none) ⊎ (o ≡ some a)

pub record IsFresh (s : Plugin × Caches) : Type 0 where
  pub platform_holds : (s.1.cached_platform ≡ "") ⊎ (s.1.cached_platform ≡ s.0.its_platform)
  pub models_hold : Holds s.1.cached_models (convert_models s.0.its_models)
  pub routes_hold : Holds s.1.cached_routes (map convert_route s.0.its_routes)
  pub info_holds : Holds s.1.cached_info (info_from_proto s.0.its_info)

platform_cases :
    (p : Plugin) (c : Caches) (r : Bool)
    → ((platform (answer r p.its_platform) c).0 ≡ c)
      ⊎ ((platform (answer r p.its_platform) c).0 ≡ record c { cached_platform = p.its_platform })
unfolding platform
platform_cases p c true = ground arith
platform_cases p c false = ground arith

models_cases :
    (p : Plugin) (c : Caches) (r : Bool)
    → ((models (answer r p.its_models) c).0 ≡ c)
      ⊎ ((models (answer r p.its_models) c).0
          ≡ record c { cached_models = some (convert_models p.its_models) })
unfolding models
models_cases p c true = elim (Option-cases c.cached_models) [
  | inr (x, e) ↦ inl (ground arith)
  | inl e ↦ inr (ground arith)
]
models_cases p c false = elim (Option-cases c.cached_models) [
  | inr (x, e) ↦ inl (ground arith)
  | inl e ↦ inl (ground arith)
]

routes_cases :
    (p : Plugin) (c : Caches) (r : Bool)
    → ((routes (answer r p.its_routes) c).0 ≡ c)
      ⊎ ((routes (answer r p.its_routes) c).0
          ≡ record c { cached_routes = some (map convert_route p.its_routes) })
unfolding routes
routes_cases p c true = elim (Option-cases c.cached_routes) [
  | inr (x, e) ↦ inl (ground arith)
  | inl e ↦ inr (ground arith)
]
routes_cases p c false = elim (Option-cases c.cached_routes) [
  | inr (x, e) ↦ inl (ground arith)
  | inl e ↦ inl (ground arith)
]

info_cases :
    (p : Plugin) (c : Caches) (r : Bool)
    → ((info_context (answer r p.its_info) c).0 ≡ c)
      ⊎ ((info_context (answer r p.its_info) c).0
          ≡ record c { cached_info = some (info_from_proto p.its_info) })
unfolding info_context
info_cases p c true = elim (Option-cases c.cached_info) [
  | inr (x, e) ↦ inl (ground arith)
  | inl e ↦ inr (ground arith)
]
info_cases p c false = elim (Option-cases c.cached_info) [
  | inr (x, e) ↦ inl (ground arith)
  | inl e ↦ inl (ground arith)
]

replaced_by : {p : Plugin} {c c' : Caches} → c' ≡ c → IsFresh (p, c) → IsFresh (p, c')
replaced_by e h = rw e h

cache_call-IsFresh : (k : CacheCall) (s : Plugin × Caches) → IsFresh s → IsFresh (cache_call k s)
unfolding cache_call invalidate_cache
cache_call-IsFresh (asks_platform r) (p, c) h = elim (platform_cases p c r) [
  | inl e ↦ replaced_by e h
  | inr e ↦ replaced_by e (record {
    platform_holds = inr refl;
    models_hold = h.models_hold;
    routes_hold = h.routes_hold;
    info_holds = h.info_holds;
  })
]
cache_call-IsFresh (asks_models r) (p, c) h = elim (models_cases p c r) [
  | inl e ↦ replaced_by e h
  | inr e ↦ replaced_by e (record {
    platform_holds = h.platform_holds;
    models_hold = inr refl;
    routes_hold = h.routes_hold;
    info_holds = h.info_holds;
  })
]
cache_call-IsFresh (asks_routes r) (p, c) h = elim (routes_cases p c r) [
  | inl e ↦ replaced_by e h
  | inr e ↦ replaced_by e (record {
    platform_holds = h.platform_holds;
    models_hold = h.models_hold;
    routes_hold = inr refl;
    info_holds = h.info_holds;
  })
]
cache_call-IsFresh (asks_info r) (p, c) h = elim (info_cases p c r) [
  | inl e ↦ replaced_by e h
  | inr e ↦ replaced_by e (record {
    platform_holds = h.platform_holds;
    models_hold = h.models_hold;
    routes_hold = h.routes_hold;
    info_holds = inr refl;
  })
]
cache_call-IsFresh (replaced p') (p, c) h = record {
  platform_holds = inl refl;
  models_hold = inl refl;
  routes_hold = inl refl;
  info_holds = inl refl;
}

-- Whatever the order of the calls, their failures and the changes of the plugin that InvalidateCache
-- follows, each cache is empty or holds what the plugin of now answers, if it was so at the start.
pub cache_calls-IsFresh :
    (calls : List CacheCall) (s : Plugin × Caches) → IsFresh s → IsFresh (cache_calls calls s)
unfolding cache_calls
cache_calls-IsFresh [] s h = h
cache_calls-IsFresh (k ∷ calls) s h =
    cache_calls-IsFresh calls (cache_call k s) (cache_call-IsFresh k s h)
