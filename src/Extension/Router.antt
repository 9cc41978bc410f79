-- ===== src/Extension/Router.antt =====
-- extensionRouter of runtimego/grpc/extension_router.go. Strings are their bytes, and `upper` is
-- strings.ToUpper. The routers that Group gives share the map, so it is passed on; a router is then
-- its prefix. Routes are registered one after the other. A handler may be nil.
pub mod Longest
pub mod Order
pub mod Registered
use airgate_sdk.Prelude.{
  ℕ, Bool, true, false, ◌&&◌, Option, none, some, List, [], ◌∷◌, ◌++◌, length, ltb, ◌==◌,
  if◌then◌else◌, equal_bytes, after_prefix,
}
use airgate_sdk.Outcome.{Bytes}

-- map[string]http.HandlerFunc, its entries in any order.
abbrev pub Routes : Type 0 → Type 0
Routes H = List (Bytes × Option H)

abbrev pub route_key : (Bytes → Bytes) → (method path : Bytes) → Bytes
route_key upper method path = upper method ++ b' ' ∷ path

-- Group: the prefix of the router that it gives
abbrev pub group : (prefix more : Bytes) → Bytes
group prefix more = prefix ++ more

-- strings.HasSuffix(routePath, "/")
unfoldable pub ends_slash : Bytes → Bool
ends_slash [] = false
ends_slash (b ∷ []) = b == b'/'
ends_slash (b ∷ c ∷ path) = ends_slash (c ∷ path)

unfoldable pub has_prefix : (path prefix : Bytes) → Bool
has_prefix path prefix = elim (after_prefix prefix path) [ none ↦ false | some _ ↦ true ]

-- bestHandler and bestLen
pub record Best (H : Type 0) : Type 0 where
  pub handler : Option H
  pub size : ℕ

module _ {H : Type 0} where
  -- r.handlers[key], nil where the map has no such key
  unfoldable pub find_route : Bytes → Routes H → Option H
  find_route key [] = none
  find_route key ((k, h) ∷ routes) = if equal_bytes k key then h else find_route key routes

  -- r.handlers[key] = handler
  unfoldable pub put_route : Bytes → Option H → Routes H → Routes H
  put_route key h [] = (key, h) ∷ []
  put_route key h ((k, h') ∷ routes) =
      if equal_bytes k key then (k, h) ∷ routes else (k, h') ∷ put_route key h routes

  -- Handle, on a router with this prefix
  unfoldable pub handle :
      (Bytes → Bytes) → (prefix method path : Bytes) → Option H → Routes H → Routes H
  unfolding put_route
  handle upper prefix method path h routes =
      put_route (route_key upper method (prefix ++ path)) h routes

  -- One round of the loop over the map.
  unfoldable pub consider : (method_prefix path : Bytes) → Bytes × Option H → Best H → Best H
  consider method_prefix path (key, h) best = elim (after_prefix method_prefix key) [
    | none ↦ best
    | some route ↦
        if ends_slash route && (has_prefix path route && ltb best.size (length route))
        then record { handler = h; size = length route }
        else best
  ]

  unfoldable pub best_route : (method_prefix path : Bytes) → Routes H → Best H → Best H
  best_route method_prefix path [] best = best
  best_route method_prefix path (route ∷ routes) best =
      best_route method_prefix path routes (consider method_prefix path route best)

  abbrev pub no_best : Best H
  no_best = record { handler = none; size = 0 }

  -- match
  unfoldable pub match : (Bytes → Bytes) → Routes H → (method path : Bytes) → Option H
  unfolding find_route best_route
  match upper routes method path = elim (find_route (route_key upper method path) routes) [
    | some h ↦ some h
    | none ↦ (best_route (upper method ++ b' ' ∷ []) path routes no_best).handler
  ]
