-- ===== src/Extension/Router/Registered.antt =====
-- Registering routes.
use airgate_sdk.Prelude.{
  ◌≡◌, refl, sym, ap, ◌∙◌, ◌⊎◌, inl, inr, Option, some, List, [], ◌∷◌, ◌++◌, subst, equal_bytes,
  equal_bytes_eq, equal_bytes_refl, Bool-cases,
}
use mathlib.Core.List.{Memᴰ}
use airgate_sdk.Outcome.{Bytes}
use airgate_sdk.Extension.Router.{Routes, find_route, put_route, route_key, handle, match}
use airgate_sdk.Extension.Router.Order.{IsMap, match_exact}

module _ {H : Type 0} where
  find_route-put_route :
      (key : Bytes) (h : Option H) (routes : Routes H) → find_route key (put_route key h routes) ≡ h
  unfolding find_route put_route
  find_route-put_route key h [] = rw (equal_bytes_refl key, find_route) refl
  find_route-put_route key h ((k, h') ∷ routes) = elim (Bool-cases (equal_bytes k key)) [
    | inl same ↦ rw (same, put_route, find_route) (rw (same, find_route) refl)
    | inr differs ↦
        rw (differs, put_route, find_route)
          (rw (differs, find_route) (find_route-put_route key h routes))
  ]

  put_route-Mem :
      (key : Bytes) (h : Option H) (routes : Routes H) (x : Bytes × Option H)
      → Memᴰ x (put_route key h routes)
      → (x ≡ (key, h)) ⊎ Memᴰ x routes
  unfolding put_route
  put_route-Mem key h [] x (Memᴰ.head e) = inl e
  put_route-Mem key h [] x (Memᴰ.tail m) = elim m [ ]
  put_route-Mem key h ((k, h') ∷ routes) x m = elim (Bool-cases (equal_bytes k key)) [
    | inl same ↦ replaced (equal_bytes_eq k key same) (subst (Memᴰ x) (rw (same, put_route) refl) m)
    | inr differs ↦
        kept (put_route-Mem key h routes x) (subst (Memᴰ x) (rw (differs, put_route) refl) m)
  ]
    where
      replaced : k ≡ key → Memᴰ x ((k, h) ∷ routes) → (x ≡ (key, h)) ⊎ Memᴰ x ((k, h') ∷ routes)
      replaced e (Memᴰ.head e') = inl (e' ∙ ap (λ z. (z, h)) e)
      replaced e (Memᴰ.tail m') = inr (Memᴰ.tail m')

      kept :
          (Memᴰ x (put_route key h routes) → (x ≡ (key, h)) ⊎ Memᴰ x routes)
          → Memᴰ x ((k, h') ∷ put_route key h routes)
          → (x ≡ (key, h)) ⊎ Memᴰ x ((k, h') ∷ routes)
      kept later (Memᴰ.head e) = inr (Memᴰ.head e)
      kept later (Memᴰ.tail m') = elim (later m') [ inl e ↦ inl e | inr m'' ↦ inr (Memᴰ.tail m'') ]

  -- No key stands twice.
  abbrev pub IsUnique : Routes H → Type 0
  IsUnique [] = Unit
  IsUnique ((k, h) ∷ routes) =
      ((v : Option H) → Memᴰ {A = Bytes × Option H} (k, v) routes → ⊥) × IsUnique routes

  put_route-IsUnique :
      (key : Bytes) (h : Option H) (routes : Routes H)
      → IsUnique routes
      → IsUnique (put_route key h routes)
  unfolding put_route
  put_route-IsUnique key h [] u = (λ v m. elim m [ ], _)
  put_route-IsUnique key h ((k, h') ∷ routes) (fresh, u) = elim (Bool-cases (equal_bytes k key)) [
    | inl same ↦ rw (same, put_route) (fresh, u)
    | inr differs ↦
        rw (differs, put_route)
          (
            λ v m. elim (put_route-Mem key h routes (k, v) m) [
              | inl e ↦ absurd (
                  cc (
                    sym differs
                    ∙ (ap (λ z. equal_bytes z key) (ap (λ p. p.0) e) ∙ equal_bytes_refl key)))
              | inr m' ↦ fresh v m'
            ],
            put_route-IsUnique key h routes u,
          )
  ]

  pub IsUnique-IsMap : (routes : Routes H) → IsUnique routes → IsMap routes
  IsUnique-IsMap [] u key a b x y = elim x [ ]
  IsUnique-IsMap ((k, h) ∷ routes) (fresh, u) key a b (Memᴰ.head e) (Memᴰ.head e') =
      ap (λ p. p.1) (e ∙ sym e')
  IsUnique-IsMap ((k, h) ∷ routes) (fresh, u) key a b (Memᴰ.head e) (Memᴰ.tail m) =
      absurd (fresh b (subst (λ z. Memᴰ {A = Bytes × Option H} (z, b) routes) (ap (λ p. p.0) e) m))
  IsUnique-IsMap ((k, h) ∷ routes) (fresh, u) key a b (Memᴰ.tail m) (Memᴰ.head e) =
      absurd (fresh a (subst (λ z. Memᴰ {A = Bytes × Option H} (z, a) routes) (ap (λ p. p.0) e) m))
  IsUnique-IsMap ((k, h) ∷ routes) (fresh, u) key a b (Memᴰ.tail m) (Memᴰ.tail m') =
      IsUnique-IsMap routes u key a b m m'

-- A call of Handle: the prefix of its router, and its arguments.
pub record Registration (H : Type 0) : Type 0 where
  pub prefix : Bytes
  pub method : Bytes
  pub path : Bytes
  pub handler : Option H

unfoldable pub register :
    {H : Type 0} → (Bytes → Bytes) → List (Registration H) → Routes H → Routes H
register upper [] routes = routes
register upper (r ∷ rs) routes =
    register upper rs (handle upper r.prefix r.method r.path r.handler routes)

module _ {H : Type 0} (upper : Bytes → Bytes) where
  register-IsUnique :
      (rs : List (Registration H)) (routes : Routes H)
      → IsUnique routes
      → IsUnique (register upper rs routes)
  unfolding register handle
  register-IsUnique [] routes u = u
  register-IsUnique (r ∷ rs) routes u =
      register-IsUnique rs _
        (put_route-IsUnique (route_key upper r.method (r.prefix ++ r.path)) r.handler routes u)

  -- After any registrations, from an empty map: each key has one handler; and a further one, through
  -- a router with any prefix, serves the requests of its method for its path behind that prefix.
  pub register_lem :
      (rs : List (Registration H)) (prefix method path : Bytes) (h : H)
      → IsMap (register upper rs [])
        × (match upper
              (handle upper prefix method path (some h) (register upper rs []))
              method
              (prefix ++ path)
            ≡ some h)
  unfolding handle
  register_lem rs prefix method path h = (
    IsUnique-IsMap (register upper rs []) (register-IsUnique rs [] _),
    match_exact upper _ method (prefix ++ path) h (
        find_route-put_route (route_key upper method (prefix ++ path)) (some h)
          (register upper rs [])),
  )
