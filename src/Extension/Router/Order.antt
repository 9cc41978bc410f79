-- ===== src/Extension/Router/Order.antt =====
-- match on a map: an exact route wins, and the order in which the map is walked does not count.
use airgate_sdk.Prelude.{
  ◌≤◌, ◌<◌, ◌≡◌, refl, sym, ap, ◌∙◌, ◌⊎◌, inl, inr, true, Option, none, some, [], ◌∷◌, ◌++◌, length,
  arith, equal_bytes, equal_bytes_eq, equal_bytes_refl, after_prefix, after_prefix_eq, Bool-cases,
  Option-cases, subst,
}
use mathlib.Core.List.{Memᴰ}
use airgate_sdk.Outcome.{Bytes}
use airgate_sdk.Extension.Router.{
  Routes, ends_slash, has_prefix, Best, best_route, no_best, find_route, route_key, match,
}
use airgate_sdk.Extension.Router.Longest.{IsLongest, best_route-IsLongest}

-- A key has one value.
abbrev pub IsMap : {H : Type 0} → Routes H → Type 0
IsMap {H} routes =
    (key : Bytes) (h h' : Option H)
    → Memᴰ {A = Bytes × Option H} (key, h) routes
    → Memᴰ {A = Bytes × Option H} (key, h') routes
    → h ≡ h'

abbrev pub Within : {H : Type 0} → Routes H → Routes H → Type 0
Within {H} routes routes' = (route : Bytes × Option H) → Memᴰ route routes → Memᴰ route routes'

has_prefix_rest :
    (path route : Bytes) → has_prefix path route ≡ true → (rest : Bytes) × (path ≡ route ++ rest)
unfolding has_prefix
has_prefix_rest path route h = elim (Option-cases (after_prefix route path)) [
  | inl e ↦ absurd (cc (rw (e, has_prefix) at h))
  | inr (rest, e) ↦ (rest, after_prefix_eq route path rest e)
]

same_length : (a b r s : Bytes) → a ++ r ≡ b ++ s → length a ≡ length b → a ≡ b
same_length [] [] r s e n = refl
same_length [] (y ∷ b) r s e n = absurd (omega arith)
same_length (x ∷ a) [] r s e n = absurd (omega arith)
same_length (x ∷ a) (y ∷ b) r s e n =
    let first : x ≡ y = cc e in
    let more : a ++ r ≡ b ++ s = cc e in
    ap (λ z. z ∷ a) first ∙ ap (λ q. y ∷ q) (same_length a b r s more (omega arith))

ends_slash-length : (route : Bytes) → ends_slash route ≡ true → 0 < length route
unfolding ends_slash
ends_slash-length [] e = absurd (cc e)
ends_slash-length (b ∷ route) e = omega arith

module _ {H : Type 0} where
  pub find_route-Mem :
      (key : Bytes) (h : H) (routes : Routes H)
      → find_route key routes ≡ some h
      → Memᴰ {A = Bytes × Option H} (key, some h) routes
  unfolding find_route
  find_route-Mem key h [] e = absurd (cc e)
  find_route-Mem key h ((k, h') ∷ routes) e = elim (Bool-cases (equal_bytes k key)) [
    | inl same ↦ Memᴰ.head (
        ap (λ v. (key, v)) (sym (rw same at e))
        ∙ ap (λ x. (x, h')) (sym (equal_bytes_eq k key same)))
    | inr differs ↦ Memᴰ.tail (find_route-Mem key h routes (rw differs at e))
  ]

  Mem-find_route :
      (key : Bytes) (h : H) (routes : Routes H)
      → IsMap routes
      → Memᴰ {A = Bytes × Option H} (key, some h) routes
      → find_route key routes ≡ some h
  unfolding find_route
  Mem-find_route key h ((k, h') ∷ routes) map m = elim (Bool-cases (equal_bytes k key)) [
    | inl same ↦
        rw (same, find_route)
          (map key h' (some h) (Memᴰ.head (ap (λ x. (x, h')) (sym (equal_bytes_eq k key same)))) m)
    | inr differs ↦ elim m [
      | Memᴰ.head e ↦ absurd (
          cc (
            sym differs
            ∙ (ap (λ x. equal_bytes x key) (ap (λ p. p.0) (sym e)) ∙ equal_bytes_refl key)))
      | Memᴰ.tail m' ↦
          rw (differs, find_route)
            (Mem-find_route key h routes (λ k1 a b x y. map k1 a b (Memᴰ.tail x) (Memᴰ.tail y)) m')
    ]
  ]
  Mem-find_route key h [] map m = elim m [ ]

  module _ (mp path : Bytes) (routes routes' : Routes H) (b b' : Best H) where
    smaller :
        Within routes routes'
        → IsLongest mp path routes no_best b
        → IsLongest mp path routes' no_best b'
        → b.size ≤ b'.size
    smaller within l l' = elim l.found [
      | inl e ↦ omega (arith, ap (λ x. x.size) e)
      | inr (route, m, s, e) ↦
          omega (arith, l'.longest (mp ++ route) b.handler route (within _ m) s, e)
    ]

    -- Two longest routes are one.
    same_handler :
        IsMap routes'
        → Within routes routes'
        → b.size ≡ b'.size
        → IsLongest mp path routes no_best b
        → IsLongest mp path routes' no_best b'
        → b.handler ≡ b'.handler
    same_handler map within size l l' = elim l.found [
      | inl e ↦ elim l'.found [
        | inl e' ↦ ap (λ x. x.handler) (e ∙ sym e')
        | inr (route', m', s', n') ↦ absurd (
            omega
              (arith, size, n', ap (λ x. x.size) e, ends_slash-length route' s'.is_prefix_route))
      ]
      | inr (route, m, s, n) ↦ elim l'.found [
        | inl e' ↦
            absurd (
              omega
                (arith, size, n, ap (λ x. x.size) e', ends_slash-length route s.is_prefix_route))
        | inr (route', m', s', n') ↦
            let (rest, cut) = has_prefix_rest path route s.fits in
            let (rest', cut') = has_prefix_rest path route' s'.fits in
            let same =
              same_length route route' rest rest' (sym cut ∙ cut') (omega (arith, n, n', size)) in
            map (mp ++ route) b.handler b'.handler (within _ m)
              (subst (λ q. Memᴰ {A = Bytes × Option H} (mp ++ q, b'.handler) routes') (sym same) m')
      ]
    ]

  find_route-same :
      (key : Bytes) (routes routes' : Routes H)
      → IsMap routes
      → IsMap routes'
      → Within routes routes'
      → Within routes' routes
      → find_route key routes ≡ find_route key routes'
  find_route-same key routes routes' map map' there back =
      elim (Option-cases (find_route key routes)) [
        | inr (h, e) ↦
            e ∙ sym (Mem-find_route key h routes' map' (there _ (find_route-Mem key h routes e)))
        | inl e ↦ elim (Option-cases (find_route key routes')) [
          | inl e' ↦ e ∙ sym e'
          | inr (h, e') ↦ absurd (
              cc (
                sym e ∙ Mem-find_route key h routes map (back _ (find_route-Mem key h routes' e'))))
        ]
      ]

  pub match_exact :
      (upper : Bytes → Bytes) (routes : Routes H) (method path : Bytes) (h : H)
      → find_route (route_key upper method path) routes ≡ some h
      → match upper routes method path ≡ some h
  unfolding match
  match_exact upper routes method path h e = rw (e, match) refl

  match_prefix :
      (upper : Bytes → Bytes) (routes : Routes H) (method path : Bytes)
      → find_route (route_key upper method path) routes ≡ none
      → match upper routes method path
        ≡ (best_route (upper method ++ b' ' ∷ []) path routes no_best).handler
  unfolding match
  match_prefix upper routes method path e = rw (e, match) refl

  -- The handler for a request does not depend on the order in which the map of the routes is walked:
  -- two lists with the same entries, each with one handler for a key, give the same handler.
  pub match-same :
      (upper : Bytes → Bytes) (routes routes' : Routes H) (method path : Bytes)
      → IsMap routes
      → IsMap routes'
      → Within routes routes'
      → Within routes' routes
      → match upper routes method path ≡ match upper routes' method path
  match-same upper routes routes' method path map map' there back =
      let key = route_key upper method path in
      let mp = upper method ++ b' ' ∷ [] in
      let b = best_route mp path routes no_best in
      let b' = best_route mp path routes' no_best in
      let l = best_route-IsLongest mp path routes no_best in
      let l' = best_route-IsLongest mp path routes' no_best in
      let found = find_route-same key routes routes' map map' there back in
      elim (Option-cases (find_route key routes)) [
        | inr (h, e) ↦
            match_exact upper routes method path h e
            ∙ sym (match_exact upper routes' method path h (sym found ∙ e))
        | inl e ↦
            let up = smaller mp path routes routes' b b' there l l' in
            let down = smaller mp path routes' routes b' b back l' l in
            match_prefix upper routes method path e
            ∙ same_handler mp path routes routes' b b' map' there (omega (arith, up, down)) l l'
            ∙ sym (match_prefix upper routes' method path (sym found ∙ e))
      ]

  -- The handler that the map has for the method and the very path of a request, if it has one; and
  -- otherwise that of the longest of the method's routes which end in a slash and begin the path, or
  -- none if there is no such route.
  pub match_lem :
      (upper : Bytes → Bytes) (routes : Routes H) (method path : Bytes)
      → ((h : H) × (find_route (route_key upper method path) routes ≡ some h)
          × (match upper routes method path ≡ some h))
        ⊎ ((b : Best H) × (find_route (route_key upper method path) routes ≡ none)
            × IsLongest (upper method ++ b' ' ∷ []) path routes no_best b
            × (match upper routes method path ≡ b.handler))
  match_lem upper routes method path =
      elim (Option-cases (find_route (route_key upper method path) routes)) [
        | inr (h, e) ↦ inl (h, e, match_exact upper routes method path h e)
        | inl e ↦ inr (
          _,
          e,
          best_route-IsLongest (upper method ++ b' ' ∷ []) path routes no_best,
          match_prefix upper routes method path e,
        )
      ]
