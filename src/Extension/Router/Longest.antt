-- ===== src/Extension/Router/Longest.antt =====
-- Which of the prefix routes the loop of match takes.
use airgate_sdk.Prelude.{
  ◌≤◌, ◌<◌, ◌≡◌, refl, sym, ap, ◌∙◌, ◌⊎◌, inl, inr, true, Option, none, some, [], ◌∷◌, ◌++◌, length,
  ltb, ltb→lt, ltb-false, arith, after_prefix, after_prefix_eq, after_prefix-append, Bool-cases,
  Option-cases, subst,
}
use mathlib.Core.List.{Memᴰ}
use airgate_sdk.Outcome.{Bytes}
use airgate_sdk.Extension.Router.{Routes, ends_slash, has_prefix, Best, consider, best_route}

-- A route whose method and path allow it to serve a path by its prefix.
pub record Serves (method_prefix path : Bytes) (key route : Bytes) : Type 0 where
  pub key_lem : key ≡ method_prefix ++ route
  pub is_prefix_route : ends_slash route ≡ true
  pub fits : has_prefix path route ≡ true

Serves-route :
    {mp path key route : Bytes} → Serves mp path key route → after_prefix mp key ≡ some route
Serves-route {mp} {path} {key} {route} s =
    ap (after_prefix mp) s.key_lem ∙ after_prefix-append mp route

some-injective : {A : Type 0} {a b : A} → some a ≡ some b → a ≡ b
some-injective e = cc e

module _ {H : Type 0} (mp path : Bytes) where
  -- What the loop makes of what it has found before.
  pub record IsLongest (routes : Routes H) (before after : Best H) : Type 0 where
    pub grows : before.size ≤ after.size
    pub longest :
        (key : Bytes) (h : Option H) (route : Bytes)
        → Memᴰ (key, h) routes
        → Serves mp path key route
        → length route ≤ after.size
    pub found :
        (after ≡ before)
        ⊎ ((route : Bytes) × Memᴰ (mp ++ route, after.handler) routes
            × Serves mp path (mp ++ route) route
            × (length route ≡ after.size))

  consider_other :
      (key : Bytes) (h : Option H) (b : Best H)
      → after_prefix mp key ≡ none
      → consider mp path (key, h) b ≡ b
  unfolding consider
  consider_other key h b e = rw (e, consider) refl

  consider_case :
      (key route : Bytes) (h : Option H) (b : Best H)
      → after_prefix mp key ≡ some route
      → ((consider mp path (key, h) b ≡ record { handler = h; size = length route })
          × (ends_slash route ≡ true)
          × (has_prefix path route ≡ true)
          × (b.size < length route))
        ⊎ ((consider mp path (key, h) b ≡ b)
            × (ends_slash route ≡ true → has_prefix path route ≡ true → length route ≤ b.size))
  unfolding consider
  consider_case key route h b e = elim (Bool-cases (ends_slash route)) [
    | inr s ↦ inr (rw (e, s, consider) refl, λ s' p. absurd (cc (sym s ∙ s')))
    | inl s ↦ elim (Bool-cases (has_prefix path route)) [
      | inr p ↦ inr (rw (e, s, p, consider) refl, λ s' p'. absurd (cc (sym p ∙ p')))
      | inl p ↦ elim (Bool-cases (ltb b.size (length route))) [
        | inl l ↦ inl (rw (e, s, p, l, consider) refl, s, p, ltb→lt b.size (length route) l)
        | inr l ↦ inr (rw (e, s, p, l, consider) refl, λ s' p'. ltb-false b.size (length route) l)
      ]
    ]
  ]

  the_only :
      {key key' : Bytes} {h h' : Option H}
      → Memᴰ {A = Bytes × Option H} (key', h') ((key, h) ∷ [])
      → key' ≡ key
  the_only (Memᴰ.head e) = ap (λ x. x.0) e
  the_only (Memᴰ.tail m) = elim m [ ]

  same_route :
      {key key' : Bytes} {h h' : Option H} {route route' : Bytes}
      → after_prefix mp key ≡ some route
      → Memᴰ {A = Bytes × Option H} (key', h') ((key, h) ∷ [])
      → Serves mp path key' route'
      → route ≡ route'
  same_route e m s =
      some-injective (sym e ∙ (ap (after_prefix mp) (sym (the_only m)) ∙ Serves-route s))

  consider-IsLongest :
      (key : Bytes) (h : Option H) (b : Best H)
      → IsLongest ((key, h) ∷ []) b (consider mp path (key, h) b)
  consider-IsLongest key h b = elim (Option-cases (after_prefix mp key)) [
    | inl other ↦ subst (IsLongest ((key, h) ∷ []) b) (sym (consider_other key h b other)) (record {
      grows = omega arith;
      longest = λ k h' route m s.
          absurd (cc (sym other ∙ (ap (after_prefix mp) (sym (the_only m)) ∙ Serves-route s)));
      found = inl refl;
    })
    | inr (route, e) ↦ elim (consider_case key route h b e) [
      | inr (same, short) ↦ subst (IsLongest ((key, h) ∷ []) b) (sym same) (record {
        grows = omega arith;
        longest = λ k h' r m s.
            subst (λ r. length r ≤ b.size) (same_route e m s)
              (short (subst (λ r. ends_slash r ≡ true) (sym (same_route e m s)) s.is_prefix_route)
                (subst (λ r. has_prefix path r ≡ true) (sym (same_route e m s)) s.fits));
        found = inl refl;
      })
      | inl (new, slash, fits, longer) ↦ subst (IsLongest ((key, h) ∷ []) b) (sym new) (record {
        grows = omega arith;
        longest =
            λ k h' r m s. subst (λ q. length q ≤ length route) (same_route e m s) (omega arith);
        found = inr (
          route,
          Memᴰ.head (ap (λ k. (k, h)) (sym (after_prefix_eq mp key route e))),
          record { key_lem = refl; is_prefix_route = slash; fits = fits },
          refl,
        );
      })
    ]
  ]

  -- Two loops, one after the other.
  IsLongest-cons :
      {r : Bytes × Option H} {routes : Routes H} {b c d : Best H}
      → IsLongest (r ∷ []) b c
      → IsLongest routes c d
      → IsLongest (r ∷ routes) b d
  IsLongest-cons {r} {routes} {b} {c} {d} one more = record {
    grows = omega (arith, one.grows, more.grows);
    longest = λ key h route m s. elim m [
      | Memᴰ.head e ↦ omega (arith, one.longest key h route (Memᴰ.head e) s, more.grows)
      | Memᴰ.tail m' ↦ more.longest key h route m' s
    ];
    found = elim more.found [
      | inr (route, m, s, e) ↦ inr (route, Memᴰ.tail m, s, e)
      | inl same ↦ elim one.found [
        | inl same' ↦ inl (same ∙ same')
        | inr (route, m, s, e) ↦ inr (
          route,
          subst (λ x. Memᴰ (mp ++ route, x.handler) (r ∷ routes)) (sym same) (the_first m),
          s,
          e ∙ ap (λ x. x.size) (sym same),
        )
      ]
    ];
  }
    where
      the_first :
          {x r : Bytes × Option H} {routes : Routes H} → Memᴰ x (r ∷ []) → Memᴰ x (r ∷ routes)
      the_first (Memᴰ.head e) = Memᴰ.head e
      the_first (Memᴰ.tail m) = elim m [ ]

  -- The loop of match: it ends with the longest of the routes that serve the path.
  pub best_route-IsLongest :
      (routes : Routes H) (b : Best H) → IsLongest routes b (best_route mp path routes b)
  unfolding best_route
  best_route-IsLongest [] b = record {
    grows = omega arith;
    longest = λ key h route m s. elim m [ ];
    found = inl refl;
  }
  best_route-IsLongest ((key, h) ∷ routes) b =
      IsLongest-cons (consider-IsLongest key h b)
        (best_route-IsLongest routes (consider mp path (key, h) b))
