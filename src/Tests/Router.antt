-- ===== src/Tests/Router.antt =====
-- Three routes of an extension plugin.
use airgate_sdk.Prelude.{
  none, equal_bytes, after_prefix, ◌≡◌, refl, sym, ap, ◌⊎◌, some, ℕ, [], ◌∷◌, ◌++◌, Option,
}
use mathlib.Core.List.{Memᴰ}
use airgate_sdk.Outcome.{Bytes}
use airgate_sdk.Extension.Router.{
  Routes, Best, no_best, match, handle, find_route, best_route, consider, ends_slash, has_prefix,
  put_route, route_key,
}
use airgate_sdk.Extension.Router.Longest.{IsLongest}
use airgate_sdk.Extension.Router.Order.{IsMap, match-same, match_lem}
use airgate_sdk.Extension.Router.Registered.{Registration, register, register_lem, IsUnique-IsMap}

-- strings.ToUpper on the letters that the tests use
abbrev upper : Bytes → Bytes
upper [] = []
upper (b ∷ bytes) = b ∷ upper bytes

abbrev get_method : Bytes
get_method = b'G' ∷ []

-- "/a/", "/a/b/" and "/a/x"
abbrev outer : Bytes
outer = b'/' ∷ b'a' ∷ b'/' ∷ []

abbrev inner : Bytes
inner = b'/' ∷ b'a' ∷ b'/' ∷ b'b' ∷ b'/' ∷ []

abbrev leaf : Bytes
leaf = b'/' ∷ b'a' ∷ b'/' ∷ b'x' ∷ []

abbrev request : Bytes
request = b'/' ∷ b'a' ∷ b'/' ∷ b'b' ∷ b'/' ∷ b'1' ∷ []

abbrev route : Bytes → ℕ → Registration ℕ
route path h = record { prefix = []; method = get_method; path = path; handler = some h }

abbrev key : Bytes → Bytes
key path = route_key upper get_method path

abbrev forwards : Routes ℕ
forwards = (key outer, some 1) ∷ (key inner, some 2) ∷ []

abbrev backwards : Routes ℕ
backwards = (key inner, some 2) ∷ (key outer, some 1) ∷ []

longest_matched : match upper forwards get_method request ≡ some 2
unfolding match find_route best_route consider ends_slash has_prefix equal_bytes after_prefix
longest_matched = refl

exact_matched :
    match upper (register upper (route outer 1 ∷ route leaf 3 ∷ []) []) get_method leaf ≡ some 3
unfolding match find_route best_route consider ends_slash has_prefix equal_bytes after_prefix
    register handle put_route
exact_matched = refl

outer≢inner : {A : Type 0} → key outer ≡ key inner → A
outer≢inner e = absurd (cc e)

forwards-IsMap : IsMap forwards
forwards-IsMap = IsUnique-IsMap forwards (
  λ v m. elim m [ Memᴰ.head e ↦ outer≢inner (ap (λ p. p.0) e) | Memᴰ.tail m' ↦ elim m' [ ] ],
  (λ v m. elim m [ ], _),
)

backwards-IsMap : IsMap backwards
backwards-IsMap = IsUnique-IsMap backwards (
  λ v m. elim m [ Memᴰ.head e ↦ outer≢inner (sym (ap (λ p. p.0) e)) | Memᴰ.tail m' ↦ elim m' [ ] ],
  (λ v m. elim m [ ], _),
)

swapped_routes : (a b x : Bytes × Option ℕ) → Memᴰ x (a ∷ b ∷ []) → Memᴰ x (b ∷ a ∷ [])
swapped_routes a b x (Memᴰ.head e) = Memᴰ.tail (Memᴰ.head e)
swapped_routes a b x (Memᴰ.tail (Memᴰ.head e)) = Memᴰ.head e
swapped_routes a b x (Memᴰ.tail (Memᴰ.tail m)) = elim m [ ]

match-same_example :
    match upper forwards get_method request ≡ match upper backwards get_method request
match-same_example =
    match-same upper forwards backwards get_method request forwards-IsMap backwards-IsMap
      (swapped_routes (key outer, some 1) (key inner, some 2))
      (swapped_routes (key inner, some 2) (key outer, some 1))

match_lem_example :
    ((h : ℕ) × (find_route (route_key upper get_method request) forwards ≡ some h)
      × (match upper forwards get_method request ≡ some h))
    ⊎ ((b : Best ℕ) × (find_route (route_key upper get_method request) forwards ≡ none)
        × IsLongest (upper get_method ++ b' ' ∷ []) request forwards no_best b
        × (match upper forwards get_method request ≡ b.handler))
match_lem_example = match_lem upper forwards get_method request

register_lem_example :
    IsMap (register upper (route outer 1 ∷ []) [])
    × (match upper
          (handle upper outer get_method inner (some 5) (register upper (route outer 1 ∷ []) []))
          get_method
          (outer ++ inner)
        ≡ some 5)
register_lem_example = register_lem upper (route outer 1 ∷ []) outer get_method inner 5
