-- ===== src/Gateway/Unary/Filled.antt =====
-- What fill_upstream makes of the upstream of a verdict: Forward of runtimego/grpc/gateway_server.go.
use airgate_sdk.Prelude.{
  ◌≡◌, ◌≢◌, ◌<ℤ◌, ◌≤ℤ◌, pos, eqb_ℤ, eqb_ℤ_iff, ltb_ℤ, ltb_ℤ_iff, ltb_ℤ_false, refl, sym, ap, ◌∙◌,
  ◌⊎◌, inl, inr, true, false, ◌&&◌, not, List, [], ◌∷◌, arith, Bool-cases, if◌then◌else◌,
}
use airgate_sdk.Outcome.{Bytes, UpstreamResponse}
use airgate_sdk.Gateway.Unary.{BufferWriter, is_empty, fill_upstream}

-- The body that a call answers with: the verdict's, or what was written if that is empty.
abbrev pub body_or : Bytes → Bytes → Bytes
body_or [] bytes = bytes
body_or (b ∷ body) bytes = b ∷ body

body_lem : (w v : Bytes) → (if not (is_empty w) && is_empty v then w else v) ≡ body_or v w
unfolding is_empty
body_lem [] [] = refl
body_lem [] (x ∷ v) = refl
body_lem (x ∷ w) [] = refl
body_lem (x ∷ w) (y ∷ v) = refl

pub fill_upstream_body :
    {E : Type 0} (w : BufferWriter E) (o : UpstreamResponse)
    → (fill_upstream w o).body ≡ body_or o.body w.body
unfolding fill_upstream
fill_upstream_body w o = elim (Bool-cases (not (is_empty w.body) && is_empty o.body)) [
  | inl fills ↦
      rw (fills, fill_upstream)
        (ap (λ b. if b then w.body else o.body) (sym fills) ∙ body_lem w.body o.body)
  | inr keeps ↦
      rw (keeps, fill_upstream)
        (ap (λ b. if b then w.body else o.body) (sym keeps) ∙ body_lem w.body o.body)
]

-- What a call answers as its upstream, from that of the verdict and what the writer holds: that of the
-- verdict, unless it has no body and something was written; then what was written is the body, and the
-- status and the headers that the verdict leaves open are those of the writer.
pub record IsTaken {E : Type 0} (w : BufferWriter E) (v u : UpstreamResponse) : Type 0 where
  pub body_taken : u.body ≡ w.body
  pub status_taken :
      ((v.status_code ≡ pos 0) × (pos 0 <ℤ w.code) × (u.status_code ≡ w.code))
      ⊎ (((v.status_code ≢ pos 0) ⊎ (w.code ≤ℤ pos 0)) × (u.status_code ≡ v.status_code))
  pub headers_taken :
      ((v.headers ≡ []) × (u.headers ≡ w.headers)) ⊎ ((v.headers ≢ []) × (u.headers ≡ v.headers))

abbrev pub IsFilled : {E : Type 0} → BufferWriter E → (v u : UpstreamResponse) → Type 0
IsFilled w v u =
    (((w.body ≡ []) ⊎ (v.body ≢ [])) × (u ≡ v)) ⊎ ((w.body ≢ []) × (v.body ≡ []) × IsTaken w v u)

is_empty_cases :
    {A : Type 0} (xs : List A)
    → ((xs ≡ []) × (is_empty xs ≡ true)) ⊎ ((xs ≢ []) × (is_empty xs ≡ false))
unfolding is_empty
is_empty_cases [] = inl (refl, refl)
is_empty_cases (x ∷ xs) = inr (λ e. cc e, refl)

status_filled :
    {E : Type 0} (w : BufferWriter E) (v : UpstreamResponse)
    → (w.body ≢ [])
    → v.body ≡ []
    → ((v.status_code ≡ pos 0) × (pos 0 <ℤ w.code) × ((fill_upstream w v).status_code ≡ w.code))
      ⊎ (((v.status_code ≢ pos 0) ⊎ (w.code ≤ℤ pos 0))
          × ((fill_upstream w v).status_code ≡ v.status_code))
unfolding fill_upstream
status_filled w v some_bytes no_body =
    let full : is_empty w.body ≡ false = elim (is_empty_cases w.body) [
      | inl (e, _) ↦ absurd (some_bytes e)
      | inr (_, e) ↦ e
    ] in
    let bare : is_empty v.body ≡ true = elim (is_empty_cases v.body) [
      | inl (_, e) ↦ e
      | inr (e, _) ↦ absurd (e no_body)
    ] in
    elim (Bool-cases (eqb_ℤ v.status_code (pos 0))) [
      | inr stated ↦
          rw (full, bare, stated, fill_upstream)
            (inr (inl (λ e. cc (sym stated ∙ (eqb_ℤ_iff v.status_code (pos 0)).1 e)), refl))
      | inl zero_status ↦ elim (Bool-cases (ltb_ℤ (pos 0) w.code)) [
        | inl given ↦
            rw (full, bare, zero_status, given, fill_upstream)
              (inl (
                (eqb_ℤ_iff v.status_code (pos 0)).0 zero_status,
                (ltb_ℤ_iff (pos 0) w.code).0 given,
                refl,
              ))
        | inr none_given ↦
            rw (full, bare, zero_status, none_given, fill_upstream)
              (inr (inr (ltb_ℤ_false (pos 0) w.code none_given), refl))
      ]
    ]

fill_upstream_keeps :
    {E : Type 0} (w : BufferWriter E) (v : UpstreamResponse)
    → (w.body ≡ []) ⊎ (v.body ≢ [])
    → fill_upstream w v ≡ v
unfolding fill_upstream
fill_upstream_keeps w v (inl e) =
    let none_written : is_empty w.body ≡ true = elim (is_empty_cases w.body) [
      | inl (_, x) ↦ x
      | inr (some_bytes, _) ↦ absurd (some_bytes e)
    ] in
    rw (none_written, fill_upstream) refl
fill_upstream_keeps w v (inr e) =
    let has_body : is_empty v.body ≡ false = elim (is_empty_cases v.body) [
      | inl (x, _) ↦ absurd (e x)
      | inr (_, x) ↦ x
    ] in
    ground (arith, has_body)

headers_filled :
    {E : Type 0} (w : BufferWriter E) (v : UpstreamResponse)
    → (not (is_empty w.body) && is_empty v.body) ≡ true
    → ((v.headers ≡ []) × ((fill_upstream w v).headers ≡ w.headers))
      ⊎ ((v.headers ≢ []) × ((fill_upstream w v).headers ≡ v.headers))
unfolding fill_upstream
headers_filled w v fills = elim (is_empty_cases v.headers) [
  | inl (e, bare) ↦ rw (fills, bare, fill_upstream) (inl (e, refl))
  | inr (e, stated) ↦ rw (fills, stated, fill_upstream) (inr (e, refl))
]

pub fill_upstream-IsFilled :
    {E : Type 0} (w : BufferWriter E) (v : UpstreamResponse) → IsFilled w v (fill_upstream w v)
fill_upstream-IsFilled w v = elim (is_empty_cases w.body) [
  | inl (e, _) ↦ inl (inl e, fill_upstream_keeps w v (inl e))
  | inr (some_bytes, full) ↦ elim (is_empty_cases v.body) [
    | inr (e, _) ↦ inl (inr e, fill_upstream_keeps w v (inr e))
    | inl (no_body, bare) ↦ inr (
      some_bytes,
      no_body,
      record {
        body_taken = fill_upstream_body w v ∙ ap (λ b. body_or b w.body) no_body;
        status_taken = status_filled w v some_bytes no_body;
        headers_taken = headers_filled w v (rw (full, bare) refl);
      },
    )
  ]
]
