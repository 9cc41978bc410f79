-- ===== src/Runtime/Attempts.antt =====
-- How the loop of Update ends.
use airgate_sdk.Prelude.{
  Result, ok, err, ℕ, zero, suc, ◌+◌, ◌-◌, ◌/◌, ◌<◌, ◌≡◌, refl, sym, ap, ◌∙◌, subst, ◌⊎◌, inl, inr,
  Option, none, some, String, arith, Option-cases,
}
use airgate_sdk.Runtime.{
  Host, Attempt, swapped, refused, stopped, max_attempts, attempt, update_loop, update,
}

pub Attempt-cases :
    {W E : Type 0} (r : W × Attempt E)
    → ((w : W) × (v : String) × (r ≡ (w, swapped v)))
      ⊎ ((w : W) × (r ≡ (w, refused)))
      ⊎ ((w : W) × (e : E) × (r ≡ (w, stopped e)))
Attempt-cases (w, swapped v) = inl (w, v, refl)
Attempt-cases (w, refused) = inr (inl (w, refl))
Attempt-cases (w, stopped e) = inr (inr (w, e, refl))

module _ {W E : Type 0} (h : Host W E) (key : String) (f : String → Result E String) where
  -- So many attempts were refused, each with its wait, between two worlds.
  pub data Refusals (start : W) : ℕ → W → Type 0 where
    first : Refusals start 0 start
    again :
        {n : ℕ} {w1 w2 w3 : W}
        → Refusals start n w1
        → attempt h w1 key f ≡ (w2, refused)
        → h.wait (1 + n / 2) w2 ≡ (w3, none)
        → Refusals start (suc n) w3

  -- The ends of Update.
  pub data UpdateEnd (start : W) : W × Result E String → Type 0 where
    stored :
        {n : ℕ} {w1 w2 : W} {v : String}
        → n < max_attempts
        → Refusals start n w1
        → attempt h w1 key f ≡ (w2, swapped v)
        → UpdateEnd start (w2, ok v)
    given_up :
        {n : ℕ} {w1 w2 : W} {e : E}
        → n < max_attempts
        → Refusals start n w1
        → attempt h w1 key f ≡ (w2, stopped e)
        → UpdateEnd start (w2, err e)
    cancelled :
        {n : ℕ} {w1 w2 w3 : W} {e : E}
        → n < max_attempts
        → Refusals start n w1
        → attempt h w1 key f ≡ (w2, refused)
        → h.wait (1 + n / 2) w2 ≡ (w3, some e)
        → UpdateEnd start (w3, err e)
    contention :
        {w1 : W}
        → Refusals start max_attempts w1
        → UpdateEnd start (w1, err (h.text_error "runtime state update contention"))

  loop_swapped :
      (left : ℕ) (w w1 : W) (v : String)
      → attempt h w key f ≡ (w1, swapped v)
      → update_loop h (suc left) w key f ≡ (w1, ok v)
  unfolding update_loop
  loop_swapped left w w1 v e = rw (ap (λ r. r.1) e, ap (λ r. r.0) e, update_loop) refl

  loop_stopped :
      (left : ℕ) (w w1 : W) (x : E)
      → attempt h w key f ≡ (w1, stopped x)
      → update_loop h (suc left) w key f ≡ (w1, err x)
  unfolding update_loop
  loop_stopped left w w1 x e = rw (ap (λ r. r.1) e, ap (λ r. r.0) e, update_loop) refl

  loop_cancelled :
      (left : ℕ) (w w1 w2 : W) (x : E)
      → attempt h w key f ≡ (w1, refused)
      → h.wait (1 + (max_attempts - suc left) / 2) w1 ≡ (w2, some x)
      → update_loop h (suc left) w key f ≡ (w2, err x)
  unfolding update_loop
  loop_cancelled left w w1 w2 x e c =
      rw
        (
          ap (λ r. r.1) e,
          ap (λ r. r.0) e,
          ap (λ r. r.1) c,
          ap (λ r. r.0) e,
          ap (λ r. r.0) c,
          update_loop,
        )
        refl

  loop_again :
      (left : ℕ) (w w1 w2 : W)
      → attempt h w key f ≡ (w1, refused)
      → h.wait (1 + (max_attempts - suc left) / 2) w1 ≡ (w2, none)
      → update_loop h (suc left) w key f ≡ update_loop h left w2 key f
  unfolding update_loop
  loop_again left w w1 w2 e c =
      rw
        (
          ap (λ r. r.1) e,
          ap (λ r. r.0) e,
          ap (λ r. r.1) c,
          ap (λ r. r.0) e,
          ap (λ r. r.0) c,
          update_loop,
        )
        refl

  waited :
      (n left : ℕ) (w : W) (r : W × Option E)
      → n + suc left ≡ max_attempts
      → h.wait (1 + n / 2) w ≡ r
      → h.wait (1 + (max_attempts - suc left) / 2) w ≡ r
  waited n left w r made e =
      let same : max_attempts - suc left ≡ n = omega arith in
      ap (λ k. h.wait (1 + k / 2) w) same ∙ e

  update_loop-UpdateEnd :
      (left n : ℕ) (start w : W)
      → n + left ≡ max_attempts
      → Refusals start n w
      → UpdateEnd start (update_loop h left w key f)
  unfolding update_loop
  update_loop-UpdateEnd zero n start w made r =
      let all : n ≡ max_attempts = omega arith in contention (subst (λ k. Refusals start k w) all r)
  update_loop-UpdateEnd (suc left) n start w made r = elim (Attempt-cases (attempt h w key f)) [
    | inl (w1, v, e) ↦
        subst (UpdateEnd start) (sym (loop_swapped left w w1 v e)) (stored (omega arith) r e)
    | inr (inr (w1, x, e)) ↦
        subst (UpdateEnd start) (sym (loop_stopped left w w1 x e)) (given_up (omega arith) r e)
    | inr (inl (w1, e)) ↦ elim (Option-cases (h.wait (1 + n / 2) w1).1) [
      | inl none_ended ↦
          let c : h.wait (1 + n / 2) w1 ≡ ((h.wait (1 + n / 2) w1).0, none) =
            ap (λ o. ((h.wait (1 + n / 2) w1).0, o)) none_ended in
          subst (UpdateEnd start) (sym (loop_again left w w1 _ e (waited n left w1 _ made c)))
            (update_loop-UpdateEnd left (suc n) start _ (omega arith) (again r e c))
      | inr (x, ended) ↦
          let c : h.wait (1 + n / 2) w1 ≡ ((h.wait (1 + n / 2) w1).0, some x) =
            ap (λ o. ((h.wait (1 + n / 2) w1).0, o)) ended in
          subst (UpdateEnd start) (sym (loop_cancelled left w w1 _ x e (waited n left w1 _ made c)))
            (cancelled (omega arith) r e c)
    ]
  ]

  -- Update always ends, in one of four ways: after fewer than 16 refused attempts, one that swaps, one
  -- that an error stops, or a refused one whose wait the context ends; or after 16 refused attempts.
  pub update-UpdateEnd : (w : W) → UpdateEnd w (update h w key f)
  unfolding update
  update-UpdateEnd w = update_loop-UpdateEnd max_attempts 0 w w refl first
