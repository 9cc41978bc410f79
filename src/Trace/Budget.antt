-- ===== src/Trace/Budget.antt =====
-- The size of a diagnostic, and what its bodies are.
use airgate_sdk.Prelude.{
  ℕ, ◌+◌, ◌≤◌, ◌≡◌, ℤ, pos, Option, none, ltb_ℤ, ltb_ℤ_false, refl, subst, ◌⊎◌, inl, inr, some,
  List, [], ◌∷◌, length, leb, leb→le, arith, Bool-cases, ◌≤ℤ◌,
}
use airgate_sdk.Outcome.{Bytes, OutboundRequestDiagnostic, FinalErrorDiagnostic}
use airgate_sdk.Trace.{
  BodyBuffer, max_ℤ, Exchange, Capture, max_body_bytes, sent_body, snapshot_request, snapshot_error,
  snapshot_loop, snapshot,
}

abbrev pub total_bytes : List OutboundRequestDiagnostic → ℕ
total_bytes [] = 0
total_bytes (r ∷ rs) = length r.body + total_bytes rs

-- These bytes are all that was sent: a body that is kept, of a size that is not above its length, or
-- what the buffer of a streamed body holds, if that counted no more.
abbrev pub IsAllSent : Option BodyBuffer → OutboundRequestDiagnostic → Bytes → Type 0
IsAllSent none r body = (body ≡ r.body) × (r.body_original_size ≤ℤ pos (length body))
IsAllSent (some b) r body = (body ≡ b.content) × (b.size ≤ℤ pos (length body))

-- A request of a diagnostic is that of the exchange, with all of the body that was sent, or with none of
-- it.
pub record IsPublished (e : Exchange) (r : OutboundRequestDiagnostic) : Type 0 where
  pub request : r ≡ record e.request { body = r.body; body_original_size = r.body_original_size }
  pub body : (r.body ≡ []) ⊎ IsAllSent e.sent e.request r.body

-- The requests of a diagnostic, one for each exchange.
abbrev pub ArePublished : List Exchange → List OutboundRequestDiagnostic → Type 0
ArePublished [] [] = Unit
ArePublished [] (r ∷ rs) = ⊥
ArePublished (e ∷ es) [] = ⊥
ArePublished (e ∷ es) (r ∷ rs) = IsPublished e r × ArePublished es rs

max_ℤ_bounds : (a b : ℤ) → (a ≤ℤ max_ℤ a b) × (b ≤ℤ max_ℤ a b)
unfolding max_ℤ ltb_ℤ
max_ℤ_bounds a b = (ground arith, ground arith)

abbrev stated_size : Exchange → ℤ
stated_size e = max_ℤ e.request.body_original_size (pos (length e.request.body))

sent_body-IsAllSent :
    (e : Exchange)
    → (sent_body e).1 ≤ℤ pos (length (sent_body e).0)
    → IsAllSent e.sent e.request (sent_body e).0
unfolding sent_body
sent_body-IsAllSent e small = of_sent e.sent small
  where
    of_sent :
        (sent : Option BodyBuffer)
        → (sent_body (record e { sent = sent })).1
          ≤ℤ pos (length (sent_body (record e { sent = sent })).0)
        → IsAllSent sent e.request (sent_body (record e { sent = sent })).0
    of_sent none small = (
      refl,
      omega (arith, small, max_ℤ_bounds e.request.body_original_size (pos (length e.request.body))),
    )
    of_sent (some b) small = (refl, omega (arith, small, max_ℤ_bounds (stated_size e) b.size))

snapshot_request_lem :
    (e : Exchange) (remaining : ℕ)
    → let (r, left) = snapshot_request e remaining in
      (length r.body + left ≡ remaining) × IsPublished e r
unfolding snapshot_request
snapshot_request_lem e remaining =
    let (body, size) = sent_body e in
    elim (Bool-cases (ltb_ℤ (pos (length body)) size)) [
      | inl cut ↦
          rw (cut, snapshot_request) (omega arith, record { request = refl; body = inl refl })
      | inr whole ↦ elim (Bool-cases (leb (length body) remaining)) [
        | inl fits ↦
            rw (whole, fits, snapshot_request)
              (
                omega (arith, leb→le (length body) remaining fits),
                record {
                  request = refl;
                  body = inr (sent_body-IsAllSent e (ltb_ℤ_false (pos (length body)) size whole));
                },
              )
        | inr over ↦
            rw (whole, over, snapshot_request)
              (omega arith, record { request = refl; body = inl refl })
      ]
    ]

snapshot_error_lem :
    (e : Exchange) (remaining : ℕ)
    → let (raw, left) = snapshot_error e remaining in length raw + left ≡ remaining
unfolding snapshot_error
snapshot_error_lem e remaining = ground arith

-- The loop spends exactly what it takes off the budget.
snapshot_loop_lem :
    (es : List Exchange)
    → let (rs, raw, left) = snapshot_loop es in
      (total_bytes rs + length raw + left ≡ max_body_bytes) × ArePublished es rs
unfolding snapshot_loop
snapshot_loop_lem [] = (refl, tt)
snapshot_loop_lem (e ∷ []) =
    let (spent, whole) = snapshot_request_lem e max_body_bytes in
    let spent' = snapshot_error_lem e (snapshot_request e max_body_bytes).1 in
    (omega (arith, spent, spent'), (whole, tt))
snapshot_loop_lem (e ∷ e' ∷ es) =
    let (before, wholes) = snapshot_loop_lem (e' ∷ es) in
    let (spent, whole) = snapshot_request_lem e (snapshot_loop (e' ∷ es)).2 in
    (omega (arith, before, spent), (whole, wholes))

-- A diagnostic has one request for each exchange that is kept, in their order, and each has all of the
-- body that was sent or none of it; the bodies and the error body take at most the budget together.
pub snapshot_lem :
    (c : Capture) (d : FinalErrorDiagnostic)
    → snapshot c ≡ some d
    → (total_bytes d.outbound_requests + length d.upstream_error_body ≤ max_body_bytes)
      × ArePublished c.exchanges d.outbound_requests
unfolding snapshot
snapshot_lem c d q = of_exchanges c.exchanges q
  where
    of_exchanges :
        (es : List Exchange)
        → snapshot (record c { exchanges = es }) ≡ some d
        → (total_bytes d.outbound_requests + length d.upstream_error_body ≤ max_body_bytes)
          × ArePublished es d.outbound_requests
    of_exchanges [] q = absurd (ground arith)
    of_exchanges (e ∷ es) q =
        let (spent, wholes) = snapshot_loop_lem (e ∷ es) in
        let made : FinalErrorDiagnostic = record {
          outbound_requests = (snapshot_loop (e ∷ es)).0;
          upstream_error_body = (snapshot_loop (e ∷ es)).1;
        } in
        let is : made ≡ d = ground arith in
        subst
          (λ x.
            (total_bytes x.outbound_requests + length x.upstream_error_body ≤ max_body_bytes)
            × ArePublished (e ∷ es) x.outbound_requests)
          is (omega (arith, spent), wholes)
