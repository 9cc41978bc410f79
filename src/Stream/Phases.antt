-- ===== src/Stream/Phases.antt =====
-- Each call on a streamWriter keeps its three phases apart, and no byte that a call took is lost,
-- repeated or moved.
use airgate_sdk.Prelude.{
  ℕ, ◌≤◌, ◌≡◌, refl, ap, ◌⊎◌, inl, inr, true, false, Option, none, some, [], ◌∷◌, ◌++◌, length,
  arith, Option-cases,
}
use airgate_sdk.Outcome.{Bytes}
use airgate_sdk.Stream.Sending.{Transport, stream_chunk_size, check_response_message, send}
use airgate_sdk.Stream.Pieces.{payloads, IsFramed, IsStarted}
use airgate_sdk.Stream.{StreamWriter, fail, settle, meta_chunk, send_meta, flush_meta}

module _ {F E : Type 0} where
  -- What the peer has or will get: the stream, then the tail that waits for the final chunk.
  abbrev pub content : StreamWriter F E → Bytes
  content w = payloads w.stream ++ w.completion_tail

  -- Nothing was sent.
  pub record IsFresh (w : StreamWriter F E) : Type 0 where
    pub alive : w.err ≡ none
    pub unsent : w.sent ≡ false
    pub empty : w.stream ≡ []
    pub no_tail : w.completion_tail ≡ []

  -- The status and the headers are out; a tail is kept only while completing, of one chunk at most.
  pub record IsReady (w : StreamWriter F E) : Type 0 where
    pub alive : w.err ≡ none
    pub begun : w.sent ≡ true
    pub started : IsStarted w.stream
    pub tail_bounded : length w.completion_tail ≤ stream_chunk_size
    pub ordinary : w.completing ≡ false → w.completion_tail ≡ []

  -- Sending failed with the error `e`; the tail is dropped.
  pub record IsFailed (w : StreamWriter F E) (e : E) : Type 0 where
    pub failed : w.err ≡ some e
    pub dropped : w.completion_tail ≡ []
    pub framed : IsFramed w.stream

  abbrev pub Flushed : StreamWriter F E → StreamWriter F E × Option E → Type 0
  Flushed w r =
      (IsReady r.0 × (r.1 ≡ none) × (content r.0 ≡ content w) × (r.0.completing ≡ w.completing))
      ⊎ ((e : E) × IsFailed r.0 e × (r.1 ≡ some e))

  -- A write took all its bytes, or it failed, with the error that the writer keeps.
  abbrev pub Written : StreamWriter F E → Bytes → StreamWriter F E × ℕ × Option E → Type 0
  Written w bytes r =
      (IsReady r.0
        × (r.2 ≡ none)
        × (r.1 ≡ length bytes)
        × (content r.0 ≡ content w ++ bytes)
        × (r.0.completing ≡ w.completing))
      ⊎ ((e : E) × IsFailed r.0 e × (r.2 ≡ some e) × (r.1 ≤ length bytes))

  pub fail-IsFailed :
      (w : StreamWriter F E) (e : E) → w.err ≡ none → IsFramed w.stream → IsFailed (fail e w).0 e
  unfolding fail
  fail-IsFailed w e alive framed = record { failed = ground arith; dropped = refl; framed = framed }

  pub fail-kept : (w : StreamWriter F E) (e : E) → w.err ≡ none → (fail e w).1 ≡ e
  unfolding fail
  fail-kept w e alive = ground arith

module _ {F E : Type 0} (t : Transport F E) where
  send_meta-Flushed : (w : StreamWriter F E) → IsFresh w → Flushed w (send_meta t w)
  unfolding send_meta settle send meta_chunk
  send_meta-Flushed w h = elim (Option-cases (check_response_message t (meta_chunk w))) [
    | inr (e, big) ↦
        rw (big, send_meta)
          (inr (
            e,
            fail-IsFailed (record w { sent = true }) e h.alive (rw h.empty tt),
            ap some (fail-kept (record w { sent = true }) e h.alive),
          ))
    | inl small ↦ elim (Option-cases (t.answer w.stream (meta_chunk w))) [
      | inr (e, lost) ↦
          let w' = record w { sent = true; stream = w.stream ++ meta_chunk w ∷ [] } in
          rw (small, lost, send_meta)
            (inr (
              e,
              fail-IsFailed w' e h.alive (rw h.empty ((refl, refl, refl), tt)),
              ap some (fail-kept w' e h.alive),
            ))
      | inl sent ↦
          rw (small, sent, send_meta)
            (inl (
              record {
                alive = h.alive;
                begun = refl;
                started = rw h.empty ((refl, refl, refl), tt);
                tail_bounded = rw h.no_tail (omega arith);
                ordinary = λ _. h.no_tail;
              },
              refl,
              rw (h.empty) refl,
              refl,
            ))
    ]
  ]

  flush_meta_fresh :
      (w : StreamWriter F E) → w.err ≡ none → w.sent ≡ false → flush_meta t w ≡ send_meta t w
  unfolding flush_meta
  flush_meta_fresh w alive unsent = ground arith

  flush_meta_ready :
      (w : StreamWriter F E) → w.err ≡ none → w.sent ≡ true → flush_meta t w ≡ (w, none)
  unfolding flush_meta
  flush_meta_ready w alive begun = ground arith

  -- flushMeta sends the status and the headers before the first byte, and once.
  pub flush_meta-Flushed :
      (w : StreamWriter F E) → IsFresh w ⊎ IsReady w → Flushed w (flush_meta t w)
  flush_meta-Flushed w (inl h) = rw (flush_meta_fresh w h.alive h.unsent) (send_meta-Flushed w h)
  flush_meta-Flushed w (inr h) = rw (flush_meta_ready w h.alive h.begun) (inl (h, refl, refl, refl))
