-- ===== src/Stream/Completing.antt =====
-- streamWriter.Write once the terminal event has begun: the tail that waits for the final chunk.
use airgate_sdk.Prelude.{
  ℕ, zero, suc, ◌+◌, ◌-◌, ◌≤◌, min, ◌≡◌, refl, sym, ap, ◌∙◌, ◌⊎◌, inl, inr, true, Option, none,
  some, [], ◌∷◌, ◌++◌, length, take, drop, ltb, arith, append_assoc, append-nil, length-append,
  length-take, length-drop, take-append-drop, Bool-cases, Option-cases,
}
use native.Mathlib.Decide.{dec_le}
use airgate_sdk.Outcome.{Bytes}
use airgate_sdk.Wire.Proto.{ForwardChunk}
use airgate_sdk.Stream.Sending.{
  Transport, Progress, data_chunk, stream_chunk_size, send, send_pieces,
}
use airgate_sdk.Stream.Pieces.{
  payloads, payloads-data, IsStarted, IsStarted-IsFramed, IsStarted-append,
}
use airgate_sdk.Stream.Loops.{Sends, send_pieces-IsStarted, send_pieces-Sends}
use airgate_sdk.Stream.{StreamWriter, settle, send_tail, finish_completing, write_completing}
use airgate_sdk.Stream.Phases.{content, IsReady, Flushed, Written, fail-IsFailed, fail-kept}

nil_middle : (s r p b t : Bytes) → t ≡ [] → s ++ r ≡ p ++ b → s ++ (t ++ r) ≡ (p ++ t) ++ b
nil_middle s r p b t e q = rw (e, append-nil p) q

nil_of_length : (xs : Bytes) → length xs ≡ 0 → xs ≡ []
nil_of_length [] e = refl
nil_of_length (x ∷ xs) e = absurd (omega arith)

module _ {F E : Type 0} (t : Transport F E) where
  -- The end of the terminal loop, where what was not sent joins the tail.
  joined-Written :
      (w : StreamWriter F E) (bytes : Bytes) (count : ℕ) (p : Progress F E)
      → IsReady w
      → w.completing ≡ true
      → w.completion_tail ≡ []
      → length bytes ≤ stream_chunk_size + count
      → IsStarted p.stream
      → Sends t w.stream count bytes p
      → Written w bytes (finish_completing t w bytes p)
  unfolding finish_completing
  joined-Written w bytes count p h completing no_tail room started (inr (e, failed, rest)) =
      let w' = record w { stream = p.stream } in
      rw (failed, finish_completing)
        (inr (
          e,
          fail-IsFailed w' e h.alive (IsStarted-IsFramed p.stream started),
          ap some (fail-kept w' e h.alive),
          omega arith,
        ))
  joined-Written w bytes count p h completing no_tail room started (inl (done, all, left)) =
      rw (done, finish_completing)
        (inl (
          record {
            alive = h.alive;
            begun = h.begun;
            started = started;
            tail_bounded = omega (arith, length-append w.completion_tail p.rest, ap length no_tail);
            ordinary = λ e. cc;
          },
          refl,
          refl,
          nil_middle _ p.rest _ bytes _ no_tail all,
          refl,
        ))

  finish_completing-Written :
      (w : StreamWriter F E) (bytes : Bytes) (count : ℕ)
      → IsReady w
      → w.completing ≡ true
      → (count ≡ 0) ⊎ (w.completion_tail ≡ [])
      → count ≤ length bytes
      → length w.completion_tail + length bytes ≤ stream_chunk_size + count
      → Written w bytes
          (finish_completing t w bytes (send_pieces t stream_chunk_size count w.stream count bytes))
  unfolding finish_completing send_pieces
  finish_completing-Written w bytes zero h completing split fits room = inl (
    record {
      alive = h.alive;
      begun = h.begun;
      started = h.started;
      tail_bounded = omega (arith, length-append w.completion_tail bytes);
      ordinary = λ e. cc;
    },
    refl,
    refl,
    sym (append_assoc (payloads w.stream) w.completion_tail bytes),
    refl,
  )
  finish_completing-Written w bytes (suc count) h completing (inl none_left) fits room =
      absurd (omega arith)
  finish_completing-Written w bytes (suc count) h completing (inr no_tail) fits room =
      joined-Written w bytes (suc count) _ h completing no_tail (omega arith)
        (send_pieces-IsStarted t (suc count) w.stream (suc count) bytes h.started)
        (send_pieces-Sends t (suc count) w.stream (suc count) bytes (omega arith) fits)

  -- Sending the front of the tail.
  send_tail-Flushed :
      (w : StreamWriter F E) (n : ℕ)
      → IsReady w
      → w.completing ≡ true
      → n ≤ length w.completion_tail
      → Flushed w (send_tail t w n)
        × (((send_tail t w n).1 ≡ none)
            → length (send_tail t w n).0.completion_tail + n ≡ length w.completion_tail)
  unfolding send_tail settle send
  send_tail-Flushed w n h completing fits = elim (Bool-cases (ltb 0 n)) [
    | inr nothing ↦ rw (nothing, send_tail) (inl (h, refl, refl, refl), λ _. ground arith)
    | inl some_go ↦
        let chunk : ForwardChunk F = data_chunk (take n w.completion_tail) in
        let more = IsStarted-append w.stream chunk h.started (
          refl,
          refl,
          refl,
          refl,
          omega (arith, length-take n w.completion_tail, h.tail_bounded),
        ) in
        elim (Option-cases (t.answer w.stream chunk)) [
          | inr (e, failed) ↦
              let w' = record w { stream = w.stream ++ chunk ∷ [] } in
              rw (some_go, failed, send_tail)
                (
                  inr (
                    e,
                    fail-IsFailed w' e h.alive (IsStarted-IsFramed w'.stream more),
                    ap some (fail-kept w' e h.alive),
                  ),
                  λ q. cc,
                )
          | inl sent ↦
              rw (some_go, sent, send_tail)
                (
                  inl (
                    record {
                      alive = h.alive;
                      begun = h.begun;
                      started = more;
                      tail_bounded = omega (arith, length-drop n w.completion_tail, h.tail_bounded);
                      ordinary = λ e. cc;
                    },
                    refl,
                    payloads-data w.stream (take n w.completion_tail) (drop n w.completion_tail)
                        ∙ ap (◌++◌ (payloads w.stream)) (take-append-drop n w.completion_tail),
                    refl,
                  ),
                  λ _. omega (arith, length-drop n w.completion_tail),
                )
        ]
  ]

  -- A step that keeps the content may stand before a write.
  pub Written-after :
      (v w : StreamWriter F E) (bytes : Bytes) (r : StreamWriter F E × ℕ × Option E)
      → content v ≡ content w
      → v.completing ≡ w.completing
      → Written v bytes r
      → Written w bytes r
  Written-after v w bytes r same kept (inr failed) = inr failed
  Written-after v w bytes r same kept (inl (ready, fine, n, all, c)) =
      inl (ready, fine, n, all ∙ ap (λ b. b ++ bytes) same, c ∙ kept)

  pub write_completing-Written :
      (w : StreamWriter F E) (bytes : Bytes)
      → IsReady w
      → w.completing ≡ true
      → Written w bytes (write_completing t w bytes)
  unfolding write_completing
  write_completing-Written w bytes h completing =
      let sb = length w.completion_tail + length bytes - stream_chunk_size in
      let n = min sb (length w.completion_tail) in
      let v = (send_tail t w n).0 in
      let (flushed, cut) = send_tail-Flushed w n h completing (omega arith) in
      elim flushed [
        | inr (e, failed, q) ↦ rw (q, write_completing) (inr (e, failed, refl, omega arith))
        | inl (ready, q, same, kept) ↦
            rw (q, write_completing)
              (Written-after v w bytes _ same kept (
                finish_completing-Written v bytes (sb - n) ready (kept ∙ completing)
                  (tail_or_all v sb (length w.completion_tail) (cut q)) (omega arith)
                  (omega (arith, cut q))))
      ]
    where
      tail_or_all :
          (v : StreamWriter F E) (sb whole : ℕ)
          → length v.completion_tail + min sb whole ≡ whole
          → (sb - min sb whole ≡ 0) ⊎ (v.completion_tail ≡ [])
      tail_or_all v sb whole e = elim (dec_le sb whole) [
        | yes all_tail ↦ inl (omega arith)
        | no beyond ↦ inr (nil_of_length v.completion_tail (omega arith))
      ]
