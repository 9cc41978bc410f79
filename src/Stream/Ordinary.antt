-- ===== src/Stream/Ordinary.antt =====
-- The loop of streamWriter.Write before the terminal event.
use airgate_sdk.Prelude.{
  ◌≡◌, refl, sym, ap, ◌∙◌, inl, inr, false, some, [], ◌∷◌, ◌++◌, length, arith, append-nil,
  Option-cases, ◌==◌,
}
use airgate_sdk.Outcome.{Bytes}
use airgate_sdk.Stream.Sending.{Transport, Progress, data_chunk, send}
use airgate_sdk.Stream.Pieces.{payloads-data, IsStarted, IsStarted-IsFramed, IsStarted-append}
use airgate_sdk.Stream.Loops.{SendsAll, send_offsets-IsStarted, send_offsets-SendsAll}
use airgate_sdk.Stream.{StreamWriter, settle, finish_ordinary, write_ordinary}
use airgate_sdk.Stream.Phases.{content, IsReady, Written, fail-IsFailed, fail-kept}

-- Where the tail is empty it may stand anywhere.
nil_tail : (s p b t : Bytes) → t ≡ [] → s ≡ p ++ b → s ++ t ≡ (p ++ t) ++ b
nil_tail s p b t e q = rw (e, append-nil s, append-nil p) q

module _ {F E : Type 0} (t : Transport F E) where
  -- The end of the ordinary loop.
  finish_ordinary-Written :
      (w : StreamWriter F E) (bytes : Bytes) (p : Progress F E)
      → IsReady w
      → w.completion_tail ≡ []
      → IsStarted p.stream
      → SendsAll t w.stream 0 bytes p
      → Written w bytes (finish_ordinary t w bytes p)
  unfolding finish_ordinary
  finish_ordinary-Written w bytes p h no_tail started (inr (e, failed, rest)) =
      let w' = record w { stream = p.stream } in
      rw (failed, finish_ordinary)
        (inr (
          e,
          fail-IsFailed w' e h.alive (IsStarted-IsFramed p.stream started),
          ap some (fail-kept w' e h.alive),
          omega arith,
        ))
  finish_ordinary-Written w bytes p h no_tail started (inl (done, all)) =
      rw (done, finish_ordinary)
        (inl (
          record {
            alive = h.alive;
            begun = h.begun;
            started = started;
            tail_bounded = h.tail_bounded;
            ordinary = h.ordinary;
          },
          refl,
          refl,
          nil_tail _ _ bytes _ no_tail all,
          refl,
        ))

  pub write_ordinary-Written :
      (w : StreamWriter F E) (bytes : Bytes)
      → IsReady w
      → w.completing ≡ false
      → Written w bytes (write_ordinary t w bytes)
  unfolding write_ordinary settle send
  write_ordinary-Written w [] h ordinary = elim (Option-cases (t.answer w.stream (data_chunk []))) [
    | inr (e, failed) ↦
        let w' = record w { stream = w.stream ++ data_chunk [] ∷ [] } in
        rw (failed, write_ordinary)
          (inr (
            e,
            fail-IsFailed w' e h.alive (IsStarted-IsFramed w'.stream empty_sent),
            ap some (fail-kept w' e h.alive),
            omega arith,
          ))
    | inl sent ↦
        rw (sent, write_ordinary)
          (inl (
            record {
              alive = h.alive;
              begun = h.begun;
              started = empty_sent;
              tail_bounded = h.tail_bounded;
              ordinary = h.ordinary;
            },
            refl,
            refl,
            payloads-data w.stream [] w.completion_tail ∙ sym (append-nil (content w)),
            refl,
          ))
  ]
    where
      empty_sent : IsStarted (w.stream ++ data_chunk [] ∷ [])
      empty_sent =
          IsStarted-append w.stream (data_chunk []) h.started (refl, refl, refl, refl, omega arith)
  write_ordinary-Written w (b ∷ bytes) h ordinary =
      let some_bytes : (length (b ∷ bytes) == 0) ≡ false = ground arith in
      rw (some_bytes, write_ordinary)
        (finish_ordinary-Written w (b ∷ bytes) _ h (h.ordinary ordinary)
          (send_offsets-IsStarted t (length (b ∷ bytes)) w.stream 0 (b ∷ bytes) h.started)
          (send_offsets-SendsAll t (length (b ∷ bytes)) w.stream 0 (b ∷ bytes) (omega arith)))
