-- ===== src/Stream/Loops.antt =====
-- What the two loops of streamWriter.Write put on the stream.
use airgate_sdk.Prelude.{
  ℕ, zero, suc, ◌+◌, ◌-◌, ◌≤◌, min, ◌≡◌, refl, sym, ap, ◌∙◌, ◌⊎◌, inl, inr, none, some, List, [],
  ◌∷◌, ◌++◌, length, take, drop, ltb, ltb→lt, arith, append-nil, length-take, length-drop,
  take-append-drop, drop_all, drop-drop, take-min-append-drop, Bool-cases, Option-cases,
  if◌then◌else◌,
}
use airgate_sdk.Outcome.{Bytes}
use airgate_sdk.Wire.Proto.{ForwardChunk}
use airgate_sdk.Stream.Sending.{
  Transport, Progress, data_chunk, stream_chunk_size, send_pieces, send_offsets,
}
use airgate_sdk.Stream.Pieces.{payloads, IsData, IsStarted, IsStarted-append, payloads-data}

piece-IsData :
    {F : Type 0} (n : ℕ) (bytes : Bytes)
    → n ≤ stream_chunk_size
    → IsData {F = F} (data_chunk (take n bytes))
piece-IsData n bytes h = (refl, refl, refl, refl, omega (arith, length-take n bytes))

-- `end` of the loop over offsets
abbrev stop_at : ℕ → Bytes → ℕ
stop_at offset bytes =
    if ltb (length bytes) (offset + stream_chunk_size)
    then length bytes
    else offset + stream_chunk_size

stop_at-min :
    (offset : ℕ) (bytes : Bytes)
    → stop_at offset bytes - offset ≡ min stream_chunk_size (length bytes - offset)
stop_at-min offset bytes = ground arith

-- One chunk, and what the next offset leaves.
offset_step :
    {F : Type 0} (stream : List (ForwardChunk F)) (offset : ℕ) (bytes : Bytes)
    → payloads
          (stream ++ data_chunk (take (stop_at offset bytes - offset) (drop offset bytes)) ∷ [])
        ++ drop (offset + stream_chunk_size) bytes
      ≡ payloads stream ++ drop offset bytes
offset_step stream offset bytes =
    let n = stop_at offset bytes - offset in
    payloads-data stream (take n (drop offset bytes)) (drop (offset + stream_chunk_size) bytes)
    ∙ ap (◌++◌ (payloads stream)) (
        rw (drop-drop offset stream_chunk_size (offset + stream_chunk_size) bytes refl) (
          take-min-append-drop n stream_chunk_size (drop offset bytes)
            (omega (arith, stop_at-min offset bytes, length-drop offset bytes))))

module _ {F E : Type 0} (t : Transport F E) where
  -- Every chunk is data behind the first one, whether the loop ends or fails.
  pub send_pieces-IsStarted :
      (fuel : ℕ) (stream : List (ForwardChunk F)) (send_bytes : ℕ) (bytes : Bytes)
      → IsStarted stream
      → IsStarted (send_pieces t stream_chunk_size fuel stream send_bytes bytes).stream
  unfolding send_pieces
  send_pieces-IsStarted zero stream send_bytes bytes h = h
  send_pieces-IsStarted (suc fuel) stream send_bytes bytes h =
      elim (Bool-cases (ltb 0 send_bytes)) [
        | inr stop ↦ rw (stop, send_pieces) h
        | inl go ↦
            let n = min send_bytes stream_chunk_size in
            let more =
              IsStarted-append stream (data_chunk (take n bytes)) h
                (piece-IsData n bytes (omega arith)) in
            elim (Option-cases (t.answer stream (data_chunk (take n bytes)))) [
              | inl sent ↦
                  rw (go, sent, send_pieces)
                    (send_pieces-IsStarted fuel _ (send_bytes - n) (drop n bytes) more)
              | inr (e, failed) ↦ rw (go, failed, send_pieces) more
            ]
      ]

  -- The end of a loop that was to send `count` bytes: they are on the stream and the others are
  -- left, or it failed, with some left.
  abbrev pub Sends : List (ForwardChunk F) → ℕ → Bytes → Progress F E → Type 0
  Sends stream count bytes p =
      ((p.failure ≡ none)
        × (payloads p.stream ++ p.rest ≡ payloads stream ++ bytes)
        × (length p.rest + count ≡ length bytes))
      ⊎ ((e : E) × (p.failure ≡ some e) × (length p.rest ≤ length bytes))

  pub send_pieces-Sends :
      (fuel : ℕ) (stream : List (ForwardChunk F)) (send_bytes : ℕ) (bytes : Bytes)
      → send_bytes ≤ fuel
      → send_bytes ≤ length bytes
      → Sends stream send_bytes bytes (send_pieces t stream_chunk_size fuel stream send_bytes bytes)
  unfolding send_pieces
  send_pieces-Sends zero stream send_bytes bytes f h = inl (refl, refl, omega arith)
  send_pieces-Sends (suc fuel) stream send_bytes bytes f h = elim (Bool-cases (ltb 0 send_bytes)) [
    | inr stop ↦ rw (stop, send_pieces) (inl (refl, refl, ground arith))
    | inl go ↦
        let n = min send_bytes stream_chunk_size in
        let some_go = ltb→lt 0 send_bytes go in
        elim (Option-cases (t.answer stream (data_chunk (take n bytes)))) [
          | inr (e, failed) ↦ rw (go, failed, send_pieces) (inr (e, refl, omega arith))
          | inl sent ↦
              rw (go, sent, send_pieces)
                (elim (send_pieces-Sends fuel (stream ++ data_chunk (take n bytes) ∷ [])
                  (send_bytes - n) (drop n bytes) (omega arith)
                  (omega (arith, length-drop n bytes))) [
                    | inr (e, failed, rest) ↦ inr (e, failed, omega (arith, length-drop n bytes))
                    | inl (done, all, rest) ↦ inl (
                      done,
                      all
                          ∙ payloads-data stream (take n bytes) (drop n bytes)
                          ∙ ap (◌++◌ (payloads stream)) (take-append-drop n bytes),
                      omega (arith, length-drop n bytes),
                    )
                  ])
        ]
  ]

  pub send_offsets-IsStarted :
      (fuel : ℕ) (stream : List (ForwardChunk F)) (offset : ℕ) (bytes : Bytes)
      → IsStarted stream
      → IsStarted (send_offsets t stream_chunk_size fuel stream offset bytes).stream
  unfolding send_offsets
  send_offsets-IsStarted zero stream offset bytes h = h
  send_offsets-IsStarted (suc fuel) stream offset bytes h =
      elim (Bool-cases (ltb offset (length bytes))) [
        | inr stop ↦ rw (stop, send_offsets) h
        | inl go ↦
            let n = stop_at offset bytes - offset in
            let chunk : ForwardChunk F = data_chunk (take n (drop offset bytes)) in
            let more =
              IsStarted-append stream chunk h (piece-IsData n (drop offset bytes) (ground arith)) in
            elim (Option-cases (t.answer stream chunk)) [
              | inl sent ↦
                  rw (go, sent, send_offsets)
                    (send_offsets-IsStarted fuel _ (offset + stream_chunk_size) bytes more)
              | inr (e, failed) ↦ rw (go, failed, send_offsets) more
            ]
      ]

  -- The end of the loop over offsets: all bytes from the offset on are on the stream, or it failed.
  abbrev pub SendsAll : List (ForwardChunk F) → ℕ → Bytes → Progress F E → Type 0
  SendsAll stream offset bytes p =
      ((p.failure ≡ none) × (payloads p.stream ≡ payloads stream ++ drop offset bytes))
      ⊎ ((e : E) × (p.failure ≡ some e) × (length p.rest ≤ length bytes))

  pub send_offsets-SendsAll :
      (fuel : ℕ) (stream : List (ForwardChunk F)) (offset : ℕ) (bytes : Bytes)
      → length bytes ≤ offset + fuel
      → SendsAll stream offset bytes (send_offsets t stream_chunk_size fuel stream offset bytes)
  unfolding send_offsets
  send_offsets-SendsAll zero stream offset bytes f =
      inl (refl, rw (drop_all offset bytes (omega arith)) (sym (append-nil (payloads stream))))
  send_offsets-SendsAll (suc fuel) stream offset bytes f =
      elim (Bool-cases (ltb offset (length bytes))) [
        | inr stop ↦
            rw (stop, send_offsets)
              (inl (
                refl,
                rw (drop_all offset bytes (ground arith)) (sym (append-nil (payloads stream))),
              ))
        | inl go ↦
            let tail = drop offset bytes in
            let n = stop_at offset bytes - offset in
            let chunk : ForwardChunk F = data_chunk (take n tail) in
            elim (Option-cases (t.answer stream chunk)) [
              | inr (e, failed) ↦
                  rw (go, failed, send_offsets)
                    (inr (e, refl, omega (arith, length-drop offset bytes)))
              | inl sent ↦
                  rw (go, sent, send_offsets)
                    (elim (send_offsets-SendsAll fuel (stream ++ chunk ∷ [])
                      (offset + stream_chunk_size) bytes (omega arith)) [
                        | inr failed ↦ inr failed
                        | inl (done, all) ↦ inl (done, all ∙ offset_step stream offset bytes)
                      ])
            ]
      ]
