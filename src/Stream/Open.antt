-- ===== src/Stream/Open.antt =====
-- A transport that takes every chunk: nothing fails, if the message with the status and the headers is
-- within the limit.
use airgate_sdk.Prelude.{
  ℕ, zero, suc, ◌+◌, ◌-◌, ◌≤◌, min, ℤ, ◌≡◌, refl, inl, inr, false, none, List, [], ◌∷◌, length,
  take, ltb, arith, Bool-cases, ◌==◌,
}
use airgate_sdk.Outcome.{Bytes, Header}
use airgate_sdk.Wire.Proto.{ForwardChunk}
use airgate_sdk.Stream.Sending.{
  Transport, data_chunk, stream_chunk_size, max_response_message_bytes, check_response_message,
  send, send_pieces, send_offsets,
}
use airgate_sdk.Stream.{
  new_writer, StreamWriter, settle, meta_chunk, send_meta, flush_meta, send_tail, finish_completing,
  write_completing, finish_ordinary, write_ordinary, write,
}

pub record IsOpen {F E : Type 0} (t : Transport F E) : Type 0 where
  pub takes : (sent : List (ForwardChunk F)) (c : ForwardChunk F) → t.answer sent c ≡ none

-- The message that has these headers is within the limit, whatever its status.
abbrev pub IsSmallHead : {F E : Type 0} → Transport F E → Header → Type 0
IsSmallHead {F} {E} t h =
    (status : ℤ)
    → t.size (meta_chunk {F = F} {E = E} (record new_writer { headers = h; code = status }))
      ≤ max_response_message_bytes

module _ {F E : Type 0} (t : Transport F E) (open_t : IsOpen t) where
  send_pieces_open :
      (fuel : ℕ) (stream : List (ForwardChunk F)) (n : ℕ) (bytes : Bytes)
      → (send_pieces t stream_chunk_size fuel stream n bytes).failure ≡ none
  unfolding send_pieces
  send_pieces_open zero stream n bytes = refl
  send_pieces_open (suc fuel) stream n bytes = elim (Bool-cases (ltb 0 n)) [
    | inr stop ↦ rw (stop, send_pieces) refl
    | inl more ↦
        rw
          (
            more,
            open_t.takes stream (data_chunk (take (min n stream_chunk_size) bytes)),
            send_pieces,
          )
          (send_pieces_open fuel _ _ _)
  ]

  send_offsets_open :
      (fuel : ℕ) (stream : List (ForwardChunk F)) (offset : ℕ) (bytes : Bytes)
      → (send_offsets t stream_chunk_size fuel stream offset bytes).failure ≡ none
  unfolding send_offsets
  send_offsets_open zero stream offset bytes = refl
  send_offsets_open (suc fuel) stream offset bytes = elim (Bool-cases (ltb offset (length bytes))) [
    | inr stop ↦ rw (stop, send_offsets) refl
    | inl more ↦ rw (more, open_t.takes stream _, send_offsets) (send_offsets_open fuel _ _ _)
  ]

  check_open :
      (w : StreamWriter F E)
      → IsSmallHead t w.headers
      → check_response_message t (meta_chunk w) ≡ none
  unfolding check_response_message meta_chunk
  check_open w small = ground (arith, small w.code)

  send_meta_open :
      (w : StreamWriter F E)
      → w.err ≡ none
      → IsSmallHead t w.headers
      → ((send_meta t w).0.err ≡ none)
        × ((send_meta t w).1 ≡ none)
        × ((send_meta t w).0.headers ≡ w.headers)
  unfolding send_meta settle send
  send_meta_open w alive small =
      rw (check_open w small, open_t.takes w.stream (meta_chunk w), send_meta) (alive, refl, refl)

  pub flush_meta_open :
      (w : StreamWriter F E)
      → w.err ≡ none
      → IsSmallHead t w.headers
      → ((flush_meta t w).0.err ≡ none)
        × ((flush_meta t w).1 ≡ none)
        × ((flush_meta t w).0.headers ≡ w.headers)
  unfolding flush_meta
  flush_meta_open w alive small = ground (arith, send_meta_open w alive small)

  send_tail_open :
      (w : StreamWriter F E) (n : ℕ)
      → w.err ≡ none
      → ((send_tail t w n).0.err ≡ none)
        × ((send_tail t w n).1 ≡ none)
        × ((send_tail t w n).0.headers ≡ w.headers)
  unfolding send_tail settle send
  send_tail_open w n alive = elim (Bool-cases (ltb 0 n)) [
    | inr nothing ↦ rw (nothing, send_tail) (alive, refl, refl)
    | inl some_go ↦
        rw (some_go, open_t.takes w.stream (data_chunk (take n w.completion_tail)), send_tail)
          (alive, refl, refl)
  ]

  write_completing_open :
      (w : StreamWriter F E) (bytes : Bytes)
      → w.err ≡ none
      → ((write_completing t w bytes).0.err ≡ none)
        × ((write_completing t w bytes).0.headers ≡ w.headers)
  unfolding write_completing finish_completing
  write_completing_open w bytes alive =
      let sb = length w.completion_tail + length bytes - stream_chunk_size in
      let n = min sb (length w.completion_tail) in
      let (kept, fine, same) = send_tail_open w n alive in
      rw (fine, write_completing)
        (rw (send_pieces_open (sb - n) (send_tail t w n).0.stream (sb - n) bytes, finish_completing)
          (kept, same))

  write_ordinary_open :
      (w : StreamWriter F E) (bytes : Bytes)
      → w.err ≡ none
      → ((write_ordinary t w bytes).0.err ≡ none)
        × ((write_ordinary t w bytes).0.headers ≡ w.headers)
  unfolding write_ordinary finish_ordinary settle send
  write_ordinary_open w [] alive =
      rw (open_t.takes w.stream (data_chunk []), write_ordinary) (alive, refl)
  write_ordinary_open w (b ∷ bytes) alive =
      let some_bytes : (length (b ∷ bytes) == 0) ≡ false = ground arith in
      rw (some_bytes, write_ordinary)
        (rw (send_offsets_open (length (b ∷ bytes)) w.stream 0 (b ∷ bytes), finish_ordinary)
          (alive, refl))

  pub write_open :
      (w : StreamWriter F E) (bytes : Bytes)
      → w.err ≡ none
      → IsSmallHead t w.headers
      → ((write t w bytes).0.err ≡ none) × ((write t w bytes).0.headers ≡ w.headers)
  unfolding write
  write_open w bytes alive small =
      let (kept, fine, same) = flush_meta_open w alive small in
      let w' = (flush_meta t w).0 in
      ground (
        arith,
        kept,
        fine,
        same,
        write_completing_open w' bytes kept,
        write_ordinary_open w' bytes kept,
      )
