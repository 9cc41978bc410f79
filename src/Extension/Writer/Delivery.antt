-- ===== src/Extension/Writer/Delivery.antt =====
-- What streamResponseWriter.Write puts on the stream.
use airgate_sdk.Prelude.{
  ℕ, zero, suc, ◌+◌, ◌<◌, ◌≡◌, refl, sym, inl, inr, min, true, false, Option, none, some, String,
  length, take, drop, ltb, ltb→lt, ltb-false, arith, length-drop, length-take, take_all, Bool-cases,
  subst,
}
use airgate_sdk.Outcome.{Bytes}
use airgate_sdk.Stream.Sending.{stream_chunk_size}
use airgate_sdk.Extension.Writer.{
  ChunkStream, ResponseWriter, write_piece, write_rounds, write_response,
}
use airgate_sdk.Extension.Writer.Pieces.{IsDelivered, piece-IsDelivered, IsDelivered-after}

module _ {E : Type 0} (t : ChunkStream E) (lower : String → String) where
  -- What a run of the rounds has done.
  abbrev pub IsRun : ResponseWriter E → ℕ → Bytes → ResponseWriter E × ℕ × Option E → Type 0
  IsRun w total bytes r = (sent : ℕ) × (r.1 ≡ total + sent) × IsDelivered w bytes r.0 sent r.2

  module _ (fuel : ℕ) (w : ResponseWriter E) (total : ℕ) (bytes : Bytes) where
    abbrev piece_size : ℕ
    piece_size = min (length bytes) stream_chunk_size

    abbrev piece : ResponseWriter E × Option E
    piece = write_piece t lower w (take piece_size bytes)

    rounds_failed :
        (e : E)
        → piece.1 ≡ some e
        → write_rounds t lower (suc fuel) w total bytes ≡ (piece.0, total, some e)
    unfolding write_rounds
    rounds_failed e f = rw (f, write_rounds) refl

    rounds_done :
        piece.1 ≡ none
        → ltb 0 (length (drop piece_size bytes)) ≡ false
        → write_rounds t lower (suc fuel) w total bytes ≡ (piece.0, total + piece_size, none)
    unfolding write_rounds
    rounds_done f l = rw (f, l, write_rounds) refl

    rounds_more :
        piece.1 ≡ none
        → ltb 0 (length (drop piece_size bytes)) ≡ true
        → write_rounds t lower (suc fuel) w total bytes
          ≡ write_rounds t lower fuel piece.0 (total + piece_size) (drop piece_size bytes)
    unfolding write_rounds
    rounds_more f l = rw (f, l, write_rounds) refl

  -- Nothing is left behind the first n bytes.
  all_taken :
      {w w1 : ResponseWriter E} {bytes : Bytes} {n : ℕ}
      → IsDelivered w (take n bytes) w1 (length (take n bytes)) none
      → ltb 0 (length (drop n bytes)) ≡ false
      → n ≡ min (length bytes) stream_chunk_size
      → IsDelivered w bytes w1 n none
  all_taken {w} {w1} {bytes} {n} d done size =
      let none_left = ltb-false 0 (length (drop n bytes)) done in
      let short = length-drop n bytes in
      let whole : length bytes ≡ n = omega (arith, none_left, short, size) in
      subst (λ k. IsDelivered w bytes w1 k none) whole
        (subst (λ b. IsDelivered w b w1 (length b) none) (take_all n bytes (omega (arith, whole)))
          d)

  write_rounds-IsRun :
      (fuel : ℕ) (w : ResponseWriter E) (total : ℕ) (bytes : Bytes)
      → w.err ≡ none
      → length bytes < fuel
      → IsRun w total bytes (write_rounds t lower fuel w total bytes)
  write_rounds-IsRun zero w total bytes clear enough = absurd (omega arith)
  write_rounds-IsRun (suc fuel) w total bytes clear enough =
      let n = min (length bytes) stream_chunk_size in
      let size = length-take n bytes in
      elim (piece-IsDelivered t lower w (take n bytes) clear (omega (arith, size))) [
        | inr (e, d, f) ↦
            subst (IsRun w total bytes) (sym (rounds_failed fuel w total bytes e f))
              (0, omega arith, d bytes)
        | inl (d, f) ↦ elim (Bool-cases (ltb 0 (length (drop n bytes)))) [
          | inr done ↦
              subst (IsRun w total bytes) (sym (rounds_done fuel w total bytes f done))
                (n, refl, all_taken d done refl)
          | inl more ↦
              let (sent, count, d') =
                write_rounds-IsRun fuel (write_piece t lower w (take n bytes)).0 (total + n)
                  (drop n bytes) d.remembers
                  (omega (arith, length-drop n bytes, ltb→lt 0 (length (drop n bytes)) more)) in
              subst (IsRun w total bytes) (sym (rounds_more fuel w total bytes f more)) (
                n + sent,
                omega (arith, count),
                IsDelivered-after t lower d (omega (arith, size)) d',
              )
        ]
      ]

  writes_rounds :
      (w : ResponseWriter E) (bytes : Bytes)
      → w.err ≡ none
      → write_response t lower w bytes ≡ write_rounds t lower (suc (length bytes)) w 0 bytes
  unfolding write_response
  writes_rounds w bytes clear = ground arith

  -- A write on a writer without an error: the count that it returns is of the bytes that the stream
  -- took, which stand behind those of the earlier writes, in chunks of at most 256 KiB; without an
  -- error it is all of them, and an error stays with the writer.
  pub write_response-IsDelivered :
      (w : ResponseWriter E) (bytes : Bytes)
      → w.err ≡ none
      → IsDelivered w bytes
          (write_response t lower w bytes).0
          (write_response t lower w bytes).1
          (write_response t lower w bytes).2
  write_response-IsDelivered w bytes clear =
      let (sent, count, d) =
        write_rounds-IsRun (suc (length bytes)) w 0 bytes clear (omega arith) in
      subst (λ r. IsDelivered w bytes r.0 r.1 r.2) (sym (writes_rounds w bytes clear))
        (subst
          (λ n.
            IsDelivered w bytes (write_rounds t lower (suc (length bytes)) w 0 bytes).0 n
              (write_rounds t lower (suc (length bytes)) w 0 bytes).2)
          (omega (arith, count)) d)
