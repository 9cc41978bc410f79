-- ===== src/Extension/Writer/Pieces.antt =====
-- One chunk of streamResponseWriter.Write, and one after the other.
use airgate_sdk.Prelude.{
  ℕ, ◌+◌, ◌≤◌, ◌≡◌, refl, sym, ap, ◌∙◌, ◌⊎◌, inl, inr, true, Option, none, some, List, [], ◌∷◌,
  ◌++◌, String, length, take, drop, arith, append_assoc, append-nil, length-drop, drop-drop,
  length-take, take-append-drop, drop_all, All, All-append, Option-cases, subst,
}
use airgate_sdk.Outcome.{Bytes}
use airgate_sdk.Stream.Sending.{stream_chunk_size}
use airgate_sdk.Extension.Messages.{HttpResponseChunk}
use airgate_sdk.Extension.Writer.{
  ChunkStream, ResponseWriter, next_chunk, begun, send_chunk, write_piece,
}

unfoldable pub stream_payload : List HttpResponseChunk → Bytes
stream_payload [] = []
stream_payload (c ∷ stream) = c.payload ++ stream_payload stream

pub stream_payload-append :
    (s s' : List HttpResponseChunk)
    → stream_payload (s ++ s') ≡ stream_payload s ++ stream_payload s'
unfolding stream_payload
stream_payload-append [] s' = refl
stream_payload-append (c ∷ s) s' =
    ap (◌++◌ c.payload) (stream_payload-append s s')
    ∙ sym (append_assoc c.payload (stream_payload s) (stream_payload s'))

stream_payload-chunk :
    (s : List HttpResponseChunk) (c : HttpResponseChunk)
    → stream_payload (s ++ c ∷ []) ≡ stream_payload s ++ c.payload
unfolding stream_payload
stream_payload-chunk s c =
    stream_payload-append s (c ∷ []) ∙ ap (◌++◌ (stream_payload s)) (append-nil c.payload)

abbrev pub IsSmall : HttpResponseChunk → Type 0
IsSmall c = length c.payload ≤ stream_chunk_size

-- A write that took the first `sent` of these bytes.
pub record IsDelivered {E : Type 0} (w : ResponseWriter E) (bytes : Bytes) (w' : ResponseWriter E)
    (sent : ℕ) (failure : Option E) : Type 0 where
  pub delivers : stream_payload w'.stream ++ drop sent bytes ≡ stream_payload w.stream ++ bytes
  pub within : sent ≤ length bytes
  pub whole : failure ≡ none → sent ≡ length bytes
  pub remembers : w'.err ≡ failure
  pub small : All IsSmall w.stream → All IsSmall w'.stream

module _ {E : Type 0} (t : ChunkStream E) (lower : String → String) where
  next_chunk_payload :
      (w : ResponseWriter E) (bytes : Bytes) → (next_chunk lower w bytes).payload ≡ bytes
  unfolding next_chunk
  next_chunk_payload w bytes = ground arith

  begun_kept : (w : ResponseWriter E) → ((begun w).stream ≡ w.stream) × ((begun w).err ≡ w.err)
  unfolding begun
  begun_kept w = (ground arith, ground arith)

  piece_failed :
      (w : ResponseWriter E) (bytes : Bytes) (e : E)
      → send_chunk t w.stream (next_chunk lower w bytes) ≡ some e
      → write_piece t lower w bytes ≡ (record (begun w) { err = some e; cancelled = true }, some e)
  unfolding write_piece
  piece_failed w bytes e s = rw (s, write_piece) refl

  piece_taken :
      (w : ResponseWriter E) (bytes : Bytes)
      → send_chunk t w.stream (next_chunk lower w bytes) ≡ none
      → write_piece t lower w bytes
        ≡ (record (begun w) { stream = w.stream ++ next_chunk lower w bytes ∷ [] }, none)
  unfolding write_piece
  piece_taken w bytes s = rw (s, write_piece) refl

  pub piece-IsDelivered :
      (w : ResponseWriter E) (bytes : Bytes)
      → w.err ≡ none
      → length bytes ≤ stream_chunk_size
      → (IsDelivered w bytes (write_piece t lower w bytes).0 (length bytes) none
          × ((write_piece t lower w bytes).1 ≡ none))
        ⊎ ((e : E) × ((rest : Bytes)
              → IsDelivered w rest (write_piece t lower w bytes).0 0 (some e))
            × ((write_piece t lower w bytes).1 ≡ some e))
  piece-IsDelivered w bytes clear fits =
      let chunk = next_chunk lower w bytes in
      elim (Option-cases (send_chunk t w.stream chunk)) [
        | inr (e, s) ↦ rw (piece_failed w bytes e s) (
            inr (
              e,
              λ rest. record {
                delivers = ap (λ s. stream_payload s ++ rest) (begun_kept w).0;
                within = omega arith;
                whole = λ x. absurd (cc x);
                remembers = refl;
                small = λ all. subst (All IsSmall) (sym ((begun_kept w).0)) all;
              },
              refl,
            ))
        | inl s ↦ rw (piece_taken w bytes s) (
            inl (
              record {
                delivers =
                    ap (◌++◌ (stream_payload (w.stream ++ chunk ∷ [])))
                      (drop_all (length bytes) bytes (omega arith))
                    ∙ append-nil (stream_payload (w.stream ++ chunk ∷ []))
                    ∙ stream_payload-chunk w.stream chunk
                    ∙ ap (◌++◌ (stream_payload w.stream)) (next_chunk_payload w bytes);
                within = omega arith;
                whole = λ x. refl;
                remembers = (begun_kept w).1 ∙ clear;
                small = λ all. All-append IsSmall w.stream (chunk ∷ []) all (
                  subst (λ b. length b ≤ stream_chunk_size) (sym (next_chunk_payload w bytes)) fits,
                  _,
                );
              },
              refl,
            ))
      ]

  -- The rest of the bytes, after the first n.
  pub IsDelivered-after :
      {w w1 w2 : ResponseWriter E} {bytes : Bytes} {n sent : ℕ} {failure : Option E}
      → IsDelivered w (take n bytes) w1 (length (take n bytes)) none
      → length (take n bytes) ≡ n
      → IsDelivered w1 (drop n bytes) w2 sent failure
      → IsDelivered w bytes w2 (n + sent) failure
  IsDelivered-after {w} {w1} {w2} {bytes} {n} {sent} one cut more = record {
    delivers =
        ap (◌++◌ (stream_payload w2.stream)) (drop-drop n sent (n + sent) bytes refl)
        ∙ more.delivers
        ∙ ap (λ p. p ++ drop n bytes)
            (sym (append-nil (stream_payload w1.stream))
              ∙ ap (◌++◌ (stream_payload w1.stream))
                  (sym (drop_all (length (take n bytes)) (take n bytes) (omega arith)))
              ∙ one.delivers)
        ∙ append_assoc (stream_payload w.stream) (take n bytes) (drop n bytes)
        ∙ ap (◌++◌ (stream_payload w.stream)) (take-append-drop n bytes);
    within = omega (arith, more.within, length-drop n bytes, length-take n bytes, cut);
    whole = λ x. omega (arith, more.whole x, length-drop n bytes, length-take n bytes, cut);
    remembers = more.remembers;
    small = λ all. more.small (one.small all);
  }
