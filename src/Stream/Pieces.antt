-- ===== src/Stream/Pieces.antt =====
-- The shape of the streams that a streamWriter makes, and the bytes in them.
use airgate_sdk.Prelude.{
  ◌≤◌, pos, ◌≡◌, refl, sym, ap, ◌∙◌, false, none, List, [], ◌∷◌, ◌++◌, length, All, All-append,
  append_assoc, append-nil,
}
use airgate_sdk.Outcome.{Bytes}
use airgate_sdk.Wire.Proto.{ForwardChunk}
use airgate_sdk.Stream.Sending.{data_chunk, stream_chunk_size}

module _ {F : Type 0} where
  -- The bytes of a stream, in order.
  abbrev pub payloads : List (ForwardChunk F) → Bytes
  payloads [] = []
  payloads (c ∷ cs) = c.payload ++ payloads cs

  pub payloads-append :
      (xs ys : List (ForwardChunk F)) → payloads (xs ++ ys) ≡ payloads xs ++ payloads ys
  payloads-append [] ys = refl
  payloads-append (x ∷ xs) ys =
      ap (◌++◌ x.payload) (payloads-append xs ys)
      ∙ sym (append_assoc x.payload (payloads xs) (payloads ys))

  -- A chunk with nothing but at most stream_chunk_size bytes.
  abbrev pub IsData : ForwardChunk F → Type 0
  IsData c =
      (c.done ≡ false)
      × (c.final_outcome ≡ none)
      × (c.status_code ≡ pos 0)
      × (c.headers ≡ [])
      × (length c.payload ≤ stream_chunk_size)

  abbrev pub IsMeta : ForwardChunk F → Type 0
  IsMeta c = (c.payload ≡ []) × (c.done ≡ false) × (c.final_outcome ≡ none)

  -- Nothing yet, or one chunk with the status and the headers and then data only.
  abbrev pub IsFramed : List (ForwardChunk F) → Type 0
  IsFramed [] = Unit
  IsFramed (m ∷ cs) = IsMeta m × All IsData cs

  -- The same, once the first chunk is there.
  abbrev pub IsStarted : List (ForwardChunk F) → Type 0
  IsStarted [] = ⊥
  IsStarted (m ∷ cs) = IsMeta m × All IsData cs

  pub IsStarted-IsFramed : (cs : List (ForwardChunk F)) → IsStarted cs → IsFramed cs
  IsStarted-IsFramed [] h = absurd h
  IsStarted-IsFramed (m ∷ cs) h = h

  pub IsStarted-append :
      (cs : List (ForwardChunk F)) (c : ForwardChunk F)
      → IsStarted cs
      → IsData c
      → IsStarted (cs ++ c ∷ [])
  IsStarted-append [] c h d = absurd h
  IsStarted-append (m ∷ cs) c h d = (h.0, All-append IsData cs (c ∷ []) h.1 (d, tt))

  pub payloads-data :
      (cs : List (ForwardChunk F)) (bytes rest : Bytes)
      → payloads (cs ++ data_chunk bytes ∷ []) ++ rest ≡ payloads cs ++ (bytes ++ rest)
  payloads-data cs bytes rest =
      rw (payloads-append cs (data_chunk bytes ∷ []), append-nil bytes)
        (append_assoc (payloads cs) bytes rest)
