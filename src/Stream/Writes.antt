-- ===== src/Stream/Writes.antt =====
-- streamWriter.Write: no byte that a call took is lost, repeated or moved.
use airgate_sdk.Prelude.{◌≡◌, refl, ◌⊎◌, inl, inr, true, false, none, some, arith, Bool-cases}
use airgate_sdk.Outcome.{Bytes}
use airgate_sdk.Stream.Sending.{Transport}
use airgate_sdk.Stream.{StreamWriter, flush_meta, write_completing, write_ordinary, write}
use airgate_sdk.Stream.Phases.{IsFresh, IsReady, Written, flush_meta-Flushed}
use airgate_sdk.Stream.Completing.{Written-after, write_completing-Written}
use airgate_sdk.Stream.Ordinary.{write_ordinary-Written}

module _ {F E : Type 0} (t : Transport F E) where
  write_flushed :
      (w : StreamWriter F E) (bytes : Bytes) (e : E)
      → w.err ≡ none
      → (flush_meta t w).1 ≡ some e
      → write t w bytes ≡ ((flush_meta t w).0, 0, some e)
  unfolding write
  write_flushed w bytes e alive q = ground arith

  module _ (w : StreamWriter F E) (bytes : Bytes) (alive : w.err ≡ none)
      (q : (flush_meta t w).1 ≡ none) where
    write_goes_completing :
        (flush_meta t w).0.completing ≡ true
        → write t w bytes ≡ write_completing t (flush_meta t w).0 bytes
    unfolding write
    write_goes_completing c = ground arith

    write_goes_ordinary :
        (flush_meta t w).0.completing ≡ false
        → write t w bytes ≡ write_ordinary t (flush_meta t w).0 bytes
    unfolding write
    write_goes_ordinary c = ground arith

  alive_of : (w : StreamWriter F E) → IsFresh w ⊎ IsReady w → w.err ≡ none
  alive_of w (inl h) = h.alive
  alive_of w (inr h) = h.alive

  -- A writer that has not failed either takes all the bytes of a write, puts them behind what it
  -- had, with at most one chunk held back, or fails and keeps the error.
  pub write-Written :
      (w : StreamWriter F E) (bytes : Bytes)
      → IsFresh w ⊎ IsReady w
      → Written w bytes (write t w bytes)
  write-Written w bytes h =
      let v = (flush_meta t w).0 in
      let alive = alive_of w h in
      elim (flush_meta-Flushed t w h) [
        | inr (e, failed, q) ↦
            rw (write_flushed w bytes e alive q) (inr (e, failed, refl, omega arith))
        | inl (ready, q, same, kept) ↦
            Written-after t v w bytes _ same kept (elim (Bool-cases v.completing) [
              | inl c ↦
                  rw (write_goes_completing w bytes alive q c)
                    (write_completing-Written t v bytes ready c)
              | inr c ↦
                  rw (write_goes_ordinary w bytes alive q c)
                    (write_ordinary-Written t v bytes ready c)
            ])
      ]

  -- After a failure a write sends nothing, takes nothing and repeats the first error.
  pub write_failed :
      (w : StreamWriter F E) (bytes : Bytes) (e : E)
      → w.err ≡ some e
      → write t w bytes ≡ (w, 0, some e)
  unfolding write
  write_failed w bytes e h = ground arith
