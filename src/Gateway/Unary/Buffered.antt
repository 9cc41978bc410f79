-- ===== src/Gateway/Unary/Buffered.antt =====
-- What a plugin's writes leave in the buffer of a call without streaming, and what the call answers.
use airgate_sdk.Prelude.{
  ◌+◌, ◌<◌, ◌≤◌, ◌≡◌, refl, ap, ◌∙◌, ◌⊎◌, inl, inr, true, false, none, some, List, [], ◌∷◌, ◌++◌,
  length, append-nil, append_assoc, length-append, arith, Bool-cases, ltb, ltb→lt, ltb-false,
}
use airgate_sdk.Outcome.{Bytes}
use airgate_sdk.Stream.Sending.{max_buffered_response_bytes}
use airgate_sdk.Gateway.Server.{WriterCall, begins_completion, sets_headers, writes_header, writes}
use airgate_sdk.Gateway.Calls.{written}
use airgate_sdk.Gateway.Unary.{
  BufferWriter, Limits, new_buffer, with_status, give_content_type, buffer_write, buffer_call,
  buffer_calls,
}

module _ {E : Type 0} (l : Limits E) where
  give_content_type_keeps :
      (bytes : Bytes) (w : BufferWriter E)
      → ((give_content_type l bytes w).err ≡ w.err)
        × ((give_content_type l bytes w).cancelled ≡ w.cancelled)
  unfolding give_content_type
  give_content_type_keeps bytes w = (ground arith, ground arith)

  -- The buffer holds these bytes and has failed at nothing, or it has failed for good.
  abbrev pub Collected : BufferWriter E → Bytes → Type 0
  Collected w bytes =
      ((w.err ≡ none)
        × (w.body ≡ bytes)
        × (w.cancelled ≡ false)
        × (length bytes ≤ max_buffered_response_bytes))
      ⊎ ((w.err ≡ some l.buffer_exhausted)
          × (w.cancelled ≡ true)
          × (max_buffered_response_bytes < length bytes))

  write-Collected :
      (w : BufferWriter E) (held bytes : Bytes)
      → Collected w held
      → Collected (buffer_write l w bytes).0 (held ++ bytes)
  unfolding buffer_write
  write-Collected w held bytes (inr (failed, cancelled, over)) =
      rw (failed, buffer_write)
        (inr (failed, cancelled, omega (arith, over, length-append held bytes)))
  write-Collected w held bytes (inl (alive, holds, running, fits)) =
      elim (Bool-cases (ltb max_buffered_response_bytes (length w.body + length bytes))) [
        | inl over ↦
            rw (alive, over, buffer_write)
              (inr (
                refl,
                refl,
                omega (arith, ltb→lt _ _ over, length-append held bytes, ap length holds),
              ))
        | inr under ↦
            rw (alive, under, buffer_write)
              (inl (
                (give_content_type_keeps bytes (with_status w)).0 ∙ alive,
                ap (λ b. b ++ bytes) holds,
                (give_content_type_keeps bytes (with_status w)).1 ∙ running,
                omega (arith, ltb-false _ _ under, length-append held bytes, ap length holds),
              ))
      ]

  buffer_calls-Collected :
      (cs : List WriterCall) (w : BufferWriter E) (held : Bytes)
      → Collected w held
      → Collected (buffer_calls l cs w) (held ++ written cs)
  unfolding buffer_calls buffer_call
  buffer_calls-Collected [] w held h = rw (append-nil held) h
  buffer_calls-Collected (begins_completion ∷ cs) w held h = buffer_calls-Collected cs w held h
  buffer_calls-Collected (sets_headers hs ∷ cs) w held h = buffer_calls-Collected cs _ held h
  buffer_calls-Collected (writes_header s ∷ cs) w held h = buffer_calls-Collected cs _ held h
  buffer_calls-Collected (writes bytes ∷ cs) w held h =
      rw (← append_assoc held bytes (written cs)) (
        buffer_calls-Collected cs (buffer_write l w bytes).0 (held ++ bytes)
          (write-Collected w held bytes h))

  -- However a plugin writes, the buffer holds all that it wrote and no error, as long as that is
  -- within the limit; otherwise it keeps the error and the plugin's context is cancelled.
  pub buffer_calls_lem :
      (cs : List WriterCall) → Collected (buffer_calls l cs new_buffer) (written cs)
  buffer_calls_lem cs =
      buffer_calls-Collected cs new_buffer [] (inl (refl, refl, refl, omega arith))
