-- ===== src/Extension/Requests/Streams.antt =====
-- The stream of HandleStreamRequest.
use airgate_sdk.Prelude.{
  ◌≡◌, refl, sym, ap, ◌∙◌, subst, ℤ, pos, Bool, true, false, none, some, List, [], ◌∷◌, ◌++◌,
  String, arith, append-nil, append_assoc, drop_all, All, Option-cases, inl, inr,
}
use airgate_sdk.Outcome.{Bytes}
use airgate_sdk.Gateway.Server.{WriterCall, begins_completion, sets_headers, writes_header, writes}
use airgate_sdk.Extension.Messages.{HttpResponseChunk}
use airgate_sdk.Extension.Writer.{
  ChunkStream, ResponseWriter, new_response_writer, write_status, write_response,
}
use airgate_sdk.Extension.Writer.Pieces.{stream_payload, IsSmall}
use airgate_sdk.Extension.Writer.Delivery.{write_response-IsDelivered}
use airgate_sdk.Extension.Requests.{
  served, response_call, response_calls, send_last, done_chunk, stream_routed,
}

-- What the handler wrote, and whether it wrote at all.
unfoldable pub written : List WriterCall → Bytes
written [] = []
written (begins_completion ∷ calls) = written calls
written (sets_headers h ∷ calls) = written calls
written (writes_header status ∷ calls) = written calls
written (writes bytes ∷ calls) = bytes ++ written calls

unfoldable pub is_write : WriterCall → Bool
is_write begins_completion = false
is_write (sets_headers h) = false
is_write (writes_header status) = false
is_write (writes bytes) = true

module _ {E : Type 0} (t : ChunkStream E) (lower : String → String) where
  status_kept :
      (code : ℤ) (w : ResponseWriter E)
      → ((write_status code w).stream ≡ w.stream) × ((write_status code w).err ≡ w.err)
  unfolding write_status
  status_kept code w = (ground arith, ground arith)

  write_stuck :
      (w : ResponseWriter E) (bytes : Bytes) (e : E)
      → w.err ≡ some e
      → (write_response t lower w bytes).0 ≡ w
  unfolding write_response
  write_stuck w bytes e h = ground arith

  call_stuck :
      (c : WriterCall) (w : ResponseWriter E) (e : E)
      → w.err ≡ some e
      → (response_call t lower c w).err ≡ some e
  unfolding response_call
  call_stuck begins_completion w e h = h
  call_stuck (sets_headers x) w e h = h
  call_stuck (writes_header code) w e h = (status_kept code w).1 ∙ h
  call_stuck (writes bytes) w e h = ap (λ v. v.err) (write_stuck w bytes e h) ∙ h

  calls_stuck :
      (calls : List WriterCall) (w : ResponseWriter E) (e : E)
      → w.err ≡ some e
      → (response_calls t lower calls w).err ≡ some e
  unfolding response_calls
  calls_stuck [] w e h = h
  calls_stuck (c ∷ calls) w e h =
      calls_stuck calls (response_call t lower c w) e (call_stuck c w e h)

  -- The writer had no error before, if it has none after the calls.
  calls_clear :
      (calls : List WriterCall) (w : ResponseWriter E)
      → (response_calls t lower calls w).err ≡ none
      → w.err ≡ none
  calls_clear calls w done = elim (Option-cases w.err) [
    | inl clear ↦ clear
    | inr (e, h) ↦ absurd (cc (sym done ∙ calls_stuck calls w e h))
  ]

  write_whole :
      (w : ResponseWriter E) (bytes : Bytes)
      → w.err ≡ none
      → (write_response t lower w bytes).0.err ≡ none
      → stream_payload (write_response t lower w bytes).0.stream ≡ stream_payload w.stream ++ bytes
  write_whole w bytes before after =
      let d = write_response-IsDelivered t lower w bytes before in
      let all = d.whole (sym d.remembers ∙ after) in
      sym (append-nil (stream_payload (write_response t lower w bytes).0.stream))
      ∙ ap (◌++◌ (stream_payload (write_response t lower w bytes).0.stream))
          (sym (drop_all (write_response t lower w bytes).1 bytes (omega (arith, all))))
      ∙ d.delivers

  call-IsSmall :
      (c : WriterCall) (w : ResponseWriter E)
      → w.err ≡ none
      → All IsSmall w.stream
      → All IsSmall (response_call t lower c w).stream
  unfolding response_call
  call-IsSmall begins_completion w clear h = h
  call-IsSmall (sets_headers x) w clear h = h
  call-IsSmall (writes_header code) w clear h = subst (All IsSmall) (sym (status_kept code w).0) h
  call-IsSmall (writes bytes) w clear h = (write_response-IsDelivered t lower w bytes clear).small h

  calls_delivered :
      (calls : List WriterCall) (w : ResponseWriter E)
      → (response_calls t lower calls w).err ≡ none
      → stream_payload (response_calls t lower calls w).stream
        ≡ stream_payload w.stream ++ written calls
  unfolding response_calls response_call written
  calls_delivered [] w done = sym (append-nil (stream_payload w.stream))
  calls_delivered (begins_completion ∷ calls) w done = calls_delivered calls w done
  calls_delivered (sets_headers h ∷ calls) w done =
      calls_delivered calls (record w { header = h }) done
  calls_delivered (writes_header code ∷ calls) w done =
      calls_delivered calls (write_status code w) done
      ∙ ap (λ s. stream_payload s ++ written calls) (status_kept code w).0
  calls_delivered (writes bytes ∷ calls) w done =
      let w' = (write_response t lower w bytes).0 in
      let after = calls_clear calls w' done in
      calls_delivered calls w' done
      ∙ ap (λ p. p ++ written calls)
          (write_whole w bytes (calls_clear (writes bytes ∷ calls) w done) after)
      ∙ append_assoc (stream_payload w.stream) bytes (written calls)

  calls-IsSmall :
      (calls : List WriterCall) (w : ResponseWriter E)
      → (response_calls t lower calls w).err ≡ none
      → All IsSmall w.stream
      → All IsSmall (response_calls t lower calls w).stream
  unfolding response_calls
  calls-IsSmall [] w done h = h
  calls-IsSmall (c ∷ calls) w done h =
      calls-IsSmall calls (response_call t lower c w) done
        (call-IsSmall c w (calls_clear (c ∷ calls) w done) h)

  last_sent :
      (stream : List HttpResponseChunk) (chunk : HttpResponseChunk)
      → (send_last t lower stream chunk).1 ≡ none
      → (send_last t lower stream chunk).0 ≡ stream ++ chunk ∷ []
  unfolding send_last
  last_sent stream chunk ok = elim (Option-cases (t.answer stream chunk)) [
    | inl e ↦ rw (e, send_last) refl
    | inr (x, e) ↦ absurd (cc (rw (e, send_last) at ok))
  ]

  served_clear :
      (calls : List WriterCall)
      → (response_calls t lower calls new_response_writer).err ≡ none
      → stream_routed t lower (served calls)
        ≡ send_last t lower
            (response_calls t lower calls new_response_writer).stream
            (done_chunk t lower)
  unfolding stream_routed
  served_clear calls e = rw (e, stream_routed) refl

  served_failed :
      (calls : List WriterCall) (x : E)
      → (response_calls t lower calls new_response_writer).err ≡ some x
      → (stream_routed t lower (served calls)).1 ≡ some x
  unfolding stream_routed
  served_failed calls x e = rw (e, stream_routed) refl

  -- When HandleStreamRequest serves a request and returns no error, its stream has what the handler
  -- wrote, in order and in chunks of at most 256 KiB, and then one last chunk.
  pub stream_routed-written :
      (calls : List WriterCall)
      → (stream_routed t lower (served calls)).1 ≡ none
      → (body : List HttpResponseChunk) × ((stream_routed t lower (served calls)).0
          ≡ body ++ done_chunk t lower ∷ [])
        × (stream_payload body ≡ written calls)
        × All IsSmall body
  unfolding stream_payload
  stream_routed-written calls ok =
      let w = response_calls t lower calls new_response_writer in
      elim (Option-cases w.err) [
        | inr (x, e) ↦ absurd (cc (sym ok ∙ served_failed calls x e))
        | inl e ↦ (
          w.stream,
          ap (λ r. r.0) (served_clear calls e)
              ∙ last_sent w.stream (done_chunk t lower)
                  (ap (λ r. r.1) (sym (served_clear calls e)) ∙ ok),
          calls_delivered calls new_response_writer e,
          calls-IsSmall calls new_response_writer e _,
        )
      ]

  silent_calls :
      (calls : List WriterCall) (w : ResponseWriter E)
      → All (λ c. is_write c ≡ false) calls
      → ((response_calls t lower calls w).stream ≡ w.stream)
        × ((response_calls t lower calls w).err ≡ w.err)
  unfolding response_calls response_call is_write
  silent_calls [] w quiet = (refl, refl)
  silent_calls (begins_completion ∷ calls) w (q, quiet) = silent_calls calls w quiet
  silent_calls (sets_headers h ∷ calls) w (q, quiet) =
      silent_calls calls (record w { header = h }) quiet
  silent_calls (writes_header code ∷ calls) w (q, quiet) =
      let (s, e) = silent_calls calls (write_status code w) quiet in
      (s ∙ (status_kept code w).0, e ∙ (status_kept code w).1)
  silent_calls (writes bytes ∷ calls) w (q, quiet) = absurd (cc q)

  -- A handler that sets headers and a status and writes no body gets a stream of one chunk, without
  -- its headers and with the status 0.
  pub stream_routed_silent :
      (calls : List WriterCall)
      → All (λ c. is_write c ≡ false) calls
      → stream_routed t lower (served calls)
        ≡ send_last t lower []
            (record { payload = []; done = true; status_code = pos 0; headers = [] })
  stream_routed_silent calls quiet =
      let (s, e) = silent_calls calls new_response_writer quiet in
      served_clear calls e ∙ ap (λ stream. send_last t lower stream (done_chunk t lower)) s
