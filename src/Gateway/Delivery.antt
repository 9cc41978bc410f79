-- ===== src/Gateway/Delivery.antt =====
-- What ForwardStream puts on the wire when it succeeds.
use airgate_sdk.Prelude.{
  ℤ, String, ◌≡◌, refl, ap, ◌∙◌, ◌⊎◌, inl, inr, true, ◌||◌, Option, none, some, List, [], ◌∷◌, ◌++◌,
  append-nil, length, ◌≤◌, arith, Bool-cases, Option-cases,
}
use airgate_sdk.Outcome.{Bytes, ForwardOutcome}
use airgate_sdk.Wire.Proto.{ForwardChunk, ProtoOutcome}
use airgate_sdk.Wire.Verdicts.{outcome_to_proto}
use airgate_sdk.Stream.Sending.{Transport, send, stream_chunk_size}
use airgate_sdk.Stream.Pieces.{payloads, payloads-append, IsFramed, IsStarted-IsFramed}
use airgate_sdk.Stream.Phases.{flush_meta-Flushed}
use airgate_sdk.Stream.{StreamWriter, new_writer, flush_meta}
use airgate_sdk.Gateway.Server.{
  WriterCall, Merged, raised, verdict, merge_error, default_duration, check_outcome_message,
  final_chunk, run_calls, flush_if_used, send_final, finish_stream, forward_stream,
}
use airgate_sdk.Gateway.Calls.{written, Holds, run_calls-Holds, new_writer-Holds}

-- The verdict that reaches the wire: the plugin's own, or it without its diagnostic.
abbrev pub IsSent : {F : Type 0} → ForwardOutcome F → ProtoOutcome F → Type 0
IsSent o p =
    (p ≡ outcome_to_proto o) ⊎ (p ≡ record (outcome_to_proto o) { final_error_diagnostic = none })

-- The stream of a call that succeeded: a framed response and one last chunk, which carries the
-- verdict `o`, with all the bytes in order.
pub record Delivers {F : Type 0} (bytes : Bytes) (o : ForwardOutcome F)
    (stream : List (ForwardChunk F)) : Type 0 where
  pub response : List (ForwardChunk F)
  pub tail : Bytes
  pub outcome : ProtoOutcome F
  pub framed : IsFramed response
  pub carried : IsSent o outcome
  pub bounded : length tail ≤ stream_chunk_size
  pub shape : stream ≡ response ++ final_chunk tail outcome ∷ []
  pub complete : payloads stream ≡ bytes

module _ {F E : Type 0} (t : Transport F E) where
  flush_if_used-Holds :
      (w : StreamWriter F E) (bytes : Bytes)
      → Holds w bytes
      → (flush_if_used t w).1 ≡ none
      → Holds (flush_if_used t w).0 bytes
  unfolding flush_if_used
  flush_if_used-Holds w bytes h q = elim (Bool-cases (w.sent || w.wrote_header)) [
    | inr unused ↦ rw (unused, flush_if_used) h
    | inl used ↦ rw (used, flush_if_used) (flushed used)
  ]
    where
      flushed : (w.sent || w.wrote_header) ≡ true → Holds (flush_meta t w).0 bytes
      flushed used = elim (flush_meta-Flushed t w h.0) [
        | inl (ready, _, same, _) ↦ (inr ready, same ∙ h.1)
        | inr (e, _, failed) ↦ absurd (ground arith)
      ]

  send_final_lem :
      (w : StreamWriter F E) (o : ForwardOutcome F)
      → (send_final t w o).1 ≡ none
      → (p : ProtoOutcome F) × IsSent o p
        × ((send_final t w o).0 ≡ w.stream ++ final_chunk w.completion_tail p ∷ [])
  unfolding send_final send check_outcome_message
  send_final_lem w o q = (
    (check_outcome_message t (λ p. t.size (final_chunk w.completion_tail p))
        (outcome_to_proto o)).0,
    ground arith,
    ground arith,
  )

  Holds-IsFramed : (w : StreamWriter F E) (bytes : Bytes) → Holds w bytes → IsFramed w.stream
  Holds-IsFramed w bytes (inl h, _) = rw h.empty tt
  Holds-IsFramed w bytes (inr h, _) = IsStarted-IsFramed w.stream h.started

  Holds-bounded :
      (w : StreamWriter F E) (bytes : Bytes)
      → Holds w bytes
      → length w.completion_tail ≤ stream_chunk_size
  Holds-bounded w bytes (inl h, _) = rw h.no_tail (omega arith)
  Holds-bounded w bytes (inr h, _) = h.tail_bounded

  payloads-final : (tail : Bytes) (p : ProtoOutcome F) → payloads (final_chunk tail p ∷ []) ≡ tail
  unfolding final_chunk
  payloads-final tail p = append-nil tail

  send_final-Delivers :
      (w : StreamWriter F E) (bytes : Bytes) (o : ForwardOutcome F)
      → Holds w bytes
      → (send_final t w o).1 ≡ none
      → Delivers bytes o (send_final t w o).0
  send_final-Delivers w bytes o h q =
      let (p, carried, shape) = send_final_lem w o q in
      record {
        response = w.stream;
        tail = w.completion_tail;
        outcome = p;
        framed = Holds-IsFramed w bytes h;
        carried = carried;
        bounded = Holds-bounded w bytes h;
        shape = shape;
        complete =
            ap payloads shape
            ∙ payloads-append w.stream (final_chunk w.completion_tail p ∷ [])
            ∙ ap (◌++◌ (payloads w.stream)) (payloads-final w.completion_tail p)
            ∙ h.1;
      }

  finish_stream-Delivers :
      (elapsed : ℤ) (w : StreamWriter F E) (bytes : Bytes) (o : ForwardOutcome F)
      → Holds w bytes
      → (finish_stream t elapsed w (verdict o)).1 ≡ none
      → Delivers bytes (default_duration elapsed o) (finish_stream t elapsed w (verdict o)).0
  unfolding finish_stream
  finish_stream-Delivers elapsed w bytes o h q = elim (Option-cases (flush_if_used t w).1) [
    | inr (e, failed) ↦ absurd (ground arith)
    | inl fine ↦
        rw (fine, finish_stream)
          (send_final-Delivers (flush_if_used t w).0 bytes (default_duration elapsed o)
            (flush_if_used-Holds w bytes h fine) (ground arith))
  ]

module _ {F E : Type 0} (t : Transport F E) (text : E → String) (elapsed : ℤ) where
  forward_stream_failed :
      (calls : List WriterCall) (o : ForwardOutcome F) (failure : Option E) (e : E)
      → (run_calls t calls new_writer).err ≡ some e
      → forward_stream t text elapsed calls o failure
        ≡ ((run_calls t calls new_writer).stream, some e)
  unfolding forward_stream
  forward_stream_failed calls o failure e h = ground arith

  forward_stream_alive :
      (calls : List WriterCall) (o : ForwardOutcome F) (failure : Option E)
      → (run_calls t calls new_writer).err ≡ none
      → forward_stream t text elapsed calls o failure
        ≡ finish_stream t elapsed (run_calls t calls new_writer) (merge_error text o failure)
  unfolding forward_stream
  forward_stream_alive calls o failure h = ground arith

  Holds-alive : (w : StreamWriter F E) (bytes : Bytes) → Holds w bytes → w.err ≡ none
  Holds-alive w bytes (inl h, _) = h.alive
  Holds-alive w bytes (inr h, _) = h.alive

  merged-Delivers :
      (w : StreamWriter F E) (bytes : Bytes) (m : Merged F E)
      → Holds w bytes
      → (finish_stream t elapsed w m).1 ≡ none
      → (v : ForwardOutcome F) × (m ≡ verdict v)
        × Delivers bytes (default_duration elapsed v) (finish_stream t elapsed w m).0
  unfolding finish_stream
  merged-Delivers w bytes (raised e) h q = cc
  merged-Delivers w bytes (verdict v) h q =
      (v, refl, finish_stream-Delivers t elapsed w bytes v h q)

  -- A call that succeeds had a verdict, and its stream delivers every byte that the plugin wrote,
  -- in order, in chunks of bounded size, with that verdict on its last chunk: with the time of the
  -- call if it had no duration, and at most without its diagnostic.
  pub forward_stream-Delivers :
      (calls : List WriterCall) (o : ForwardOutcome F) (failure : Option E)
      → (forward_stream t text elapsed calls o failure).1 ≡ none
      → (v : ForwardOutcome F) × (merge_error text o failure ≡ verdict v)
        × Delivers
            (written calls)
            (default_duration elapsed v)
            (forward_stream t text elapsed calls o failure).0
  forward_stream-Delivers calls o failure q =
      elim (run_calls-Holds t calls new_writer [] (new_writer-Holds t)) [
        | inr (e, failed) ↦ absurd (ground (arith, forward_stream_failed calls o failure e failed))
        | inl h ↦
            let same = forward_stream_alive calls o failure (Holds-alive _ _ h) in
            rw same (merged-Delivers _ (written calls) _ h (rw same at q))
      ]
