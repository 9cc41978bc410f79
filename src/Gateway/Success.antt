-- ===== src/Gateway/Success.antt =====
-- When ForwardStream succeeds.
use airgate_sdk.Prelude.{
  ℤ, String, ◌≡◌, refl, sym, ◌∙◌, subst, Option, none, List, [], ◌∷◌, length, ◌≤◌, arith,
}
use airgate_sdk.Outcome.{Header, ForwardOutcome}
use airgate_sdk.Wire.Verdicts.{outcome_to_proto}
use airgate_sdk.Wire.Diagnostics.{upstream_to_proto}
use airgate_sdk.Stream.Sending.{
  Transport, send, max_buffered_response_bytes, max_response_message_bytes,
}
use airgate_sdk.Stream.Open.{IsOpen, IsSmallHead, flush_meta_open, write_open}
use airgate_sdk.Stream.{
  StreamWriter, new_writer, begin_stream_completion, set_headers, write_header, write,
}
use airgate_sdk.Gateway.Server.{
  WriterCall, begins_completion, sets_headers, writes_header, writes, verdict, merge_error,
  default_duration, final_chunk, check_outcome_message, upstream_body, writer_call, run_calls,
  flush_if_used, send_final, finish_stream, forward_stream,
}

-- An upstream body that may be buffered.
abbrev pub HasSmallBody : {F : Type 0} → ForwardOutcome F → Type 0
HasSmallBody o = length o.upstream.body ≤ max_buffered_response_bytes

module _ {F E : Type 0} (t : Transport F E) where
  -- The heads of all the messages with headers that these calls can lead to are small: those of the
  -- writer's headers now, and of each map that a call makes of them.
  abbrev pub HaveSmallHeads : Header → List WriterCall → Type 0
  HaveSmallHeads h [] = IsSmallHead t h
  HaveSmallHeads h (sets_headers h' ∷ cs) = IsSmallHead t h × HaveSmallHeads h' cs
  HaveSmallHeads h (begins_completion ∷ cs) = HaveSmallHeads h cs
  HaveSmallHeads h (writes_header s ∷ cs) = HaveSmallHeads h cs
  HaveSmallHeads h (writes bytes ∷ cs) = HaveSmallHeads h cs

  IsSmallHead-now : (h : Header) (cs : List WriterCall) → HaveSmallHeads h cs → IsSmallHead t h
  IsSmallHead-now h [] small = small
  IsSmallHead-now h (sets_headers h' ∷ cs) small = small.0
  IsSmallHead-now h (begins_completion ∷ cs) small = IsSmallHead-now h cs small
  IsSmallHead-now h (writes_header s ∷ cs) small = IsSmallHead-now h cs small
  IsSmallHead-now h (writes bytes ∷ cs) small = IsSmallHead-now h cs small

  -- The last message of a call that ends with this verdict, without its diagnostic, is within the limit.
  abbrev pub IsSmallFinal : StreamWriter F E → ForwardOutcome F → Type 0
  IsSmallFinal w o =
      t.size (
        final_chunk w.completion_tail
          (record (outcome_to_proto o) { final_error_diagnostic = none }))
      ≤ max_response_message_bytes

module _ {F E : Type 0} (t : Transport F E) (open_t : IsOpen t) where
  write_header_open :
      (s : ℤ) (w : StreamWriter F E)
      → ((write_header s w).err ≡ w.err) × ((write_header s w).headers ≡ w.headers)
  unfolding write_header
  write_header_open s w = (ground arith, ground arith)

  -- A writer without an error, whose head is small.
  abbrev IsFine : StreamWriter F E → Type 0
  IsFine w = (w.err ≡ none) × IsSmallHead t w.headers

  run_calls_open :
      (cs : List WriterCall) (w : StreamWriter F E)
      → w.err ≡ none
      → HaveSmallHeads t w.headers cs
      → IsFine (run_calls t cs w)
  unfolding run_calls writer_call begin_stream_completion set_headers
  run_calls_open [] w alive small = (alive, small)
  run_calls_open (sets_headers h ∷ cs) w alive small =
      run_calls_open cs (set_headers h w) alive small.1
  run_calls_open (begins_completion ∷ cs) w alive small =
      run_calls_open cs (begin_stream_completion w) alive small
  run_calls_open (writes_header s ∷ cs) w alive small =
      let (kept, same) = write_header_open s w in
      run_calls_open cs (write_header s w) (kept ∙ alive)
        (subst (λ h. HaveSmallHeads t h cs) (sym same) small)
  run_calls_open (writes bytes ∷ cs) w alive small =
      let (kept, same) = write_open t open_t w bytes alive (IsSmallHead-now t w.headers cs small) in
      run_calls_open cs (write t w bytes).0 kept
        (subst (λ h. HaveSmallHeads t h cs) (sym same) small)

  flush_if_used_open : (w : StreamWriter F E) → IsFine w → (flush_if_used t w).1 ≡ none
  unfolding flush_if_used
  flush_if_used_open w (alive, small) = ground (arith, flush_meta_open t open_t w alive small)

  check_outcome_open :
      (w : StreamWriter F E) (o : ForwardOutcome F)
      → HasSmallBody o
      → IsSmallFinal t w o
      → (check_outcome_message t
          (λ p. t.size (final_chunk w.completion_tail p))
          (outcome_to_proto o)).1
        ≡ none
  unfolding check_outcome_message upstream_body outcome_to_proto upstream_to_proto
  check_outcome_open w o small fits = ground (arith, fits)

  send_final_open :
      (w : StreamWriter F E) (o : ForwardOutcome F)
      → HasSmallBody o
      → IsSmallFinal t w o
      → (send_final t w o).1 ≡ none
  unfolding send_final send
  send_final_open w o small fits =
      rw (check_outcome_open w o small fits, send_final) (open_t.takes w.stream _)

  default_duration-HasSmallBody :
      (elapsed : ℤ) (o : ForwardOutcome F)
      → HasSmallBody o
      → HasSmallBody (default_duration elapsed o)
  unfolding default_duration
  default_duration-HasSmallBody elapsed o small = ground arith

  finish_stream_open :
      (elapsed : ℤ) (w : StreamWriter F E) (v : ForwardOutcome F)
      → IsFine w
      → HasSmallBody v
      → IsSmallFinal t (flush_if_used t w).0 (default_duration elapsed v)
      → (finish_stream t elapsed w (verdict v)).1 ≡ none
  unfolding finish_stream
  finish_stream_open elapsed w v fine small fits =
      rw (flush_if_used_open w fine, finish_stream)
        (send_final_open (flush_if_used t w).0 (default_duration elapsed v)
          (default_duration-HasSmallBody elapsed v small) fits)

  -- Over a transport that takes every chunk, a call that comes to a verdict ends without an error,
  -- whatever the plugin wrote, if the upstream body may be buffered, the messages that carry the
  -- headers which the plugin set are within the limit, and so is the last one without its diagnostic.
  pub forward_stream_succeeds :
      (text : E → String) (elapsed : ℤ) (calls : List WriterCall) (o v : ForwardOutcome F)
      (failure : Option E)
      → merge_error text o failure ≡ verdict v
      → HasSmallBody v
      → HaveSmallHeads t [] calls
      → IsSmallFinal t
          (flush_if_used t (run_calls t calls new_writer)).0
          (default_duration elapsed v)
      → (forward_stream t text elapsed calls o failure).1 ≡ none
  unfolding forward_stream
  forward_stream_succeeds text elapsed calls o v failure merged small heads fits =
      let fine = run_calls_open calls new_writer refl heads in
      rw (fine.0, merged, forward_stream)
        (finish_stream_open elapsed (run_calls t calls new_writer) v fine small fits)
