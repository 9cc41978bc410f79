-- ===== src/Gateway/Server.antt =====
-- GatewayGRPCServer.ForwardStream of runtimego/grpc/gateway_server.go and checkOutcomeMessage of
-- runtimego/grpc/response_limits.go. The plugin is not part of the repository: a run of it is the
-- list of calls that it makes on its writer, its verdict and its error. Logging is left out.
use airgate_sdk.Prelude.{
  ℕ, ℤ, pos, eqb_ℤ, String, true, ◌||◌, Option, none, some, List, [], ◌∷◌, length, ltb,
  if◌then◌else◌,
}
use text.Mathlib.Text.{◌==◌}
use airgate_sdk.Outcome.{Bytes, Header, ForwardOutcome, is_unknown}
use airgate_sdk.Wire.Proto.{ProtoOutcome, ProtoUpstream, ForwardChunk}
use airgate_sdk.Wire.Verdicts.{outcome_to_proto}
use airgate_sdk.Stream.Sending.{
  Transport, send, max_response_message_bytes, max_buffered_response_bytes,
}
use airgate_sdk.Stream.{
  StreamWriter, new_writer, begin_stream_completion, set_headers, write_header, flush_meta, write,
}

-- A call of the plugin on its writer.
pub data WriterCall : Type 0 where
  begins_completion : WriterCall
  sets_headers : Header → WriterCall
  writes_header : ℤ → WriterCall
  writes : Bytes → WriterCall

pub data Merged (F E : Type 0) : Type 0 where
  raised : E → Merged F E
  verdict : ForwardOutcome F → Merged F E

unfoldable pub upstream_body : Option ProtoUpstream → Bytes
upstream_body none = []
upstream_body (some u) = u.body

module _ {F : Type 0} where
  unfoldable pub give_reason : String → ForwardOutcome F → ForwardOutcome F
  give_reason text o = if o.reason == "" then record o { reason = text } else o

  unfoldable pub default_duration : ℤ → ForwardOutcome F → ForwardOutcome F
  default_duration elapsed o =
      if eqb_ℤ o.duration (pos 0) then record o { duration = elapsed } else o

  unfoldable pub final_chunk : Bytes → ProtoOutcome F → ForwardChunk F
  final_chunk tail p = record {
    payload = tail;
    done = true;
    final_outcome = some p;
    status_code = pos 0;
    headers = [];
  }

module _ {F E : Type 0} where
  -- An error is passed on only if the plugin gave no verdict; otherwise it becomes the reason.
  unfoldable pub merge_error : (E → String) → ForwardOutcome F → Option E → Merged F E
  unfolding give_reason
  merge_error text o none = verdict o
  merge_error text o (some e) =
      if is_unknown o.kind then raised e else verdict (give_reason (text e) o)

  -- checkOutcomeMessage: `size` is the size of the message around the outcome.
  unfoldable pub check_outcome_message :
      Transport F E → (ProtoOutcome F → ℕ) → ProtoOutcome F → ProtoOutcome F × Option E
  unfolding upstream_body
  check_outcome_message t size p =
      if ltb max_buffered_response_bytes (length (upstream_body p.upstream))
      then (p, some t.body_exhausted)
      else if ltb max_response_message_bytes (size p)
      then (let bare = record p { final_error_diagnostic = none } in
          (bare, if ltb max_response_message_bytes (size bare) then some t.exhausted else none))
      else (p, none)

module _ {F E : Type 0} (t : Transport F E) where
  unfoldable pub writer_call : WriterCall → StreamWriter F E → StreamWriter F E
  writer_call begins_completion w = begin_stream_completion w
  writer_call (sets_headers h) w = set_headers h w
  writer_call (writes_header status) w = write_header status w
  writer_call (writes bytes) w = (write t w bytes).0

  unfoldable pub run_calls : List WriterCall → StreamWriter F E → StreamWriter F E
  unfolding writer_call
  run_calls [] w = w
  run_calls (c ∷ cs) w = run_calls cs (writer_call c w)

  -- The status and the headers go out if the plugin wrote or gave a status.
  unfoldable pub flush_if_used : StreamWriter F E → StreamWriter F E × Option E
  flush_if_used w = if w.sent || w.wrote_header then flush_meta t w else (w, none)

  unfoldable pub send_final : StreamWriter F E → ForwardOutcome F → List (ForwardChunk F) × Option E
  unfolding send
  send_final w o =
      let checked =
        check_outcome_message t (λ p. t.size (final_chunk w.completion_tail p))
          (outcome_to_proto o) in
      elim checked.1 [
        | some e ↦ (w.stream, some e)
        | none ↦ send t w.stream (final_chunk w.completion_tail checked.0)
      ]

  unfoldable pub finish_stream :
      ℤ → StreamWriter F E → Merged F E → List (ForwardChunk F) × Option E
  finish_stream elapsed w (raised e) = (w.stream, some e)
  finish_stream elapsed w (verdict o) =
      let flushed = flush_if_used w in
      elim flushed.1 [
        | some e ↦ (flushed.0.stream, some e)
        | none ↦ send_final flushed.0 (default_duration elapsed o)
      ]

  -- ForwardStream: the chunks that were handed to the stream, and the error of the call.
  unfoldable pub forward_stream :
      (E → String)
      → ℤ
      → List WriterCall
      → ForwardOutcome F
      → Option E
      → List (ForwardChunk F) × Option E
  unfolding finish_stream
  forward_stream text elapsed calls o failure =
      let w = run_calls calls new_writer in
      elim w.err [
        | some e ↦ (w.stream, some e)
        | none ↦ finish_stream elapsed w (merge_error text o failure)
      ]
