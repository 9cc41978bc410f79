-- ===== src/Tests/Gateway.antt =====
-- Streaming calls, from the plugin's writes to the HTTP client.
use airgate_sdk.Prelude.{
  ℕ, String, ◌≡◌, refl, ◌⊎◌, false, none, some, List, [], ◌∷◌, pos, arith, ap, length,
}
use airgate_sdk.Outcome.{ForwardOutcome, is_unknown, should_failover}
use airgate_sdk.Wire.Kinds.{declared}
use airgate_sdk.Wire.Headers.{headers_to_proto}
use airgate_sdk.Stream.{
  StreamWriter, new_writer, meta_chunk, write, flush_meta, write_completing, write_ordinary,
  write_header, begin_stream_completion,
}
use airgate_sdk.Stream.Sending.{data_chunk, check_response_message, send, send_pieces, send_offsets}
use airgate_sdk.Gateway.Server
use airgate_sdk.Gateway.Client
use airgate_sdk.Gateway.Server.{
  WriterCall, begins_completion, sets_headers, writes_header, writes, run_calls, merge_error,
  verdict, default_duration, flush_if_used, final_chunk, writer_call, give_reason, raised,
}
use airgate_sdk.Gateway.Client.{receive, untouched}
use airgate_sdk.Gateway.Calls.{Holds, run_calls-Holds, run_calls_failed, new_writer-Holds}
use airgate_sdk.Gateway.Delivery.{Delivers, forward_stream-Delivers}
use airgate_sdk.Gateway.Receiving.{receive_error-should_failover}
use airgate_sdk.Gateway.Success.{forward_stream_succeeds, IsSmallFinal}
use airgate_sdk.Stream.Open.{IsOpen}
use airgate_sdk.Gateway.EndToEnd.{stream_end_to_end}
use airgate_sdk.Tests.{open_transport, open_sink, succeeded}

abbrev calls : List WriterCall
calls = writes_header (pos 201) ∷ writes (1 ∷ 2 ∷ []) ∷ begins_completion ∷ writes (3 ∷ []) ∷ []

abbrev empty_writer : StreamWriter ℕ String
empty_writer = new_writer

run_calls-Holds_example :
    Holds (run_calls open_transport calls empty_writer) (1 ∷ 2 ∷ 3 ∷ [])
    ⊎ ((e : String) × ((run_calls open_transport calls empty_writer).err ≡ some e))
run_calls-Holds_example =
    run_calls-Holds open_transport calls empty_writer [] (new_writer-Holds open_transport)

run_calls_failed_example :
    ((run_calls open_transport calls (record empty_writer { err = some "gone" })).err ≡ some "gone")
    × ((run_calls open_transport calls (record empty_writer { err = some "gone" })).stream ≡ [])
run_calls_failed_example =
    run_calls_failed open_transport calls (record empty_writer { err = some "gone" }) "gone" refl

open_transport-IsOpen : IsOpen open_transport
open_transport-IsOpen = record { takes = λ sent c. refl }

merged_late :
    merge_error (λ e. e) succeeded (some "late") ≡ verdict (record succeeded { reason = "late" })
unfolding merge_error is_unknown give_reason
merged_late = refl

held :
    (flush_if_used open_transport (run_calls open_transport calls empty_writer)).0.completion_tail
    ≡ 3 ∷ []
unfolding flush_if_used run_calls writer_call write_header begin_stream_completion write flush_meta
    write_completing write_ordinary check_response_message send send_pieces send_offsets meta_chunk
    headers_to_proto
held = refl

late_final :
    IsSmallFinal open_transport
      (flush_if_used open_transport (run_calls open_transport calls empty_writer)).0
      (default_duration (pos 5) (record succeeded { reason = "late" }))
unfolding final_chunk
late_final = omega (arith, ap length held)

forward_stream_succeeds_example :
    (Server.forward_stream open_transport (λ e. e) (pos 5) calls succeeded (some "late")).1 ≡ none
unfolding merge_error meta_chunk headers_to_proto
forward_stream_succeeds_example =
    forward_stream_succeeds open_transport open_transport-IsOpen (λ e. e) (pos 5) calls succeeded
      (record succeeded { reason = "late" }) (some "late") merged_late (omega arith)
      (λ s. omega arith) late_final

plain_final :
    IsSmallFinal open_transport
      (flush_if_used open_transport (run_calls open_transport calls empty_writer)).0
      (default_duration (pos 5) succeeded)
unfolding final_chunk
plain_final = omega (arith, ap length held)

sent : (Server.forward_stream open_transport (λ e. e) (pos 5) calls succeeded none).1 ≡ none
unfolding merge_error meta_chunk headers_to_proto
sent =
    forward_stream_succeeds open_transport open_transport-IsOpen (λ e. e) (pos 5) calls succeeded
      succeeded none refl (omega arith) (λ s. omega arith) plain_final

forward_stream-Delivers_example :
    (v : ForwardOutcome ℕ) × (merge_error {E = String} (λ e. e) succeeded none ≡ verdict v)
    × Delivers
        (1 ∷ 2 ∷ 3 ∷ [])
        (default_duration (pos 5) v)
        (Server.forward_stream open_transport (λ e. e) (pos 5) calls succeeded none).0
forward_stream-Delivers_example =
    forward_stream-Delivers open_transport (λ e. e) (pos 5) calls succeeded none sent

receive_error-should_failover_example :
    ((receive open_sink false untouched (data_chunk {F = ℕ} (1 ∷ []) ∷ []) Client.end_of_file).error
      ≡ none)
    ⊎ (should_failover
          (receive open_sink false untouched
            (data_chunk {F = ℕ} (1 ∷ []) ∷ [])
            Client.end_of_file).outcome
        ≡ false)
receive_error-should_failover_example =
    receive_error-should_failover open_sink (data_chunk (1 ∷ []) ∷ []) false untouched
      Client.end_of_file

stream_end_to_end_example :
    let r =
      Client.forward_stream open_sink
        (Server.forward_stream open_transport (λ e. e) (pos 5) calls succeeded none).0
        Client.end_of_file in
    (v : ForwardOutcome ℕ) × (merge_error {E = String} (λ e. e) succeeded none ≡ verdict v)
    × (r.error ≡ none)
    × (r.downstream.body ≡ 1 ∷ 2 ∷ 3 ∷ [])
    × (r.outcome.kind ≡ declared v.kind)
    × (r.outcome.failover_scope ≡ v.failover_scope)
    × (r.outcome.usage ≡ v.usage)
stream_end_to_end_example =
    stream_end_to_end open_transport (λ e. e) (pos 5) open_sink (λ body bytes. refl)
      Client.end_of_file calls succeeded none sent
