-- ===== src/Gateway/Client.antt =====
-- GatewayGRPCClient.forwardStream of runtimego/grpc/gateway_client.go: what Core does with the
-- chunks of a call. The stream is the list of what Recv returns, the writer of the HTTP client is
-- not part of the repository: `accept` is what its Write answers, given all that it was given.
use airgate_sdk.Prelude.{
  ℕ, ℤ, pos, eqb_ℤ, String, Bool, true, false, not, ◌||◌, ◌&&◌, ◌==◌, Option, none, some, List, [],
  ◌∷◌, ◌++◌, length, if◌then◌else◌,
}
use airgate_sdk.Outcome.{Bytes, Header, OutcomeKind, ForwardOutcome, scope_terminal}
use airgate_sdk.Wire.Proto.{ProtoOutcome, ForwardChunk}
use airgate_sdk.Wire.Headers.{headers_from_proto}
use airgate_sdk.Gateway.Texts.{write_failure_text}
use airgate_sdk.Wire.Verdicts.{outcome_from_proto, no_outcome}

-- The writer of the HTTP client: its headers, the statuses of its WriteHeader calls, and the
-- payloads that it was given.
pub record Downstream : Type 0 where
  pub headers : Header
  pub statuses : List ℤ
  pub body : Bytes

-- What Recv returns at the end.
pub data End (E : Type 0) : Type 0 where
  end_of_file : End E
  broken : E → End E

pub data CallError (E : Type 0) : Type 0 where
  receive_failed : E → CallError E
  write_failed : E → CallError E
  no_final_outcome : CallError E

-- Write of the HTTP client's writer, http.Header.Add, the text of an error, and io.ErrShortWrite.
pub record Sink (E : Type 0) : Type 0 where
  pub accept : Bytes → Bytes → ℕ × Option E
  pub add_header : String → String → Header → Header
  pub failure_text : E → String
  pub short_write : E

pub record Received (F E : Type 0) : Type 0 where
  pub downstream : Downstream
  pub outcome : ForwardOutcome F
  pub error : Option (CallError E)

is_empty : {A : Type 0} → List A → Bool
is_empty [] = true
is_empty (x ∷ xs) = false

module _ {F : Type 0} where
  -- The outcome that a chunk carries, if it is the last one.
  unfoldable pub final_of : ForwardChunk F → Option (ForwardOutcome F)
  final_of c = if c.done then carried c.final_outcome else none
    where
      carried : Option (ProtoOutcome F) → Option (ForwardOutcome F)
      carried none = none
      carried (some p) = some (outcome_from_proto (some p))

  starts_response : ForwardChunk F → Bool
  unfolding is_empty
  starts_response c =
      not (eqb_ℤ c.status_code (pos 0)) || (not (is_empty c.headers) || not (is_empty c.payload))

module _ {E : Type 0} (sink : Sink E) where
  unfoldable pub write_error : Downstream → Bytes → Option E
  write_error d bytes =
      let (n, failure) = sink.accept d.body bytes in
      elim failure [
        | some e ↦ some e
        | none ↦ if n == length bytes then none else some sink.short_write
      ]

  -- A payload that is not empty is written.
  unfoldable pub deliver : Bytes → Downstream → Downstream × Option E
  unfolding write_error
  deliver [] d = (d, none)
  deliver (b ∷ bytes) d = (record d { body = d.body ++ b ∷ bytes }, write_error d (b ∷ bytes))

abbrev pub untouched : Downstream
untouched = record { headers = []; statuses = []; body = [] }

-- The loop over the values of a key, and that over the keys.
unfoldable pub give_values :
    (String → String → Header → Header) → String → List String → Header → Header
give_values add k [] h = h
give_values add k (v ∷ values) h = give_values add k values (add k v h)

unfoldable pub give_headers : (String → String → Header → Header) → (more h : Header) → Header
unfolding give_values
give_headers add [] h = h
give_headers add ((k, values) ∷ more) h = give_headers add more (give_values add k values h)

module _ {F E : Type 0} (sink : Sink E) where
  -- The first chunk that says anything gives the response its headers and its status.
  unfoldable pub begin_response : Bool → ForwardChunk F → Downstream → Bool × Downstream
  unfolding starts_response give_headers
  begin_response started c d =
      if not started && starts_response c
      then (
        true,
        record d {
          headers = give_headers sink.add_header (headers_from_proto c.headers) d.headers;
          statuses =
              d.statuses ++ (if eqb_ℤ c.status_code (pos 0) then pos 200 else c.status_code) ∷ [];
        },
      )
      else (started, d)

  -- A last chunk that was not delivered: its usage is kept, and it is no success.
  unfoldable pub aborted : Option (ForwardOutcome F) → E → ForwardOutcome F
  aborted none e = no_outcome
  aborted (some o) e = record o {
    kind = OutcomeKind.stream_aborted;
    failover_scope = scope_terminal;
    reason = write_failure_text (sink.failure_text e);
  }

  unfoldable pub receive : Bool → Downstream → List (ForwardChunk F) → End E → Received F E
  unfolding aborted
  receive started d [] end_of_file = record {
    downstream = d;
    outcome = no_outcome;
    error = some no_final_outcome;
  }
  receive started d [] (broken e) = record {
    downstream = d;
    outcome = no_outcome;
    error = some (receive_failed e);
  }
  receive started d (c ∷ cs) last =
      let begun = begin_response started c d in
      let delivered = deliver sink c.payload begun.1 in
      let rest = receive begun.0 delivered.0 cs last in
      elim delivered.1 [
        | some e ↦ record {
          downstream = delivered.0;
          outcome = aborted (final_of c) e;
          error = some (write_failed e);
        }
        | none ↦ elim (final_of c) [
          | some o ↦ record { downstream = delivered.0; outcome = o; error = none }
          | none ↦ rest
        ]
      ]

  -- forwardStream, once the stream is open
  unfoldable pub forward_stream : List (ForwardChunk F) → End E → Received F E
  unfolding receive
  forward_stream chunks last = receive false untouched chunks last
