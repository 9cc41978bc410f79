-- ===== src/Stream/Sending.antt =====
-- Sending on the gRPC stream, and the two loops of streamWriter.Write that cut bytes into chunks.
use airgate_sdk.Prelude.{
  ℕ, zero, suc, ◌+◌, ◌-◌, ◌*◌, min, pos, true, false, Option, none, some, List, [], ◌∷◌, ◌++◌,
  length, take, drop, ltb, if◌then◌else◌,
}
use airgate_sdk.Outcome.{Bytes}
use airgate_sdk.Wire.Proto.{ForwardChunk}

-- The gRPC stream is not part of the repository: what Send answers to a chunk may depend on all
-- that was sent before. `size` is proto.Size, `exhausted` and `body_exhausted` the errors of status.Error.
pub record Transport (F E : Type 0) : Type 0 where
  pub answer : List (ForwardChunk F) → ForwardChunk F → Option E
  pub size : ForwardChunk F → ℕ
  pub exhausted : E
  pub body_exhausted : E

abbrev pub stream_chunk_size : ℕ
stream_chunk_size = 256 * 1024

-- MaxResponseMessageBytes
abbrev pub max_response_message_bytes : ℕ
max_response_message_bytes = 112 * 1024 * 1024

-- MaxBufferedResponseBytes
abbrev pub max_buffered_response_bytes : ℕ
max_buffered_response_bytes = 96 * 1024 * 1024

-- &pb.ForwardChunk{Data: bytes}
abbrev pub data_chunk : {F : Type 0} → Bytes → ForwardChunk F
data_chunk bytes = record {
  payload = bytes;
  done = false;
  final_outcome = none;
  status_code = pos 0;
  headers = [];
}

-- How far a loop of Write came: the stream, the bytes that it did not send, its error.
pub record Progress (F E : Type 0) : Type 0 where
  pub stream : List (ForwardChunk F)
  pub rest : Bytes
  pub failure : Option E

module _ {F E : Type 0} (t : Transport F E) where
  unfoldable pub check_response_message : ForwardChunk F → Option E
  check_response_message chunk =
      if ltb max_response_message_bytes (t.size chunk) then some t.exhausted else none

  -- stream.Send
  unfoldable pub send : List (ForwardChunk F) → ForwardChunk F → List (ForwardChunk F) × Option E
  send stream chunk = (stream ++ chunk ∷ [], t.answer stream chunk)

  -- for sendBytes > 0 { n := min(sendBytes, limit); send data[:n]; data = data[n:]; … }
  unfoldable pub send_pieces : (limit fuel : ℕ) → List (ForwardChunk F) → ℕ → Bytes → Progress F E
  send_pieces limit zero stream send_bytes bytes = record {
    stream = stream;
    rest = bytes;
    failure = none;
  }
  send_pieces limit (suc fuel) stream send_bytes bytes = elim (ltb 0 send_bytes) [
    | false ↦ record { stream = stream; rest = bytes; failure = none }
    | true ↦
        let n = min send_bytes limit in
        let chunk = data_chunk (take n bytes) in
        elim (t.answer stream chunk) [
          | some e ↦ record { stream = stream ++ chunk ∷ []; rest = bytes; failure = some e }
          | none ↦ send_pieces limit fuel (stream ++ chunk ∷ []) (send_bytes - n) (drop n bytes)
        ]
  ]

  -- for offset := 0; offset < total; offset += limit { send data[offset:end] }
  unfoldable pub send_offsets : (limit fuel : ℕ) → List (ForwardChunk F) → ℕ → Bytes → Progress F E
  send_offsets limit zero stream offset bytes = record {
    stream = stream;
    rest = drop offset bytes;
    failure = none;
  }
  send_offsets limit (suc fuel) stream offset bytes = elim (ltb offset (length bytes)) [
    | false ↦ record { stream = stream; rest = drop offset bytes; failure = none }
    | true ↦
        let stop = if ltb (length bytes) (offset + limit) then length bytes else offset + limit in
        let chunk = data_chunk (take (stop - offset) (drop offset bytes)) in
        elim (t.answer stream chunk) [
          | some e ↦ record {
            stream = stream ++ chunk ∷ [];
            rest = drop offset bytes;
            failure = some e;
          }
          | none ↦ send_offsets limit fuel (stream ++ chunk ∷ []) (offset + limit) bytes
        ]
  ]
