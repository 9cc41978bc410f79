-- ===== src/Extension/Writer.antt =====
-- streamResponseWriter of runtimego/grpc/extension_server.go. A method is a function from the
-- writer's state to the next one and its result. The gRPC stream is a parameter; the chunks that it
-- took are part of the state. `lower` is strings.ToLower.
pub mod Pieces
pub mod Delivery
use airgate_sdk.Prelude.{
  ℕ, zero, suc, ◌+◌, min, ℤ, pos, eqb_ℤ, to_int32, String, Bool, true, false, Option, none, some,
  List, [], ◌∷◌, ◌++◌, length, take, drop, ltb, if◌then◌else◌,
}
use text.Mathlib.Text.{◌==◌}
use airgate_sdk.Outcome.{Bytes, Header}
use airgate_sdk.Wire.Proto.{ProtoHeaders}
use airgate_sdk.Stream.Sending.{stream_chunk_size, max_response_message_bytes}
use airgate_sdk.Extension.Messages.{HttpResponseChunk}

-- What Send answers may depend on all that was sent before; `size` is proto.Size, `exhausted` the
-- error of a message that is too large.
pub record ChunkStream (E : Type 0) : Type 0 where
  pub answer : List HttpResponseChunk → HttpResponseChunk → Option E
  pub size : HttpResponseChunk → ℕ
  pub exhausted : E

-- `cancelled`: onError was called, which cancels the handler's context.
pub record ResponseWriter (E : Type 0) : Type 0 where
  pub stream : List HttpResponseChunk
  pub header : Header
  pub status_code : ℤ
  pub header_sent : Bool
  pub err : Option E
  pub cancelled : Bool

unfoldable pub put_header : String → List String → ProtoHeaders → ProtoHeaders
put_header k v [] = (k, some v) ∷ []
put_header k v ((k', v') ∷ h) = if k' == k then (k, some v) ∷ h else (k', v') ∷ put_header k v h

-- for k, v := range w.header { chunk.Headers[strings.ToLower(k)] = … }
unfoldable pub lower_headers : (String → String) → Header → ProtoHeaders → ProtoHeaders
unfolding put_header
lower_headers lower [] out = out
lower_headers lower ((k, v) ∷ h) out = lower_headers lower h (put_header (lower k) v out)

abbrev pub new_response_writer : {E : Type 0} → ResponseWriter E
new_response_writer = record {
  stream = [];
  header = [];
  status_code = pos 0;
  header_sent = false;
  err = none;
  cancelled = false;
}

unfoldable pub response_status : ℤ → ℤ
response_status code = if eqb_ℤ code (pos 0) then pos 200 else code

module _ {E : Type 0} where
  unfoldable pub write_status : ℤ → ResponseWriter E → ResponseWriter E
  write_status code w = if w.header_sent then w else record w { status_code = code }

  -- The chunk for these bytes: the first one has the status and the headers.
  unfoldable pub next_chunk : (String → String) → ResponseWriter E → Bytes → HttpResponseChunk
  unfolding lower_headers response_status
  next_chunk lower w bytes =
      if w.header_sent
      then record { payload = bytes; done = false; status_code = pos 0; headers = [] }
      else record {
        payload = bytes;
        done = false;
        status_code = to_int32 (response_status w.status_code);
        headers = lower_headers lower w.header [];
      }

  -- The writer once the headers are in a chunk.
  unfoldable pub begun : ResponseWriter E → ResponseWriter E
  unfolding response_status
  begun w =
      if w.header_sent
      then w
      else record w { header_sent = true; status_code = response_status w.status_code }

module _ {E : Type 0} (t : ChunkStream E) where
  -- checkResponseMessage, then Send
  unfoldable pub send_chunk : List HttpResponseChunk → HttpResponseChunk → Option E
  send_chunk stream chunk =
      if ltb max_response_message_bytes (t.size chunk)
      then some t.exhausted
      else t.answer stream chunk

module _ {E : Type 0} (t : ChunkStream E) (lower : String → String) where
  -- One round of the loop of Write.
  unfoldable pub write_piece : ResponseWriter E → Bytes → ResponseWriter E × Option E
  unfolding next_chunk begun send_chunk
  write_piece w bytes =
      let chunk = next_chunk lower w bytes in
      elim (send_chunk t w.stream chunk) [
        | some e ↦ (record (begun w) { err = some e; cancelled = true }, some e)
        | none ↦ (record (begun w) { stream = w.stream ++ chunk ∷ [] }, none)
      ]

  -- for first := true; first || len(data) > 0; first = false, on fuel
  unfoldable pub write_rounds :
      (fuel : ℕ) → ResponseWriter E → (total : ℕ) → Bytes → ResponseWriter E × ℕ × Option E
  unfolding write_piece
  write_rounds zero w total bytes = (w, total, none)
  write_rounds (suc fuel) w total bytes =
      let n = min (length bytes) stream_chunk_size in
      let (w', failure) = write_piece w (take n bytes) in
      elim failure [
        | some e ↦ (w', total, some e)
        | none ↦ elim (ltb 0 (length (drop n bytes))) [
          | false ↦ (w', total + n, none)
          | true ↦ write_rounds fuel w' (total + n) (drop n bytes)
        ]
      ]

  unfoldable pub write_response : ResponseWriter E → Bytes → ResponseWriter E × ℕ × Option E
  unfolding write_rounds
  write_response w bytes = elim w.err [
    | some e ↦ (w, 0, some e)
    | none ↦ write_rounds (suc (length bytes)) w 0 bytes
  ]
