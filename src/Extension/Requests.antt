-- ===== src/Extension/Requests.antt =====
-- HandleRequest, HandleStreamRequest and pbRequestToHTTP of runtimego/grpc/extension_server.go. A
-- handler's run is the list of its calls on the response writer; Flush does nothing. Logging is left
-- out, and so is the context that is cancelled when a writer fails.
pub mod Streams
use airgate_sdk.Prelude.{
  ℕ, ℤ, pos, eqb_ℤ, to_int32, String, Bool, true, false, ◌⊎◌, inl, inr, Option, none, some, List,
  [], ◌∷◌, ◌++◌, length, ltb, if◌then◌else◌,
}
use airgate_sdk.Outcome.{Bytes, Header}
use airgate_sdk.Wire.Proto.{ProtoHeaders}
use airgate_sdk.Stream.Sending.{max_response_message_bytes}
use airgate_sdk.Gateway.Server.{WriterCall, begins_completion, sets_headers, writes_header, writes}
use airgate_sdk.Gateway.Unary.{BufferWriter, Limits, new_buffer, buffer_calls}
use airgate_sdk.Extension.Router.{Routes, match}
use airgate_sdk.Extension.Messages.{HttpRequest, HttpResponse, HttpResponseChunk}
use airgate_sdk.Extension.Writer.{
  ChunkStream, ResponseWriter, new_response_writer, lower_headers, response_status, write_status,
  write_response,
}

-- *http.Request
pub record GoRequest : Type 0 where
  pub method : Bytes
  pub url : Bytes
  pub headers : Header
  pub body : Bytes
  pub remote_addr : String

-- strings.ToUpper and ToLower, the bytes of a literal, http.NewRequestWithContext (none on an error),
-- and http.Header.Add.
pub record Library : Type 0 where
  pub upper : Bytes → Bytes
  pub lower : String → String
  pub literal : String → Bytes
  pub new_request : (method url body : Bytes) → Option GoRequest
  pub add_header : String → String → Header → Header

-- The loop of pbRequestToHTTP over the values of one key.
unfoldable pub add_values :
    (String → String → Header → Header) → String → List String → Header → Header
add_values add k [] h = h
add_values add k (v ∷ values) h = add_values add k values (add k v h)

-- And over the keys. No entry that came over the wire is nil; here one is passed over.
unfoldable pub add_headers : (String → String → Header → Header) → ProtoHeaders → Header → Header
unfolding add_values
add_headers add [] h = h
add_headers add ((k, none) ∷ entries) h = add_headers add entries h
add_headers add ((k, some values) ∷ entries) h = add_headers add entries (add_values add k values h)

unfoldable pub request_url : (path query : Bytes) → Bytes
request_url path [] = path
request_url path (b ∷ query) = path ++ b'?' ∷ b ∷ query

-- pbRequestToHTTP
unfoldable pub to_go_request : Library → HttpRequest → Option GoRequest
unfolding add_headers request_url
to_go_request lib r = elim (lib.new_request r.method (request_url r.path r.query) r.body) [
  | none ↦ none
  | some q ↦ some (record q {
    headers = add_headers lib.add_header r.headers q.headers;
    remote_addr = r.remote_addr;
  })
]

-- Why a request does not come to a handler, or the calls of its handler.
pub data Routed : Type 0 where
  refused : (status : ℤ) → (body : Bytes) → Routed
  served : List WriterCall → Routed

module _ {H : Type 0} (lib : Library) (serve : H → GoRequest → List WriterCall) where
  -- The first part of both methods: the router, its match, and the request of net/http.
  unfoldable pub route_request : Option (Routes H) → HttpRequest → Routed
  route_request none r =
      refused (pos 501) (lib.literal "{\"error\":\"extension router not initialized\"}")
  route_request (some routes) r = elim (match lib.upper routes r.method r.path) [
    | none ↦ refused (pos 404) (lib.literal "{\"error\":\"route not found\"}")
    | some handler ↦ elim (to_go_request lib r) [
      | none ↦ refused (pos 500) (lib.literal "{\"error\":\"failed to convert request\"}")
      | some request ↦ served (serve handler request)
    ]
  ]

module _ {E : Type 0} (t : ChunkStream E) (lower : String → String) where
  -- A call on the writer of a stream. BeginStreamCompletion is none of its methods.
  unfoldable pub response_call : WriterCall → ResponseWriter E → ResponseWriter E
  response_call begins_completion w = w
  response_call (sets_headers h) w = record w { header = h }
  response_call (writes_header status) w = write_status status w
  response_call (writes bytes) w = (write_response t lower w bytes).0

  unfoldable pub response_calls : List WriterCall → ResponseWriter E → ResponseWriter E
  unfolding response_call
  response_calls [] w = w
  response_calls (c ∷ calls) w = response_calls calls (response_call c w)

  -- stream.Send of the last chunk, as what the method returns.
  unfoldable pub send_last :
      List HttpResponseChunk → HttpResponseChunk → List HttpResponseChunk × Option E
  send_last stream chunk = elim (t.answer stream chunk) [
    | some e ↦ (stream, some e)
    | none ↦ (stream ++ chunk ∷ [], none)
  ]

  abbrev pub done_chunk : HttpResponseChunk
  done_chunk = record { payload = []; done = true; status_code = pos 0; headers = [] }

  -- HandleStreamRequest, once the request is routed: the stream, and its error.
  unfoldable pub stream_routed : Routed → List HttpResponseChunk × Option E
  unfolding send_last
  stream_routed (refused status body) =
      send_last [] (record { payload = body; done = true; status_code = status; headers = [] })
  stream_routed (served calls) =
      let w = response_calls calls new_response_writer in
      elim w.err [ some e ↦ (w.stream, some e) | none ↦ send_last w.stream done_chunk ]

module _ {H E : Type 0} (lib : Library) (serve : H → GoRequest → List WriterCall) where
  unfoldable pub handle_stream_request :
      ChunkStream E → Option (Routes H) → HttpRequest → List HttpResponseChunk × Option E
  handle_stream_request t routes r = stream_routed t lib.lower (route_request lib serve routes r)

  -- The answer of a handler that has written into the buffer.
  unfoldable pub buffered_response : (HttpResponse → ℕ) → E → BufferWriter E → E ⊎ HttpResponse
  buffered_response size exhausted w = elim w.err [
    | some e ↦ inl e
    | none ↦
        let response : HttpResponse = record {
          status_code = to_int32 (response_status w.code);
          headers = lower_headers lib.lower w.headers [];
          body = w.body;
        } in
        if ltb max_response_message_bytes (size response) then inl exhausted else inr response
  ]

  -- HandleRequest; `size` is proto.Size of the response.
  unfoldable pub handle_request :
      (HttpResponse → ℕ) → E → Limits E → Option (Routes H) → HttpRequest → E ⊎ HttpResponse
  unfolding buffered_response
  handle_request size exhausted l routes r = elim (route_request lib serve routes r) [
    | refused status body ↦ inr (record { status_code = status; headers = []; body = body })
    | served calls ↦ buffered_response size exhausted (buffer_calls l calls new_buffer)
  ]
