-- ===== src/Gateway/Unary.antt =====
-- GatewayGRPCServer.Forward of runtimego/grpc/gateway_server.go and its bufferWriter, checkedOutcome
-- of response_limits.go, and Forward of gateway_client.go without a writer. A plugin's run is the
-- list of its calls on the writer, its verdict and its error. Logging is left out.
pub mod Filled
pub mod Buffered
pub mod Answers
use airgate_sdk.Prelude.{
  ℕ, ◌+◌, ℤ, pos, eqb_ℤ, ltb_ℤ, String, Bool, true, false, not, ◌&&◌, ◌⊎◌, inl, inr, Option, none,
  some, List, [], ◌∷◌, ◌++◌, length, ltb, if◌then◌else◌,
}
use text.Mathlib.Text.{◌==◌}
use airgate_sdk.Outcome.{Bytes, Header, ForwardOutcome, UpstreamResponse}
use airgate_sdk.Wire.Proto.{ProtoOutcome}
use airgate_sdk.Wire.Verdicts.{outcome_to_proto}
use airgate_sdk.Stream.Sending.{Transport, max_buffered_response_bytes}
use airgate_sdk.Gateway.Server.{
  WriterCall, begins_completion, sets_headers, writes_header, writes, Merged, raised, verdict,
  merge_error, check_outcome_message,
}

-- `cancelled`: onLimit was called, which cancels the plugin's context.
pub record BufferWriter (E : Type 0) : Type 0 where
  pub headers : Header
  pub code : ℤ
  pub body : Bytes
  pub err : Option E
  pub cancelled : Bool

unfoldable pub is_empty : {A : Type 0} → List A → Bool
is_empty [] = true
is_empty (x ∷ xs) = false

-- http.Header.Get and Set, for a key in its canonical form
unfoldable pub get_header : Header → String → String
get_header [] key = ""
get_header ((k, vs) ∷ h) key = if k == key then first vs else get_header h key
  where
    first : List String → String
    first [] = ""
    first (v ∷ vs) = v

unfoldable pub set_header : Header → String → String → Header
set_header [] key value = (key, value ∷ []) ∷ []
set_header ((k, vs) ∷ h) key value =
    if k == key then (k, value ∷ []) ∷ h else (k, vs) ∷ set_header h key value

-- What the environment gives: http.DetectContentType, and the error of a buffer that is full.
pub record Limits (E : Type 0) : Type 0 where
  pub detect_content_type : Bytes → String
  pub buffer_exhausted : E

module _ {E : Type 0} where
  abbrev pub new_buffer : BufferWriter E
  new_buffer = record { headers = []; code = pos 0; body = []; err = none; cancelled = false }

  -- The content type of the first bytes, unless the plugin gave one.
  unfoldable pub give_content_type : Limits E → Bytes → BufferWriter E → BufferWriter E
  unfolding is_empty get_header set_header
  give_content_type l bytes w =
      if is_empty w.body && (not (is_empty bytes) && get_header w.headers "Content-Type" == "")
      then record w { headers = set_header w.headers "Content-Type" (l.detect_content_type bytes) }
      else w

  -- A write without a status is a 200.
  abbrev pub with_status : BufferWriter E → BufferWriter E
  with_status w = record w { code = if eqb_ℤ w.code (pos 0) then pos 200 else w.code }

  -- Write. The guard len(data) > max - len(body) is written as a sum.
  unfoldable pub buffer_write : Limits E → BufferWriter E → Bytes → BufferWriter E × ℕ × Option E
  unfolding give_content_type
  buffer_write l w bytes = elim w.err [
    | some e ↦ (w, 0, some e)
    | none ↦
        if ltb max_buffered_response_bytes (length w.body + length bytes)
        then (
          record w { err = some l.buffer_exhausted; cancelled = true },
          0,
          some l.buffer_exhausted,
        )
        else (let w' = give_content_type l bytes (with_status w) in
            (record w' { body = w.body ++ bytes }, length bytes, none))
  ]

  -- A call of the plugin. BeginStreamCompletion does nothing to this writer.
  unfoldable pub buffer_call : Limits E → WriterCall → BufferWriter E → BufferWriter E
  buffer_call l begins_completion w = w
  buffer_call l (sets_headers h) w = record w { headers = h }
  buffer_call l (writes_header status) w = record w { code = status }
  buffer_call l (writes bytes) w = (buffer_write l w bytes).0

  unfoldable pub buffer_calls : Limits E → List WriterCall → BufferWriter E → BufferWriter E
  unfolding buffer_call
  buffer_calls l [] w = w
  buffer_calls l (c ∷ cs) w = buffer_calls l cs (buffer_call l c w)

  -- A response that the plugin wrote to the writer instead of its verdict.
  unfoldable pub fill_upstream : BufferWriter E → UpstreamResponse → UpstreamResponse
  unfolding is_empty
  fill_upstream w u =
      if not (is_empty w.body) && is_empty u.body
      then record {
        status_code =
            if eqb_ℤ u.status_code (pos 0) && ltb_ℤ (pos 0) w.code then w.code else u.status_code;
        headers = if is_empty u.headers then w.headers else u.headers;
        body = w.body;
      }
      else u

module _ {F E : Type 0} where
  -- checkedOutcome
  unfoldable pub checked_outcome :
      Transport F E → (ProtoOutcome F → ℕ) → ForwardOutcome F → E ⊎ ProtoOutcome F
  checked_outcome t size o =
      let (p, failure) = check_outcome_message t size (outcome_to_proto o) in
      elim failure [ some e ↦ inl e | none ↦ inr p ]

  unfoldable pub finish_forward :
      Transport F E → (ProtoOutcome F → ℕ) → BufferWriter E → Merged F E → E ⊎ ProtoOutcome F
  unfolding fill_upstream checked_outcome
  finish_forward t size w (raised e) = inl e
  finish_forward t size w (verdict o) = elim w.err [
    | some e ↦ inl e
    | none ↦ checked_outcome t size (record o { upstream = fill_upstream w o.upstream })
  ]

  -- Forward: its error, or its message. `size` is proto.Size of the message.
  unfoldable pub forward :
      Transport F E
      → (ProtoOutcome F → ℕ)
      → Limits E
      → (E → String)
      → List WriterCall
      → ForwardOutcome F
      → Option E
      → E ⊎ ProtoOutcome F
  unfolding finish_forward
  forward t size l text calls o failure =
      finish_forward t size (buffer_calls l calls new_buffer) (merge_error text o failure)
