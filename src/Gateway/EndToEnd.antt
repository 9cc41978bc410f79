-- ===== src/Gateway/EndToEnd.antt =====
-- The two ends of a streaming call together.
use airgate_sdk.Prelude.{
  ℤ, String, ◌≡◌, refl, sym, ap, ◌∙◌, inl, inr, Bool, false, Option, none, some, List, [], ◌∷◌,
  ◌++◌, append_assoc, append-nil, length, arith, All, Bool-cases, eqb_ℤ, pos,
}
use airgate_sdk.Outcome.{Bytes, ForwardOutcome}
use airgate_sdk.Wire.Proto.{ForwardChunk, ProtoOutcome}
use airgate_sdk.Wire.Kinds.{declared, kind_from_proto-to_proto}
use airgate_sdk.Wire.Verdicts.{outcome_to_proto, outcome_from_proto, usage_round_trip}
use airgate_sdk.Stream.Sending.{Transport}
use airgate_sdk.Stream.Pieces.{payloads, IsFramed, IsData}
use airgate_sdk.Gateway.Server
use airgate_sdk.Gateway.Server.{WriterCall, verdict, merge_error, default_duration, final_chunk}
use airgate_sdk.Gateway.Client
use airgate_sdk.Gateway.Client.{
  Downstream, End, Sink, Received, final_of, begin_response, write_error, deliver, receive,
  untouched,
}
use airgate_sdk.Gateway.Calls.{written}
use airgate_sdk.Gateway.Delivery.{IsSent, Delivers, forward_stream-Delivers}
use airgate_sdk.Gateway.Receiving.{receive_more, receive_last}

-- A writer that takes whatever it is given.
abbrev pub Accepts : {E : Type 0} → Sink E → Type 0
Accepts sink = (body bytes : Bytes) → sink.accept body bytes ≡ (length bytes, none)

module _ {E : Type 0} (sink : Sink E) (accepts : Accepts sink) where
  deliver-accepted :
      (bytes : Bytes) (d : Downstream)
      → ((deliver sink bytes d).1 ≡ none) × ((deliver sink bytes d).0.body ≡ d.body ++ bytes)
  unfolding deliver write_error
  deliver-accepted [] d = (refl, sym (append-nil d.body))
  deliver-accepted (b ∷ bytes) d = (ground (arith, accepts d.body (b ∷ bytes)), refl)

body-begin_response :
    {F E : Type 0} (sink : Sink E) (started : Bool) (c : ForwardChunk F) (d : Downstream)
    → (begin_response sink started c d).1.body ≡ d.body
unfolding begin_response
body-begin_response sink started c d = ground arith

-- A chunk that does not end the call.
abbrev Continues : {F : Type 0} → ForwardChunk F → Type 0
Continues c = final_of c ≡ none

module _ {F : Type 0} where
  IsData-Continues : (c : ForwardChunk F) → c.done ≡ false → Continues c
  unfolding final_of
  IsData-Continues c h = ground arith

  All-Continues : (cs : List (ForwardChunk F)) → All IsData cs → All Continues cs
  All-Continues [] h = tt
  All-Continues (c ∷ cs) h = (IsData-Continues c h.0.0, All-Continues cs h.1)

  IsFramed-Continues : (cs : List (ForwardChunk F)) → IsFramed cs → All Continues cs
  IsFramed-Continues [] h = tt
  IsFramed-Continues (m ∷ cs) h = (IsData-Continues m h.0.1, All-Continues cs h.1)

  final_of-final_chunk :
      (tail : Bytes) (p : ProtoOutcome F)
      → final_of (final_chunk tail p) ≡ some (outcome_from_proto (some p))
  unfolding final_of final_chunk
  final_of-final_chunk tail p = refl

module _ {F E : Type 0} (sink : Sink E) (accepts : Accepts sink) where
  -- A call received whole: no error, the verdict of its last chunk, and all its bytes.
  abbrev Whole : Downstream → Bytes → ForwardOutcome F → Received F E → Type 0
  Whole d bytes o r = (r.error ≡ none) × (r.outcome ≡ o) × (r.downstream.body ≡ d.body ++ bytes)

  chunk-body :
      (started : Bool) (d : Downstream) (c : ForwardChunk F)
      → ((deliver sink c.payload (begin_response sink started c d).1).1 ≡ none)
        × ((deliver sink c.payload (begin_response sink started c d).1).0.body
            ≡ d.body ++ c.payload)
  chunk-body started d c =
      let (fine, all) =
        deliver-accepted sink accepts c.payload (begin_response sink started c d).1 in
      (fine, all ∙ ap (λ b. b ++ c.payload) (body-begin_response sink started c d))

  receive-Whole :
      (cs : List (ForwardChunk F)) (c : ForwardChunk F) (o : ForwardOutcome F) (started : Bool)
      (d : Downstream) (last : End E)
      → All Continues cs
      → final_of c ≡ some o
      → Whole d (payloads (cs ++ c ∷ [])) o (receive sink started d (cs ++ c ∷ []) last)
  receive-Whole [] c o started d last h final =
      let (fine, all) = chunk-body started d c in
      rw (receive_last sink started d c [] last o fine final)
        (refl, refl, all ∙ ap (◌++◌ d.body) (sym (append-nil c.payload)))
  receive-Whole (c' ∷ cs) c o started d last h final =
      let (fine, all) = chunk-body started d c' in
      let (e, out, body) = receive-Whole cs c o _ _ last h.1 final in
      rw (receive_more sink started d c' (cs ++ c ∷ []) last fine h.0) (
        e,
        out,
        body
            ∙ ap (λ b. b ++ payloads (cs ++ c ∷ [])) all
            ∙ append_assoc d.body c'.payload (payloads (cs ++ c ∷ [])),
      )

sent-verdict :
    {F : Type 0} (v : ForwardOutcome F) (p : ProtoOutcome F)
    → IsSent v p
    → ((outcome_from_proto (some p)).kind ≡ declared v.kind)
      × ((outcome_from_proto (some p)).failover_scope ≡ v.failover_scope)
      × ((outcome_from_proto (some p)).usage ≡ v.usage)
unfolding outcome_from_proto outcome_to_proto
sent-verdict v p (inl same) =
    rw same (kind_from_proto-to_proto v.kind, refl, usage_round_trip v.usage)
sent-verdict v p (inr bare) =
    rw bare (kind_from_proto-to_proto v.kind, refl, usage_round_trip v.usage)

default_duration_keeps :
    {F : Type 0} (elapsed : ℤ) (v : ForwardOutcome F)
    → ((default_duration elapsed v).kind ≡ v.kind)
      × ((default_duration elapsed v).failover_scope ≡ v.failover_scope)
      × ((default_duration elapsed v).usage ≡ v.usage)
unfolding default_duration
default_duration_keeps elapsed v = elim (Bool-cases (eqb_ℤ v.duration (pos 0))) [
  | inl unset ↦ rw (unset, default_duration) (refl, refl, refl)
  | inr set ↦ rw (set, default_duration) (refl, refl, refl)
]

module _ {F E : Type 0} where
  received-Whole :
      (sink : Sink E) (accepts : Accepts sink) (last : End E) (stream : List (ForwardChunk F))
      (bytes : Bytes) (v : ForwardOutcome F)
      → Delivers bytes v stream
      → let r = Client.forward_stream sink stream last in
        (r.error ≡ none)
        × (r.downstream.body ≡ bytes)
        × (r.outcome.kind ≡ declared v.kind)
        × (r.outcome.failover_scope ≡ v.failover_scope)
        × (r.outcome.usage ≡ v.usage)
  unfolding Client.forward_stream
  received-Whole sink accepts last stream bytes v d =
      let chunk = final_chunk d.tail d.outcome in
      let (e, out, body) =
        receive-Whole sink accepts d.response chunk _ false untouched last
          (IsFramed-Continues d.response d.framed) (final_of-final_chunk d.tail d.outcome) in
      let (kind, scope, usage) = sent-verdict v d.outcome d.carried in
      rw d.shape (
        e,
        body ∙ ap payloads (sym d.shape) ∙ d.complete,
        ap (λ (x : ForwardOutcome F). x.kind) out ∙ kind,
        ap (λ (x : ForwardOutcome F). x.failover_scope) out ∙ scope,
        ap (λ (x : ForwardOutcome F). x.usage) out ∙ usage,
      )

module _ {F E : Type 0} (t : Transport F E) (text : E → String) (elapsed : ℤ) where
  -- When the plugin's side of a streaming call succeeds and the HTTP client takes every write,
  -- Core ends the call without an error; the client has exactly the bytes that the plugin wrote,
  -- and Core has the plugin's kind (unknown if it had no name), scope and usage.
  pub stream_end_to_end :
      (sink : Sink E) (accepts : Accepts sink) (last : End E) (calls : List WriterCall)
      (o : ForwardOutcome F) (failure : Option E)
      → (Server.forward_stream t text elapsed calls o failure).1 ≡ none
      → let r =
          Client.forward_stream sink
            (Server.forward_stream t text elapsed calls o failure).0
            last in
        (v : ForwardOutcome F) × (merge_error text o failure ≡ verdict v)
        × (r.error ≡ none)
        × (r.downstream.body ≡ written calls)
        × (r.outcome.kind ≡ declared v.kind)
        × (r.outcome.failover_scope ≡ v.failover_scope)
        × (r.outcome.usage ≡ v.usage)
  stream_end_to_end sink accepts last calls o failure q =
      let (v, merged, d) = forward_stream-Delivers t text elapsed calls o failure q in
      let (e, body, kind, scope, usage) =
        received-Whole sink accepts last _ (written calls) (default_duration elapsed v) d in
      let (same_kind, same_scope, same_usage) = default_duration_keeps elapsed v in
      (v, merged, e, body, kind ∙ ap declared same_kind, scope ∙ same_scope, usage ∙ same_usage)
