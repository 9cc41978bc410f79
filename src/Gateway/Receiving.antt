-- ===== src/Gateway/Receiving.antt =====
-- The steps of forwardStream at Core's side, and what it may conclude when they fail.
use airgate_sdk.Prelude.{
  ◌≡◌, refl, ◌⊎◌, inl, inr, Bool, false, Option, none, some, List, [], ◌∷◌, Option-cases,
}
use airgate_sdk.Outcome.{ForwardOutcome, should_failover, kind_should_failover}
use airgate_sdk.Wire.Proto.{ForwardChunk}
use airgate_sdk.Gateway.Client
use airgate_sdk.Gateway.Client.{
  Downstream, End, Sink, Received, final_of, begin_response, write_error, deliver, aborted, receive,
}

module _ {F E : Type 0} (sink : Sink E) where
  pub receive_more :
      (started : Bool) (d : Downstream) (c : ForwardChunk F) (cs : List (ForwardChunk F))
      (last : End E)
      → (deliver sink c.payload (begin_response sink started c d).1).1 ≡ none
      → final_of c ≡ none
      → receive sink started d (c ∷ cs) last
        ≡ receive sink
            (begin_response sink started c d).0
            (deliver sink c.payload (begin_response sink started c d).1).0
            cs
            last
  unfolding receive
  receive_more started d c cs last fine more = rw (fine, more, receive) refl

  pub receive_last :
      (started : Bool) (d : Downstream) (c : ForwardChunk F) (cs : List (ForwardChunk F))
      (last : End E) (o : ForwardOutcome F)
      → (deliver sink c.payload (begin_response sink started c d).1).1 ≡ none
      → final_of c ≡ some o
      → receive sink started d (c ∷ cs) last ≡ record {
        downstream = (deliver sink c.payload (begin_response sink started c d).1).0;
        outcome = o;
        error = none;
      }
  unfolding receive
  receive_last started d c cs last o fine final = rw (fine, final, receive) refl

  receive_undelivered :
      (started : Bool) (d : Downstream) (c : ForwardChunk F) (cs : List (ForwardChunk F))
      (last : End E) (e : E)
      → (deliver sink c.payload (begin_response sink started c d).1).1 ≡ some e
      → receive sink started d (c ∷ cs) last ≡ record {
        downstream = (deliver sink c.payload (begin_response sink started c d).1).0;
        outcome = aborted sink (final_of c) e;
        error = some (Client.write_failed e);
      }
  unfolding receive
  receive_undelivered started d c cs last e lost = rw (lost, receive) refl

  aborted_no_failover :
      (o : Option (ForwardOutcome F)) (e : E) → should_failover (aborted sink o e) ≡ false
  unfolding aborted should_failover kind_should_failover
  aborted_no_failover none e = refl
  aborted_no_failover (some o) e = refl

  -- Where receiving ends with an error, the verdict that Core gets allows no failover, whatever
  -- the last chunk said: bytes may already be with the client.
  pub receive_error-should_failover :
      (chunks : List (ForwardChunk F)) (started : Bool) (d : Downstream) (last : End E)
      → ((receive sink started d chunks last).error ≡ none)
        ⊎ (should_failover (receive sink started d chunks last).outcome ≡ false)
  unfolding receive
  receive_error-should_failover [] started d Client.end_of_file =
      inr (unfold should_failover kind_should_failover in refl)
  receive_error-should_failover [] started d (Client.broken e) =
      inr (unfold should_failover kind_should_failover in refl)
  receive_error-should_failover (c ∷ cs) started d last =
      let d' = (begin_response sink started c d).1 in
      elim (Option-cases (deliver sink c.payload d').1) [
        | inr (e, lost) ↦
            rw (receive_undelivered started d c cs last e lost)
              (inr (aborted_no_failover (final_of c) e))
        | inl fine ↦ elim (Option-cases (final_of c)) [
          | inr (o, final) ↦ rw (receive_last started d c cs last o fine final) (inl refl)
          | inl more ↦
              rw (receive_more started d c cs last fine more)
                (receive_error-should_failover cs _ _ last)
        ]
      ]
