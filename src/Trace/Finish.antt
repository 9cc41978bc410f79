-- ===== src/Trace/Finish.antt =====
-- What is left of a collector once its attempt has finished.
use airgate_sdk.Prelude.{ℕ, ◌≡◌, refl, ◌⊎◌, inl, inr, Bool, true, false, Option, none, Bool-cases}
use airgate_sdk.Outcome.{ForwardOutcome, OutboundRequestDiagnostic, is_success}
use airgate_sdk.Trace.{BodyBuffer, Exchange, Capture, record_request, on_exchange, snapshot, finish}

-- Finish leaves a collector that keeps nothing and takes nothing more. A success without an error
-- stays as it is; any other outcome gets the diagnostic of what was recorded.
pub finish_lem :
    {F : Type 0} (c : Capture) (o : ForwardOutcome F) (failed : Bool)
    → let (c', o') = finish c o failed in
      ((r : OutboundRequestDiagnostic) (sent : Option BodyBuffer)
        → record_request c' r sent ≡ (c', none))
      × ((n : ℕ) (f : Exchange → Exchange) → on_exchange n f c' ≡ c')
      × (snapshot c' ≡ none)
      × (((failed ≡ false) × (is_success o.kind ≡ true) × (o' ≡ o))
          ⊎ (((failed ≡ true) ⊎ (is_success o.kind ≡ false))
              × (o' ≡ record o { final_error_diagnostic = snapshot c })))
unfolding finish
finish_lem c o failed = (
  λ r sent. unfold record_request in refl,
  λ n f. unfold on_exchange in refl,
  unfold snapshot in refl,
  published failed (Bool-cases (is_success o.kind)),
)
  where
    published :
        (b : Bool)
        → (is_success o.kind ≡ true) ⊎ (is_success o.kind ≡ false)
        → ((b ≡ false) × (is_success o.kind ≡ true) × ((finish c o b).1 ≡ o))
          ⊎ (((b ≡ true) ⊎ (is_success o.kind ≡ false))
              × ((finish c o b).1 ≡ record o { final_error_diagnostic = snapshot c }))
    published true k = inr (inl refl, refl)
    published false (inl won) = inl (refl, won, rw won refl)
    published false (inr lost) = inr (inr lost, rw lost refl)
