-- ===== src/Tests/Trace.antt =====
-- A collector with one request.
use airgate_sdk.Prelude.{
  ℕ, ◌≡◌, ◌≤◌, ◌+◌, ◌⊎◌, refl, true, false, Option, some, none, List, [], ◌∷◌, pos, ltb_ℤ, length,
  arith,
}
use airgate_sdk.Outcome.{OutboundRequestDiagnostic, FinalErrorDiagnostic, is_success}
use airgate_sdk.Trace.{
  Exchange, Capture, BodyBuffer, max_requests, max_body_bytes, snapshot, snapshot_loop,
  snapshot_request, snapshot_error, sent_body, raw_error, max_ℤ, record_request, on_exchange,
  finish, new_body, body_release,
}
use airgate_sdk.Trace.Retention.{add_exchanges, retained, add_exchanges-retained}
use airgate_sdk.Trace.Budget.{total_bytes, ArePublished, snapshot_lem}
use airgate_sdk.Trace.Bodies.{body_writes, StandsFor, body_writes-StandsFor}
use airgate_sdk.Trace.Finish.{finish_lem}
use airgate_sdk.Tests.{limited}

abbrev asked : OutboundRequestDiagnostic
asked = record {
  transport = "http";
  method = "POST";
  url = "https://example.test/v1";
  headers = [];
  body = 1 ∷ 2 ∷ [];
  status_code = pos 500;
  body_original_size = pos 0;
}

abbrev exchange : Exchange
exchange = record {
  number = 0;
  request = asked;
  sent = none;
  response = some (record { content = 9 ∷ []; size = pos 1; closed = false });
  event = [];
}

abbrev capture : Capture
capture = record { exchanges = exchange ∷ []; closed = false; recorded = 1 }

abbrev diagnostic : FinalErrorDiagnostic
diagnostic = record {
  outbound_requests = record asked { body_original_size = pos 2 } ∷ [];
  upstream_error_body = 9 ∷ [];
}

taken : snapshot capture ≡ some diagnostic
unfolding snapshot snapshot_loop snapshot_request snapshot_error sent_body raw_error max_ℤ ltb_ℤ
taken = refl

snapshot_lem_example :
    (total_bytes diagnostic.outbound_requests + length diagnostic.upstream_error_body
      ≤ max_body_bytes)
    × ArePublished capture.exchanges diagnostic.outbound_requests
snapshot_lem_example = snapshot_lem capture diagnostic taken

abbrev nine : List Exchange
nine =
    exchange ∷ exchange ∷ exchange ∷ exchange ∷ exchange ∷ exchange ∷ exchange ∷ exchange ∷ exchange
    ∷ []

add_exchanges-retained_example :
    (add_exchanges nine [] ≡ retained nine) × (length (retained nine) ≤ max_requests)
add_exchanges-retained_example = add_exchanges-retained nine

body_writes-StandsFor_example :
    StandsFor (body_writes new_body ((1 ∷ []) ∷ (2 ∷ 3 ∷ []) ∷ [])) (1 ∷ 2 ∷ 3 ∷ [])
    × (body_writes
          (body_release (body_writes new_body ((1 ∷ []) ∷ (2 ∷ 3 ∷ []) ∷ [])))
          ((4 ∷ []) ∷ [])
        ≡ record { content = []; size = pos 0; closed = true })
body_writes-StandsFor_example =
    body_writes-StandsFor ((1 ∷ []) ∷ (2 ∷ 3 ∷ []) ∷ []) ((4 ∷ []) ∷ []) new_body []
      (refl, refl, refl) (omega arith)

finish_lem_example :
    let (c', o') = finish capture limited false in
    ((r : OutboundRequestDiagnostic) (sent : Option BodyBuffer)
      → record_request c' r sent ≡ (c', none))
    × ((n : ℕ) (f : Exchange → Exchange) → on_exchange n f c' ≡ c')
    × (snapshot c' ≡ none)
    × (((false ≡ false) × (is_success limited.kind ≡ true) × (o' ≡ limited))
        ⊎ (((false ≡ true) ⊎ (is_success limited.kind ≡ false))
            × (o' ≡ record limited { final_error_diagnostic = snapshot capture })))
finish_lem_example = finish_lem capture limited false
