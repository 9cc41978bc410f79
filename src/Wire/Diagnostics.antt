-- ===== src/Wire/Diagnostics.antt =====
-- upstreamToProto, finalErrorDiagnosticToProto and their inverses of
-- runtimego/grpc/gateway_server.go.
use airgate_sdk.Prelude.{
  ◌≡◌, refl, ap, Option, none, some, List, [], ◌∷◌, pos, to_int32, IsInt32, to_int32_in_range, All,
}
use airgate_sdk.Outcome.{UpstreamResponse, OutboundRequestDiagnostic, FinalErrorDiagnostic}
use airgate_sdk.Wire.Proto.{ProtoUpstream, ProtoOutboundRequest, ProtoDiagnostic}
use airgate_sdk.Wire.Headers.{headers_to_proto, headers_from_proto, headers_from_proto-to_proto}

unfoldable pub upstream_to_proto : UpstreamResponse → ProtoUpstream
upstream_to_proto u = record {
  status_code = to_int32 u.status_code;
  headers = headers_to_proto u.headers;
  body = u.body;
}

-- The zero value of an upstream response.
abbrev pub no_upstream : UpstreamResponse
no_upstream = record { status_code = pos 0; headers = []; body = [] }

unfoldable pub upstream_from_proto : Option ProtoUpstream → UpstreamResponse
upstream_from_proto none = no_upstream
upstream_from_proto (some p) = record {
  status_code = p.status_code;
  headers = headers_from_proto p.headers;
  body = p.body;
}

request_to_proto : OutboundRequestDiagnostic → ProtoOutboundRequest
request_to_proto r = record {
  transport = r.transport;
  method = r.method;
  url = r.url;
  headers = headers_to_proto r.headers;
  body = r.body;
  status_code = to_int32 r.status_code;
  body_original_size = r.body_original_size;
}

request_from_proto : ProtoOutboundRequest → OutboundRequestDiagnostic
request_from_proto p = record {
  transport = p.transport;
  method = p.method;
  url = p.url;
  headers = headers_from_proto p.headers;
  body = p.body;
  status_code = p.status_code;
  body_original_size = p.body_original_size;
}

requests_to_proto : List OutboundRequestDiagnostic → List (Option ProtoOutboundRequest)
unfolding request_to_proto
requests_to_proto [] = []
requests_to_proto (r ∷ rs) = some (request_to_proto r) ∷ requests_to_proto rs

-- A nil entry is skipped.
requests_from_proto : List (Option ProtoOutboundRequest) → List OutboundRequestDiagnostic
unfolding request_from_proto
requests_from_proto [] = []
requests_from_proto (none ∷ ps) = requests_from_proto ps
requests_from_proto (some p ∷ ps) = request_from_proto p ∷ requests_from_proto ps

unfoldable pub diagnostic_to_proto : Option FinalErrorDiagnostic → Option ProtoDiagnostic
unfolding requests_to_proto
diagnostic_to_proto none = none
diagnostic_to_proto (some d) = some (record {
  upstream_error_body = d.upstream_error_body;
  outbound_requests = requests_to_proto d.outbound_requests;
})

unfoldable pub diagnostic_from_proto : Option ProtoDiagnostic → Option FinalErrorDiagnostic
unfolding requests_from_proto
diagnostic_from_proto none = none
diagnostic_from_proto (some d) = some (record {
  upstream_error_body = d.upstream_error_body;
  outbound_requests = requests_from_proto d.outbound_requests;
})

-- The statuses of a diagnostic fit the 32 bits that the message has for them.
abbrev pub Fits : Option FinalErrorDiagnostic → Type 0
Fits none = Unit
Fits (some d) = All (λ r. IsInt32 r.status_code) d.outbound_requests

pub upstream_from_proto-to_proto :
    (u : UpstreamResponse)
    → IsInt32 u.status_code
    → upstream_from_proto (some (upstream_to_proto u)) ≡ u
unfolding upstream_from_proto upstream_to_proto
upstream_from_proto-to_proto u h = λ i. record {
  status_code = to_int32_in_range u.status_code h i;
  headers = headers_from_proto-to_proto u.headers i;
  body = u.body;
}

request_from_proto-to_proto :
    (r : OutboundRequestDiagnostic)
    → IsInt32 r.status_code
    → request_from_proto (request_to_proto r) ≡ r
unfolding request_from_proto request_to_proto
request_from_proto-to_proto r h = λ i. record r {
  status_code = to_int32_in_range r.status_code h i;
  headers = headers_from_proto-to_proto r.headers i;
}

requests_from_proto-to_proto :
    (rs : List OutboundRequestDiagnostic)
    → All (λ r. IsInt32 r.status_code) rs
    → requests_from_proto (requests_to_proto rs) ≡ rs
unfolding requests_from_proto requests_to_proto
requests_from_proto-to_proto [] h = refl
requests_from_proto-to_proto (r ∷ rs) h =
    λ i. request_from_proto-to_proto r h.0 i ∷ requests_from_proto-to_proto rs h.1 i

pub diagnostic_from_proto-to_proto :
    (d : Option FinalErrorDiagnostic) → Fits d → diagnostic_from_proto (diagnostic_to_proto d) ≡ d
unfolding diagnostic_from_proto diagnostic_to_proto
diagnostic_from_proto-to_proto none h = refl
diagnostic_from_proto-to_proto (some d) h =
    ap (λ rs. some (record d { outbound_requests = rs }))
      (requests_from_proto-to_proto d.outbound_requests h)
