-- ===== src/Wire/Headers.antt =====
-- httpHeadersToProto and protoHeadersToHTTP of runtimego/grpc/gateway_server.go.
use airgate_sdk.Prelude.{◌≡◌, refl, ap, none, some, [], ◌∷◌}
use airgate_sdk.Outcome.{Header}
use airgate_sdk.Wire.Proto.{ProtoHeaders}

unfoldable pub headers_to_proto : Header → ProtoHeaders
headers_to_proto [] = []
headers_to_proto ((k, v) ∷ h) = (k, some v) ∷ headers_to_proto h

-- An entry whose pointer is nil is dropped.
unfoldable pub headers_from_proto : ProtoHeaders → Header
headers_from_proto [] = []
headers_from_proto ((k, some v) ∷ h) = (k, v) ∷ headers_from_proto h
headers_from_proto ((k, none) ∷ h) = headers_from_proto h

pub headers_from_proto-to_proto : (h : Header) → headers_from_proto (headers_to_proto h) ≡ h
unfolding headers_to_proto headers_from_proto
headers_from_proto-to_proto [] = refl
headers_from_proto-to_proto ((k, v) ∷ h) = ap (λ r. (k, v) ∷ r) (headers_from_proto-to_proto h)
