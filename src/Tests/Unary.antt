-- ===== src/Tests/Unary.antt =====
-- A call without streaming whose plugin writes its response.
use airgate_sdk.Prelude.{String, ℕ, ◌+◌, List, length, [], ◌∷◌, pos}
use airgate_sdk.Outcome.{UpstreamResponse}
use airgate_sdk.Wire.Proto.{ProtoOutcome}
use airgate_sdk.Wire.Verdicts.{outcome_to_proto}
use airgate_sdk.Gateway.Server.{WriterCall, writes, writes_header, upstream_body}
use airgate_sdk.Gateway.Unary.{Limits}
use airgate_sdk.Tests.{succeeded}

abbrev limits : Limits String
limits = record { detect_content_type = λ b. "text/plain"; buffer_exhausted = "budget" }

abbrev calls : List WriterCall
calls = writes_header (pos 201) ∷ writes (1 ∷ 2 ∷ []) ∷ []

-- A size that grows with the body.
abbrev message_size : ProtoOutcome ℕ → ℕ
message_size p = 64 + length (upstream_body p.upstream)

abbrev filled : UpstreamResponse
filled = record {
  status_code = pos 201;
  headers = ("Content-Type", "text/plain" ∷ []) ∷ [];
  body = 1 ∷ 2 ∷ [];
}

abbrev answer : ProtoOutcome ℕ
answer = outcome_to_proto (record succeeded { upstream = filled })
