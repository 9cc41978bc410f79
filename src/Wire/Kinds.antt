-- ===== src/Wire/Kinds.antt =====
-- outcomeKindToProto and outcomeKindFromProto of runtimego/grpc/gateway_server.go.
use airgate_sdk.Prelude.{◌≡◌, refl}
use airgate_sdk.Outcome.{OutcomeKind}
use airgate_sdk.Wire.Proto.{ProtoKind}

unfoldable pub kind_to_proto : OutcomeKind → ProtoKind
kind_to_proto OutcomeKind.success = ProtoKind.success
kind_to_proto OutcomeKind.client_error = ProtoKind.client_error
kind_to_proto OutcomeKind.account_rate_limited = ProtoKind.account_rate_limited
kind_to_proto OutcomeKind.account_dead = ProtoKind.account_dead
kind_to_proto OutcomeKind.upstream_transient = ProtoKind.upstream_transient
kind_to_proto OutcomeKind.stream_aborted = ProtoKind.stream_aborted
kind_to_proto OutcomeKind.family_transient = ProtoKind.family_transient
kind_to_proto OutcomeKind.account_unavailable = ProtoKind.account_unavailable
kind_to_proto OutcomeKind.account_quota_exhausted = ProtoKind.account_quota_exhausted
kind_to_proto _ = ProtoKind.unknown

unfoldable pub kind_from_proto : ProtoKind → OutcomeKind
kind_from_proto ProtoKind.success = OutcomeKind.success
kind_from_proto ProtoKind.client_error = OutcomeKind.client_error
kind_from_proto ProtoKind.account_rate_limited = OutcomeKind.account_rate_limited
kind_from_proto ProtoKind.account_dead = OutcomeKind.account_dead
kind_from_proto ProtoKind.upstream_transient = OutcomeKind.upstream_transient
kind_from_proto ProtoKind.stream_aborted = OutcomeKind.stream_aborted
kind_from_proto ProtoKind.family_transient = OutcomeKind.family_transient
kind_from_proto ProtoKind.account_unavailable = OutcomeKind.account_unavailable
kind_from_proto ProtoKind.account_quota_exhausted = OutcomeKind.account_quota_exhausted
kind_from_proto _ = OutcomeKind.unknown

-- A kind as it is read at the other end: a value with no name has become unknown.
unfoldable pub declared : OutcomeKind → OutcomeKind
declared (OutcomeKind.other n) = OutcomeKind.unknown
declared k = k

pub kind_from_proto-to_proto : (k : OutcomeKind) → kind_from_proto (kind_to_proto k) ≡ declared k
unfolding kind_to_proto kind_from_proto declared
kind_from_proto-to_proto OutcomeKind.success = refl
kind_from_proto-to_proto OutcomeKind.client_error = refl
kind_from_proto-to_proto OutcomeKind.account_rate_limited = refl
kind_from_proto-to_proto OutcomeKind.account_dead = refl
kind_from_proto-to_proto OutcomeKind.upstream_transient = refl
kind_from_proto-to_proto OutcomeKind.stream_aborted = refl
kind_from_proto-to_proto OutcomeKind.family_transient = refl
kind_from_proto-to_proto OutcomeKind.account_unavailable = refl
kind_from_proto-to_proto OutcomeKind.account_quota_exhausted = refl
kind_from_proto-to_proto OutcomeKind.unknown = refl
kind_from_proto-to_proto (OutcomeKind.other n) = refl
