-- ===== src/Wire.antt =====
-- The gRPC boundary: the messages of protocol/proto and the conversions of runtimego/grpc.
pub mod Proto
pub mod Headers
pub mod Kinds
pub mod Billing
pub mod Diagnostics
pub mod Verdicts
