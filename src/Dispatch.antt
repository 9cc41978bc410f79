-- ===== src/Dispatch.antt =====
-- Dispatch rules and plans: their records and messages, the conversions between them, and the round
-- trips.
pub mod Records
pub mod Conversions
pub mod RoundTrip
