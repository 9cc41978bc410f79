-- ===== src/Gateway.antt =====
-- A Forward call across the process boundary: the plugin's side and Core's side.
pub mod Server
pub mod Texts
pub mod Client
pub mod Calls
pub mod Delivery
pub mod Receiving
pub mod EndToEnd
pub mod Success
pub mod Unary
