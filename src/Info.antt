-- ===== src/Info.antt =====
-- What a plugin tells of itself: its information (PluginInfo) and its schema, and the caches of Core's side.
pub mod Records
pub mod Conversions
pub mod RoundTrip
pub mod Caches
pub mod Fresh
pub mod Schemas
pub mod Discovery
pub mod Discovered
