-- ===== src/Extension.antt =====
-- The plugin side of an extension plugin: runtimego/grpc/extension_router.go and extension_server.go.
pub mod Router
pub mod Messages
pub mod Writer
pub mod Requests
pub mod Tasks
