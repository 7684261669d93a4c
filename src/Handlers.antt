-- ===== src/Handlers.antt =====
-- handler_typed.go and handlers/: the handlers that the library builds.
pub mod Fields
pub mod Fate
pub mod Typed
pub mod Http
pub mod Grpc
