-- ===== src/Server.antt =====
-- pkg/server: the HTTP server, and the router that its handlers are made by.
pub mod Lifecycle
pub mod Swap
pub mod Router
pub mod Grpc
pub mod Codec
