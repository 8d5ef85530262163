-- ===== src/Client.antt =====
-- fluent/client: sessions with a server.
pub mod Session
pub mod Messages
pub mod Stream
pub mod Setup
pub mod Locks
pub mod Dial
pub mod Ws
pub mod WsClient
mod Runs
