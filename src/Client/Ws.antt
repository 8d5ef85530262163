-- ===== src/Client/Ws.antt =====
-- fluent/client/ws: a WebSocket connection that many goroutines share.
pub mod State
pub mod Closer
pub mod Listener
pub mod System
pub mod Invariant
pub mod Safety
pub mod Reader
pub mod Writer
pub mod Done
pub mod Sequential
pub mod New
mod Runs
