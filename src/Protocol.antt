-- ===== src/Protocol.antt =====
-- fluent/protocol: the messages of the forward protocol.
pub mod EventTime
pub mod Options
pub mod Ack
pub mod Entries
pub mod Tail
pub mod ChunkId
pub mod Message
pub mod Forward
pub mod PackedForward
pub mod Chunk
pub mod RoundTrip
pub mod ChunkOption
pub mod Raw
pub mod ChunkEncoder
pub mod Pool
pub mod Handshake
mod Runs
