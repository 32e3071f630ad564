-- ===== src/EventStream.antt =====
-- event_sidecar/src/event_stream_server: the server that clients subscribe to.
pub mod Event
pub mod Outbound
pub mod Subscribe
pub mod Stream
pub mod Replay
pub mod Indexer
pub mod Server
mod Tests
