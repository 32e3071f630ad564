-- ===== src/Listener.antt =====
-- listener/src: connections to the event streams of a node.
pub mod Manager
pub mod Tasks
mod Tests
