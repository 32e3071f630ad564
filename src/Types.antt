-- ===== src/Types.antt =====
-- The `types` crate: the events of a node, and their translation to the format of 1.x nodes.
pub mod Casper
pub mod SseData
pub mod Legacy
pub mod Tests
