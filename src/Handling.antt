-- ===== src/Handling.antt =====
-- event_sidecar/src/event_handling_service.rs, api_version_manager.rs and the dispatch of lib.rs: what is
-- done with an event of a node.
pub mod Service
pub mod Saving
pub mod Writer
pub mod Passing
pub mod Version
pub mod Dispatch
mod Tests
