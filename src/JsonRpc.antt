-- ===== src/JsonRpc.antt =====
-- The `json_rpc` crate: JSON-RPC 2.0 requests over HTTP.
pub mod Json
pub mod Error
pub mod Params
pub mod Request
pub mod Response
pub mod Handlers
pub mod Filters
mod Tests
