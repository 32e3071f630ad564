-- ===== src/Rpcs.antt =====
-- rpc_sidecar/src/rpcs: what the JSON-RPC methods share.
pub mod Code
pub mod Error
pub mod Client
pub mod Common
pub mod Chain
pub mod Account
mod Tests
