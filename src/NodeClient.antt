-- ===== src/NodeClient.antt =====
-- rpc_sidecar/src/node_client.rs: the client of the node's binary port.
pub mod Code
pub mod Transaction
pub mod Error
pub mod FromCode
pub mod Port
pub mod Network
pub mod Connect
pub mod Client
pub mod Call
pub mod Types
pub mod Methods
pub mod Caching
pub mod Start
pub mod Instance
mod Tests
mod CacheTests
