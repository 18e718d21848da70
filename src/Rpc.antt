-- ===== src/Rpc.antt =====
-- src/chain/rpc.rs: the client of the chain's nodes.
pub mod Health
pub mod Texts
pub mod Hex
pub mod Blocks
pub mod Manager
pub mod Heads
pub mod Cooldown
pub mod Rotation
pub mod Consistent
pub mod Quorum
pub mod Failover
pub mod Limits
pub mod Quantity
pub mod Request
pub mod Agreed
mod Tests
