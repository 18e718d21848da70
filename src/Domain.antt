-- ===== src/Domain.antt =====
-- The value objects and state rules of src/domain, one module to a file.
pub mod Amount
pub mod Address
pub mod Payment
pub mod Order
pub mod Collection
pub mod Wallet
pub mod Chain
pub mod Kv
mod Tests
