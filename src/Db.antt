-- ===== src/Db.antt =====
-- src/db/repositories: the rows of sweeps, of the transactions that carry them out, and of nonces.
pub mod Types
pub mod Accounts
pub mod Outbound
pub mod Inserts
pub mod Nonces
pub mod Lifecycle
pub mod Marked
pub mod Inserted
pub mod Steps
pub mod Examples
mod Tests
