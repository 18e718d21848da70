-- ===== src/Services/Collections.antt =====
-- src/services/collections.rs: the fees of a sweep and the replacement of one that is stuck.
pub mod Fees
pub mod Replace
pub mod Prepare
pub mod Prepared
pub mod Bump
pub mod Accepted
pub mod Replaced
mod Tests
