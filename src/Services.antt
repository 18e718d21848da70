-- ===== src/Services.antt =====
-- The services of src/services.
pub mod Payments
pub mod Collections
pub mod Windows
