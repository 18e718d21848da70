-- ===== src/Workers.antt =====
-- The background workers of src/workers.
pub mod Scanner
pub mod Collector
