-- ===== src/LogStore.antt =====
-- src/transfer_log_store: the logs of each stream, read block range by block range, rewound when the
-- chain reorganises, and handed out in pages.
pub mod Config
pub mod State
pub mod Source
pub mod Fetch
pub mod Poll
pub mod Pages
pub mod Paging
pub mod Complete
pub mod Reorg
pub mod Invariant
pub mod Merged
pub mod Committed
pub mod Polled
pub mod Reachable
mod Tests
