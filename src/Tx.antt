-- ===== src/Tx.antt =====
-- internal/tx: the open transactions.
pub mod State
pub mod Calls
pub mod Reads
pub mod Writes
pub mod Commit
pub mod Pause
pub mod Net
pub mod Written
pub mod Marks
pub mod Bounds
pub mod Expiry
pub mod Exclusion
pub mod Lives
pub mod Commits
pub mod Failures
pub mod Paused
mod Examples
