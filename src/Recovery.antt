-- ===== src/Recovery.antt =====
-- web/src/recovery.ts: the channel that connects again, and the calls that wait for it.
pub mod State
pub mod Steps
pub mod Rest
pub mod Sessions
pub mod Backoff
pub mod Runs
