-- ===== src/Retry.antt =====
-- web/src/retry.ts: retries of calls.
pub mod Policy
pub mod Replay
pub mod Decide
pub mod Call
pub mod Runs
