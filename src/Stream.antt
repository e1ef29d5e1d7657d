-- ===== src/Stream.antt =====
-- web/src/h2/stream.ts.
pub mod Head
pub mod State
pub mod Steps
pub mod Credit
pub mod Ends
pub mod Runs
