-- ===== src/Connection.antt =====
-- web/src/h2/connection.ts: `H2Connection`.
pub mod Streams
pub mod State
pub mod Teardown
pub mod Heads
pub mod Blocks
pub mod Receive
pub mod Requests
pub mod Events
pub mod Adapters
pub mod Credit
pub mod Bodies
pub mod Walk
pub mod Life
pub mod Runs
pub mod Pump
pub mod Reassembly
pub mod Pending
