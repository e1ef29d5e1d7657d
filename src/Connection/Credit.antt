-- ===== src/Connection/Credit.antt =====
-- The bytes of the connection's receive window: free, or buffered by a stream.
pub mod Account
pub mod Ends
pub mod Arrivals
pub mod Data
pub mod Frames
pub mod Bytes
pub mod Calls
pub mod Readers
pub mod Run
