-- ===== src/Frames/RoundTrip.antt =====
-- What the decoder makes of a serialized frame.
pub mod Settings
pub mod Payload
pub mod Headers
pub mod Wire
