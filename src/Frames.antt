-- ===== src/Frames.antt =====
-- web/src/h2/frames: the frame model, its serialization and the streaming decoder.
pub mod Types
pub mod Encode
pub mod Parse
pub mod Decoder
pub mod RoundTrip
pub mod Runs
