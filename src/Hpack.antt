-- ===== src/Hpack.antt =====
-- web/src/h2/hpack: HPACK header compression (RFC 7541).
pub mod Integer
pub mod Runs
pub mod StaticTable
pub mod HuffmanTable
pub mod Table
pub mod Huffman
pub mod Strings
pub mod Decoder
pub mod Encoder
