-- ===== src/Hpack/Strings.antt =====
-- web/src/h2/hpack/hpack.ts: the coding of strings, and `utf8Length`.
pub mod RoundTrip
use grpc_bridge.Prelude.{
  ℕ, ◌+◌, ◌≡◌, refl, true, false, not, ◌&&◌, [], ◌∷◌, length, ltb, leb, ◌==◌, if◌then◌else◌,
  length-append, Bool-cases, inl, inr, arith,
}
use Prim.Native.Nat.{bit_and}
use grpc_bridge.Errors.{Result, ok, err, ◌>>=◌, connection_failure, compression_error}
use grpc_bridge.Bytes.{ByteWriter, put_bytes, ByteReader, peek, remaining, read_bytes}
use grpc_bridge.Text.{Text, is_high, is_low, unit_bytes, point_bytes, encode_utf8, decode_utf8}
use grpc_bridge.Hpack.Integer.{write_integer, read_integer}
use grpc_bridge.Hpack.Huffman.{huffman_encode, huffman_shorter, huffman_decode}

-- The bytes of a code unit that is no pair.
abbrev pub unit_length : ℕ → ℕ
unit_length u = if leb u 0x7f then 1 else if leb u 0x7ff then 2 else 3

unfoldable pub utf8_length : Text → ℕ
utf8_length [] = 0
utf8_length (u ∷ []) = unit_length u
utf8_length (u ∷ v ∷ s) = elim (is_high u && is_low v) [
  | true ↦ 4 + utf8_length s
  | false ↦ unit_length u + utf8_length (v ∷ s)
]

unit_length_lem : (u : ℕ) → unit_length u ≡ length (unit_bytes u)
unfolding unit_bytes
unit_length_lem u = ground arith

-- utf8Length counts the bytes that encodeUtf8 makes, of any string, lone surrogates included.
pub utf8_length-encode_utf8 : (s : Text) → utf8_length s ≡ length (encode_utf8 s)
unfolding utf8_length encode_utf8 point_bytes
utf8_length-encode_utf8 [] = refl
utf8_length-encode_utf8 (u ∷ []) = unit_length_lem u
utf8_length-encode_utf8 (u ∷ v ∷ s) = elim (Bool-cases (is_high u && is_low v)) [
  | inl pair ↦ rw (pair, utf8_length, encode_utf8) (omega (arith, utf8_length-encode_utf8 s))
  | inr single ↦
      rw (single, utf8_length, encode_utf8)
        (omega (
          arith,
          unit_length_lem u,
          utf8_length-encode_utf8 (v ∷ s),
          length-append (unit_bytes u) (encode_utf8 (v ∷ s)),
        ))
]

unfoldable pub write_string : ByteWriter → Text → ByteWriter
write_string w s =
    let raw = encode_utf8 s in
    if huffman_shorter raw
    then (let encoded = huffman_encode raw in
        put_bytes (write_integer w (length encoded) 7 0x80) encoded)
    else put_bytes (write_integer w (length raw) 7 0x00) raw

unfoldable pub read_string : ByteReader → Result (Text × ByteReader)
read_string r = do
  first ← peek r
  (size, r1) ← read_integer r 7
  if ltb (remaining r1) size then err (connection_failure compression_error) else (do
    (bytes, r2) ← read_bytes size r1
    raw ← if not (bit_and first 0x80 == 0) then huffman_decode bytes else ok bytes
    ok (decode_utf8 raw, r2))
