-- ===== src/Hpack/Integer.antt =====
-- web/src/h2/hpack/hpack.ts: `writeInteger` and `readInteger`, the prefix integers of RFC 7541 §5.1.
pub mod RoundTrip
use Prim.Native.Nat.{bit_and, bit_or}
use grpc_bridge.Prelude.{
  ℕ, zero, suc, ◌+◌, ◌-◌, ◌*◌, ◌/◌, ◌%◌, ◌^◌, ◌≤◌, ◌<◌, min, ◌≡◌, refl, sym, ap, ◌∙◌, ◌≢◌, ◌⊎◌, inl,
  inr, Bool, true, false, not, ◌&&◌, ◌||◌, Option, none, some, List, [], ◌∷◌, ◌++◌, map, length,
  take, drop, get_elem?, replicate, All, ltb, leb, ◌==◌, if◌then◌else◌, length-append, length-take,
  length-drop, take-append_eq, drop-append_eq, take-append_le, drop-append_le, take_all, length_at,
  drop_past, append_assoc, append-nil, Bool-cases, Option-cases, arith,
}
use grpc_bridge.Bytes.{ByteWriter, put_u8, ByteReader, read_u8}
use grpc_bridge.Errors.{Result, ok, err, ◌>>=◌, connection_failure, compression_error}

-- `(1 << prefixBits) - 1`.
abbrev pub prefix_max : ℕ → ℕ
prefix_max prefix_bits = 2 ^ prefix_bits - 1

-- `while (rest >= 128)`, on fuel, and the last byte.
unfoldable pub write_groups : ℕ → ByteWriter → ℕ → ByteWriter
write_groups zero w rest = put_u8 w rest
write_groups (suc fuel) w rest =
    let more = write_groups fuel (put_u8 w (rest % 128 + 128)) (rest / 128) in
    if leb 128 rest then more else put_u8 w rest

-- A round divides `rest` by 128, so `rest` rounds are enough.
unfoldable pub write_integer : ByteWriter → ℕ → ℕ → ℕ → ByteWriter
unfolding write_groups
write_integer w value prefix_bits first_byte_flags =
    let top = prefix_max prefix_bits in
    if ltb value top
    then put_u8 w (bit_or first_byte_flags value)
    else write_groups (value - top) (put_u8 w (bit_or first_byte_flags top)) (value - top)

-- The `do ... while` loop. The seventh round always throws, so seven rounds of fuel are enough.
unfoldable pub read_groups : ℕ → ByteReader → ℕ → ℕ → Result (ℕ × ByteReader)
read_groups zero r value shift = err (connection_failure compression_error)
read_groups (suc fuel) r value shift = do
  (byte, r1) ← read_u8 r
  let value' = value + bit_and byte 0x7f * 2 ^ shift
  let shift' = shift + 7
  if ltb 42 shift'
      then err (connection_failure compression_error)
      else if not (bit_and byte 0x80 == 0)
      then read_groups fuel r1 value' shift'
      else ok (value', r1)

unfoldable pub read_integer : ByteReader → ℕ → Result (ℕ × ByteReader)
read_integer r prefix_bits = do
  (byte, r1) ← read_u8 r
  let value = bit_and byte (prefix_max prefix_bits)
  if ltb value (prefix_max prefix_bits) then ok (value, r1) else read_groups 7 r1 value 0
