-- ===== src/Hpack/Integer/RoundTrip.antt =====
-- readInteger on what writeInteger wrote.
use Prim.Native.Nat.{bit_and, bit_or}
use grpc_bridge.Prelude.{
  ℕ, zero, suc, ◌+◌, ◌-◌, ◌*◌, ◌/◌, ◌%◌, ◌^◌, ◌≤◌, ◌<◌, ◌≡◌, ap, ◌∙◌, ◌⊎◌, inl, inr, true, false,
  List, [], ◌∷◌, ◌++◌, ltb, leb, if◌then◌else◌, append_assoc, append-nil, Bool-cases, arith,
}
use native.Mathlib.Numerals.{towards_suc}
use grpc_bridge.Prelude.Bits.{low_seven, low_four, top_bit, set_top_bit, set_no_bit, set_bit_four}
use grpc_bridge.Bytes.{ByteWriter, byte_writer, written, ByteReader, byte_reader, read_u8}
use grpc_bridge.Bytes.Written.{Writes, byte_writer-Writes, put_u8-Writes}
use grpc_bridge.Bytes.Reader.{At, byte_reader-At, read_u8-At}
use grpc_bridge.Hpack.Integer.{prefix_max, write_groups, write_integer, read_groups, read_integer}
use grpc_bridge.Errors.{Result, ok}

-- The groups that the writer's loop emits, and the whole integer.
pub group_bytes : ℕ → ℕ → List ℕ
group_bytes zero rest = rest % 256 ∷ []
group_bytes (suc fuel) rest =
    let more = group_bytes fuel (rest / 128) in
    if leb 128 rest then (rest % 128 + 128) % 256 ∷ more else rest % 256 ∷ []

unfoldable pub integer_bytes : ℕ → ℕ → ℕ → List ℕ
integer_bytes value prefix_bits flags =
    let top = prefix_max prefix_bits in
    if ltb value top
    then bit_or flags value % 256 ∷ []
    else bit_or flags top % 256 ∷ group_bytes (value - top) (value - top)

write_groups-Writes :
    (fuel : ℕ) (w : ByteWriter) {bs : List ℕ} (rest : ℕ)
    → Writes w bs
    → Writes (write_groups fuel w rest) (bs ++ group_bytes fuel rest)
unfolding write_groups group_bytes
write_groups-Writes zero w rest h = put_u8-Writes w rest h
write_groups-Writes (suc fuel) w {bs} rest h = elim (Bool-cases (leb 128 rest)) [
  | inl more ↦
      let (e, v) = write_groups-Writes fuel _ (rest / 128) (put_u8-Writes w (rest % 128 + 128) h) in
      rw more
        (e ∙ append_assoc bs ((rest % 128 + 128) % 256 ∷ []) (group_bytes fuel (rest / 128)), v)
  | inr last ↦ rw last (put_u8-Writes w rest h)
]

pub write_integer-Writes :
    (w : ByteWriter) {bs : List ℕ} (value prefix_bits flags : ℕ)
    → Writes w bs
    → Writes (write_integer w value prefix_bits flags) (bs ++ integer_bytes value prefix_bits flags)
unfolding write_integer integer_bytes
write_integer-Writes w {bs} value prefix_bits flags h =
    elim (Bool-cases (ltb value (prefix_max prefix_bits))) [
      | inl small ↦ rw small (put_u8-Writes w (bit_or flags value) h)
      | inr large ↦
          let top = prefix_max prefix_bits in
          let (e, v) =
            write_groups-Writes (value - top) _ (value - top)
              (put_u8-Writes w (bit_or flags top) h) in
          rw large (
            e
                ∙ append_assoc bs (bit_or flags top % 256 ∷ [])
                    (group_bytes (value - top) (value - top)),
            v,
          )
    ]

seven_doublings : (s : ℕ) → 2 ^ (s + 7) ≡ 128 * 2 ^ s
seven_doublings s = simp towards_suc (omega arith)

next_group : (rest s : ℕ) → rest * 2 ^ (s + 7) ≡ rest * 128 * 2 ^ s
next_group rest s = rw (seven_doublings s) (grind arith)

-- What is still to be read, one group and the groups behind it, at bit `s`.
split_group : (w s : ℕ) → w % 128 * 2 ^ s + w / 128 * 2 ^ (s + 7) ≡ w * 2 ^ s
split_group w s =
    let whole : w % 128 + w / 128 * 128 ≡ w = omega arith in
    let joined : (w % 128 + w / 128 * 128) * 2 ^ s ≡ w % 128 * 2 ^ s + w / 128 * 128 * 2 ^ s =
      grind arith in
    omega (arith, next_group (w / 128) s, joined, ap (λ (t : ℕ). t * 2 ^ s) whole)

read_last :
    (fuel : ℕ) (r : ByteReader) (value shift b : ℕ) (rest : List ℕ)
    → b < 128
    → shift ≤ 35
    → At r (b ∷ rest)
    → (r' : ByteReader) × (read_groups (suc fuel) r value shift ≡ ok (value + b * 2 ^ shift, r'))
      × At r' rest
unfolding read_groups
read_last fuel r value shift b rest small near a =
    let (r1, e, a1) = read_u8-At r b rest a in
    let low : bit_and b 0x7f ≡ b = omega (arith, low_seven b) in
    let top : bit_and b 0x80 ≡ 0 = omega (arith, top_bit b) in
    let fits : ltb 42 (shift + 7) ≡ false = ground arith in (r1, rw (e, low, top, fits), a1)

read_inner :
    (fuel : ℕ) (r : ByteReader) (value shift g : ℕ) (rest : List ℕ)
    → g < 128
    → shift ≤ 35
    → At r ((g + 128) ∷ rest)
    → (r' : ByteReader) × (read_groups (suc fuel) r value shift
        ≡ read_groups fuel r' (value + g * 2 ^ shift) (shift + 7))
      × At r' rest
unfolding read_groups
read_inner fuel r value shift g rest small near a =
    let (r1, e, a1) = read_u8-At r (g + 128) rest a in
    let low : bit_and (g + 128) 0x7f ≡ g = omega (arith, low_seven (g + 128)) in
    let top : bit_and (g + 128) 0x80 ≡ 128 = omega (arith, top_bit (g + 128)) in
    let fits : ltb 42 (shift + 7) ≡ false = ground arith in (r1, rw (e, low, top, fits), a1)

-- What the read gives: the value, and a reader before what follows.
abbrev pub Reads : Result (ℕ × ByteReader) → ℕ → List ℕ → Type 0
Reads result value rest = (r' : ByteReader) × (result ≡ ok (value, r')) × At r' rest

group_bytes_last : (fuel w : ℕ) → w < 128 → group_bytes fuel w ≡ w ∷ []
unfolding group_bytes
group_bytes_last zero w h = let e : w % 256 ≡ w = omega arith in rw e
group_bytes_last (suc fuel) w h =
    let e : w % 256 ≡ w = omega arith in let last : leb 128 w ≡ false = ground arith in rw (last, e)

group_bytes_more :
    (fuel w : ℕ) → 128 ≤ w → group_bytes (suc fuel) w ≡ (w % 128 + 128) ∷ group_bytes fuel (w / 128)
unfolding group_bytes
group_bytes_more fuel w h =
    let e : (w % 128 + 128) % 256 ≡ w % 128 + 128 = omega arith in
    let more : leb 128 w ≡ true = ground arith in rw (more, e)

read_groups-group_bytes :
    (k fuel rounds : ℕ) (r : ByteReader) (value shift w : ℕ) (rest : List ℕ)
    → w < 128 ^ suc k
    → w ≤ fuel
    → suc k ≤ rounds
    → shift + 7 * k ≤ 35
    → At r (group_bytes fuel w ++ rest)
    → Reads (read_groups rounds r value shift) (value + w * 2 ^ shift) rest
read_groups-group_bytes k fuel zero r value shift w rest hw hf hr hs a = absurd (omega arith)
read_groups-group_bytes zero fuel (suc rounds) r value shift w rest hw hf hr hs a =
    read_last rounds r value shift w rest hw (omega arith) (rw (group_bytes_last fuel w hw) at a)
read_groups-group_bytes (suc k) zero (suc rounds) r value shift w rest hw hf hr hs a =
    read_last rounds r value shift w rest (omega arith) (omega arith)
      (rw (group_bytes_last 0 w (omega arith)) at a)
read_groups-group_bytes (suc k) (suc fuel) (suc rounds) r value shift w rest hw hf hr hs a =
    elim (Bool-cases (leb 128 w)) [
      | inr last ↦
          read_last rounds r value shift w rest (ground arith) (omega arith)
            (rw (group_bytes_last (suc fuel) w (ground arith)) at a)
      | inl more ↦
          let large : 128 ≤ w = ground arith in
          let (r1, e1, a1) =
            read_inner rounds r value shift (w % 128) (group_bytes fuel (w / 128) ++ rest)
              (omega arith) (omega arith) (rw (group_bytes_more fuel w large) at a) in
          let (r2, e2, a2) =
            read_groups-group_bytes k fuel rounds r1 (value + w % 128 * 2 ^ shift) (shift + 7)
              (w / 128) rest (omega arith) (omega arith) (omega arith) (omega arith) a1 in
          let sum : value + w % 128 * 2 ^ shift + w / 128 * 2 ^ (shift + 7)
              ≡ value + w * 2 ^ shift =
            omega (arith, split_group w shift) in
          (r2, e1 ∙ rw sum at e2, a2)
    ]

-- The first byte: the flags keep out of the prefix.
abbrev pub Fits : ℕ → ℕ → Type 0
Fits prefix_bits flags =
    (v : ℕ)
    → v ≤ prefix_max prefix_bits
    → (bit_and (bit_or flags v % 256) (prefix_max prefix_bits) ≡ v)

pub seven_Fits : (flags : ℕ) → (flags ≡ 0x80) ⊎ (flags ≡ 0) → Fits 7 flags
seven_Fits flags (inl e) v k = rw e (omega (arith, set_top_bit v, low_seven (bit_or 0x80 v % 256)))
seven_Fits flags (inr e) v k = rw e (omega (arith, set_no_bit v, low_seven (bit_or 0 v % 256)))

pub four_Fits : (flags : ℕ) → (flags ≡ 0x10) ⊎ (flags ≡ 0) → Fits 4 flags
four_Fits flags (inl e) v k = rw e (omega (arith, set_bit_four v, low_four (bit_or 0x10 v % 256)))
four_Fits flags (inr e) v k = rw e (omega (arith, set_no_bit v, low_four (bit_or 0 v % 256)))

module _ (r r1 : ByteReader) (prefix_bits byte : ℕ) (read : read_u8 r ≡ ok (byte, r1)) where
  read_integer_small :
      (value : ℕ)
      → bit_and byte (prefix_max prefix_bits) ≡ value
      → ltb value (prefix_max prefix_bits) ≡ true
      → read_integer r prefix_bits ≡ ok (value, r1)
  unfolding read_integer
  read_integer_small value masked small = rw (read, masked, small)

  read_integer_large :
      bit_and byte (prefix_max prefix_bits) ≡ prefix_max prefix_bits
      → read_integer r prefix_bits ≡ read_groups 7 r1 (prefix_max prefix_bits) 0
  unfolding read_integer
  read_integer_large masked =
      let full : ltb (prefix_max prefix_bits) (prefix_max prefix_bits) ≡ false = ground arith in
      rw (read, masked, full)

-- readInteger gives back the value that writeInteger wrote, for a value below 2^42.
pub read_integer-integer_bytes :
    (value prefix_bits flags : ℕ) (r : ByteReader) (rest : List ℕ)
    → Fits prefix_bits flags
    → value < 2 ^ 42
    → At r (integer_bytes value prefix_bits flags ++ rest)
    → Reads (read_integer r prefix_bits) value rest
unfolding integer_bytes
read_integer-integer_bytes value prefix_bits flags r rest f h a =
    let top = prefix_max prefix_bits in
    elim (Bool-cases (ltb value top)) [
      | inl small ↦
          let (r1, e, a1) = read_u8-At r (bit_or flags value % 256) rest (rw small at a) in
          (r1, read_integer_small r r1 prefix_bits _ e value (f value (ground arith)) small, a1)
      | inr large ↦
          let (r1, e1, a1) =
            read_u8-At r (bit_or flags top % 256) (group_bytes (value - top) (value - top) ++ rest)
              (rw large at a) in
          let (r2, e2, a2) =
            read_groups-group_bytes 5 (value - top) 7 r1 top 0 (value - top) rest (omega arith)
              (omega arith) (omega arith) (omega arith) a1 in
          let whole : top + (value - top) * 2 ^ 0 ≡ value = ground arith in
          (r2, read_integer_large r r1 prefix_bits _ e1 (f top (omega arith)) ∙ rw whole at e2, a2)
    ]

-- readInteger takes back what writeInteger wrote into an empty writer, and leaves nothing: for every
-- value below 2^42, and a prefix that the value and the flags share without a clash.
pub read_integer-write_integer :
    (value prefix_bits flags : ℕ)
    → Fits prefix_bits flags
    → value < 2 ^ 42
    → Reads
        (read_integer
          (byte_reader (written (write_integer (byte_writer 64) value prefix_bits flags)))
          prefix_bits)
        value
        []
read_integer-write_integer value prefix_bits flags f h =
    let (e, v) =
      write_integer-Writes (byte_writer 64) value prefix_bits flags
        (byte_writer-Writes 64 (omega arith)) in
    let bytes = integer_bytes value prefix_bits flags in
    read_integer-integer_bytes value prefix_bits flags _ [] f h
      (rw (e, append-nil bytes) (byte_reader-At bytes))
