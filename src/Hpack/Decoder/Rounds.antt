-- ===== src/Hpack/Decoder/Rounds.antt =====
-- The loop over a header block has rounds enough.
use grpc_bridge.Prelude.{
  ℕ, zero, suc, ◌+◌, ◌*◌, ◌^◌, ◌≤◌, ◌<◌, ◌≡◌, refl, ap, ◌∙◌, Bool, true, false, not, Option, List,
  length, ltb, ◌==◌, if◌then◌else◌, Bool-cases, inl, inr, arith,
}
use Prim.Native.Nat.{bit_and}
use grpc_bridge.Errors.{
  Error, Result, ok, err, ◌>>=◌, Result-cases, connection_failure, compression_error,
}
use grpc_bridge.Bytes.{byte_reader, ByteReader, remaining, peek, read_u8, read_bytes}
use grpc_bridge.Text.{Text, decode_utf8}
use grpc_bridge.Hpack.Integer.{prefix_max, read_groups, read_integer}
use grpc_bridge.Hpack.Huffman.{huffman_decode}
use grpc_bridge.Hpack.Strings.{read_string}
use grpc_bridge.Hpack.StaticTable.{HeaderEntry}
use grpc_bridge.Hpack.Table.{HpackDecoder, entry_at, apply_max_size}
use grpc_bridge.Hpack.Decoder.{
  HeaderDecodeLimits, Budget, read_literal, read_field, record_field, field_loop, no_headers,
  accept, decode,
}

-- `r1` is the reader `r`, at least `n` bytes further on.
record Further (n : ℕ) (r r1 : ByteReader) : Type 0 where
  same : r1.buf ≡ r.buf
  moved : r.cursor + n ≤ r1.cursor

abbrev Reads : {A : Type 0} → ℕ → ByteReader → Result (A × ByteReader) → Type 0
Reads n r (ok (a, r1)) = Further n r r1
Reads n r (err e) = Unit {0}

further :
    {A : Type 0} (n m : ℕ) (r r1 : ByteReader) (result : Result (A × ByteReader))
    → Further n r r1
    → Reads m r1 result
    → Reads (n + m) r result
further n m r r1 (ok (a, r2)) f g = record {
  same = g.same ∙ f.same;
  moved = omega (arith, f.moved, g.moved);
}
further n m r r1 (err e) f g = tt

module _ {A B : Type 0} (n m : ℕ) (r : ByteReader) where
  bind-Reads :
      (result : Result (A × ByteReader)) (k : A × ByteReader → Result (B × ByteReader))
      → Reads n r result
      → ((a : A) (r1 : ByteReader) → Reads m r1 (k (a, r1)))
      → Reads (n + m) r (result >>= k)
  bind-Reads (ok (a, r1)) k f h = further n m r r1 (k (a, r1)) f (h a r1)
  bind-Reads (err e) k f h = tt

module _ {A B : Type 0} (n : ℕ) (r : ByteReader) where
  pure-Reads :
      (result : Result A) (k : A → Result (B × ByteReader))
      → ((a : A) → Reads n r (k a))
      → Reads n r (result >>= k)
  pure-Reads (ok a) k h = h a
  pure-Reads (err e) k h = tt

module _ {A : Type 0} (n : ℕ) (r : ByteReader) where
  if-Reads :
      (b : Bool) (x y : Result (A × ByteReader))
      → Reads n r x
      → Reads n r y
      → Reads n r (if b then x else y)
  if-Reads true x y hx hy = hx
  if-Reads false x y hx hy = hy

  weaken : (result : Result (A × ByteReader)) → Reads (suc n) r result → Reads n r result
  weaken (ok (a, r1)) f = record { same = f.same; moved = omega (arith, f.moved) }
  weaken (err e) f = tt

stay : (r : ByteReader) → Further 0 r r
stay r = record { same = refl; moved = omega arith }

read_u8-Reads : (r : ByteReader) → Reads 1 r (read_u8 r)
unfolding read_u8
read_u8-Reads r = pure-Reads 1 r (peek r) _ λ v. record { same = refl; moved = omega arith }

read_groups-Reads :
    (fuel : ℕ) (r : ByteReader) (value shift : ℕ) → Reads 0 r (read_groups fuel r value shift)
unfolding read_groups
read_groups-Reads zero r value shift = tt
read_groups-Reads (suc fuel) r value shift = weaken 0 r (read_groups (suc fuel) r value shift) (
    bind-Reads 1 0 r (read_u8 r) _ (read_u8-Reads r) λ byte r1.
      let value1 = value + bit_and byte 0x7f * 2 ^ shift in
      if-Reads 0 r1 (ltb 42 (shift + 7)) (err (connection_failure compression_error))
        (if not (bit_and byte 0x80 == 0)
          then read_groups fuel r1 value1 (shift + 7)
          else ok (value1, r1))
        tt
        (if-Reads 0 r1 (not (bit_and byte 0x80 == 0)) (read_groups fuel r1 value1 (shift + 7))
          (ok (value1, r1)) (read_groups-Reads fuel r1 value1 (shift + 7)) (stay r1)))

read_integer-Reads : (r : ByteReader) (prefix_bits : ℕ) → Reads 1 r (read_integer r prefix_bits)
unfolding read_integer
read_integer-Reads r prefix_bits = bind-Reads 1 0 r (read_u8 r) _ (read_u8-Reads r) λ byte r1.
    let value = bit_and byte (prefix_max prefix_bits) in
    if-Reads 0 r1 (ltb value (prefix_max prefix_bits)) (ok (value, r1)) (read_groups 7 r1 value 0)
      (stay r1) (read_groups-Reads 7 r1 value 0)

read_bytes-Reads : (r : ByteReader) (n : ℕ) → Reads 0 r (read_bytes n r)
unfolding read_bytes
read_bytes-Reads r n = record { same = refl; moved = omega arith }

read_string-Reads : (r : ByteReader) → Reads 1 r (read_string r)
unfolding read_string
read_string-Reads r = pure-Reads 1 r (peek r) _ λ first.
    bind-Reads 1 0 r (read_integer r 7) _ (read_integer-Reads r 7) λ size r1.
      let text_of : List ℕ × ByteReader → Result (Text × ByteReader) = λ (bytes, r2).
        (if not (bit_and first 0x80 == 0) then huffman_decode bytes else ok bytes) >>= λ raw.
        ok (decode_utf8 raw, r2) in
      if-Reads 0 r1 (ltb (remaining r1) size) (err (connection_failure compression_error))
        (read_bytes size r1 >>= text_of) tt
        (bind-Reads 0 0 r1 (read_bytes size r1) text_of (read_bytes-Reads r1 size) λ bytes r2.
          pure-Reads 0 r2 (if not (bit_and first 0x80 == 0) then huffman_decode bytes else ok bytes)
            _ λ raw. stay r2)

read_literal-Reads :
    (d : HpackDecoder) (prefix_bits : ℕ) (r : ByteReader) → Reads 1 r (read_literal d prefix_bits r)
unfolding read_literal
read_literal-Reads d prefix_bits r =
    bind-Reads 1 0 r (read_integer r prefix_bits) _ (read_integer-Reads r prefix_bits)
      λ name_index r1.
        bind-Reads 0 0 r1
          (if name_index == 0
            then read_string r1
            else (entry_at d name_index >>= λ entry. ok (entry.0, r1)))
          _
          (if-Reads 0 r1 (name_index == 0) (read_string r1)
            (entry_at d name_index >>= λ entry. ok (entry.0, r1))
            (weaken 0 r1 (read_string r1) (read_string-Reads r1))
            (pure-Reads 0 r1 (entry_at d name_index) _ λ entry. stay r1))
          λ name r2.
            bind-Reads 0 0 r2 (read_string r2) _
              (weaken 0 r2 (read_string r2) (read_string-Reads r2)) λ value r3. stay r3

-- A field takes a byte at least.
abbrev ReadsField : ByteReader → Result (HpackDecoder × Option HeaderEntry × ByteReader) → Type 0
ReadsField r (ok (d, field, r1)) = Further 1 r r1
ReadsField r (err e) = Unit {0}

bind-ReadsField :
    {A : Type 0} (r : ByteReader) (result : Result (A × ByteReader))
    (k : A × ByteReader → Result (HpackDecoder × Option HeaderEntry × ByteReader))
    → Reads 1 r result
    → ((a : A) (r1 : ByteReader) → Further 1 r r1 → ReadsField r (k (a, r1)))
    → ReadsField r (result >>= k)
bind-ReadsField r (ok (a, r1)) k f h = h a r1 f
bind-ReadsField r (err e) k f h = tt

pure-ReadsField :
    {A : Type 0} (r : ByteReader) (result : Result A)
    (k : A → Result (HpackDecoder × Option HeaderEntry × ByteReader))
    → ((a : A) → ReadsField r (k a))
    → ReadsField r (result >>= k)
pure-ReadsField r (ok a) k h = h a
pure-ReadsField r (err e) k h = tt

if-ReadsField :
    (r : ByteReader) (b : Bool) (x y : Result (HpackDecoder × Option HeaderEntry × ByteReader))
    → ReadsField r x
    → ReadsField r y
    → ReadsField r (if b then x else y)
if-ReadsField r true x y hx hy = hx
if-ReadsField r false x y hx hy = hy

read_field-ReadsField : (d : HpackDecoder) (r : ByteReader) → ReadsField r (read_field d r)
unfolding read_field
read_field-ReadsField d r = pure-ReadsField r (peek r) _ λ first.
    if-ReadsField r (not (bit_and first 0x80 == 0)) _ _
      (bind-ReadsField r (read_integer r 7) _ (read_integer-Reads r 7) λ index r1 f.
        if-ReadsField r (index == 0) _ _ tt (pure-ReadsField r (entry_at d index) _ λ entry. f))
      (if-ReadsField r (not (bit_and first 0x40 == 0)) _ _
        (bind-ReadsField r (read_literal d 6 r) _ (read_literal-Reads d 6 r) λ entry r1 f. f)
        (if-ReadsField r (not (bit_and first 0x20 == 0)) _ _
          (bind-ReadsField r (read_integer r 5) _ (read_integer-Reads r 5)
            λ new_size r1 f. pure-ReadsField r (apply_max_size d new_size) _ λ d1. f)
          (bind-ReadsField r (read_literal d 4 r) _ (read_literal-Reads d 4 r) λ entry r1 f. f)))

-- A whole run of the loop, without fuel: it ends well only with every byte read, each round begins
-- with bytes left and leaves fewer, and what a round reads is recorded.
pub data Loops (limits : Option HeaderDecodeLimits) (out : HpackDecoder × Result Budget)
    : HpackDecoder → ByteReader → Budget → Type 0 where
  all_read :
      {d : HpackDecoder} {r : ByteReader} {b : Budget}
      → remaining r ≡ 0
      → out ≡ (d, ok b)
      → Loops limits out d r b
  throws :
      {d : HpackDecoder} {r : ByteReader} {b : Budget} (e : Error)
      → 0 < remaining r
      → read_field d r ≡ err e
      → out ≡ (d, err e)
      → Loops limits out d r b
  goes_on :
      {d : HpackDecoder} {r : ByteReader} {b : Budget} (d1 : HpackDecoder)
      (field : Option HeaderEntry) (r1 : ByteReader)
      → read_field d r ≡ ok (d1, field, r1)
      → remaining r1 < remaining r
      → Loops limits out d1 r1 (record_field limits field b)
      → Loops limits out d r b

field_loop-Loops :
    (fuel : ℕ) (limits : Option HeaderDecodeLimits) (d : HpackDecoder) (r : ByteReader) (b : Budget)
    → remaining r ≤ fuel
    → Loops limits (field_loop fuel limits d r b) d r b
unfolding field_loop remaining
field_loop-Loops zero limits d r b h = all_read (omega arith) refl
field_loop-Loops (suc fuel) limits d r b h = elim (Bool-cases (remaining r == 0)) [
  | inl done ↦ all_read (ground arith) (rw (done, field_loop) refl)
  | inr unread ↦
      let left : 0 < remaining r = ground arith in
      elim (Result-cases (read_field d r)) [
        | inr (e', e) ↦ throws e' left e (rw (unread, e, field_loop) refl)
        | inl ((d1, field, r1), e) ↦
            let f : Further 1 r r1 = rw e at (read_field-ReadsField d r) in
            let size = ap length f.same in
            let fewer : remaining r1 < remaining r = omega (arith, f.moved, size, left) in
            rw (unread, e, field_loop)
              (goes_on d1 field r1 e fewer (
                field_loop-Loops fuel limits d1 r1 (record_field limits field b)
                  (omega (arith, fewer))))
      ]
]

-- The loop of `decode` comes to its end on any block: each round begins with bytes left and leaves
-- fewer, and it stops only with an error or with every byte read, never because the rounds that the
-- model allows, one for each byte of the block, are used up.
pub decode-Loops :
    (d : HpackDecoder) (block : List ℕ) (limits : Option HeaderDecodeLimits)
    → (out : HpackDecoder × Result Budget) × (Loops limits out d (byte_reader block) no_headers)
      × (decode d block limits ≡ (out.0, out.1 >>= accept limits))
unfolding decode remaining byte_reader
decode-Loops d block limits =
    let out = field_loop (length block) limits d (byte_reader block) no_headers in
    (
      out,
      field_loop-Loops (length block) limits d (byte_reader block) no_headers (omega arith),
      refl,
    )
