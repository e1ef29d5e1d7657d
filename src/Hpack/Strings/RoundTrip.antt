-- ===== src/Hpack/Strings/RoundTrip.antt =====
-- web/src/h2/hpack/hpack.ts: `readString` on what `writeString` wrote.
use mathlib.Core.Path.{subst}
use Prim.Native.Nat.{bit_and, bit_or}
use grpc_bridge.Prelude.{
  ℕ, zero, suc, ◌+◌, ◌-◌, ◌/◌, ◌%◌, ◌^◌, ◌<◌, ◌≡◌, refl, ap, ◌⊎◌, inl, inr, true, false, not, List,
  [], ◌∷◌, ◌++◌, length, replicate, ltb, ◌==◌, if◌then◌else◌, length-append, length-replicate,
  append_assoc, Bool-cases, arith,
}
use grpc_bridge.Prelude.Bits.{top_bit, set_top_bit, set_no_bit}
use grpc_bridge.Errors.{Result, ok}
use grpc_bridge.Bytes.{ByteWriter, ByteReader, put_bytes, remaining}
use grpc_bridge.Bytes.Written.{Writes, put_bytes-Writes}
use grpc_bridge.Bytes.Reader.{At, peek-At, remaining-At, read_bytes-At}
use grpc_bridge.Text.{Text, encode_utf8, decode_utf8}
use grpc_bridge.Text.RoundTrip.{NoMark, decode_utf8-encode_utf8}
use grpc_bridge.Text.WellFormed.{IsWellFormed, encode_utf8-IsByte}
use grpc_bridge.Hpack.Integer.{prefix_max, write_integer}
use grpc_bridge.Hpack.Integer.RoundTrip.{
  integer_bytes, group_bytes, write_integer-Writes, read_integer-integer_bytes, seven_Fits,
}
use grpc_bridge.Hpack.Huffman.{
  code_of, encoded_bit_length, huffman_encode, huffman_shorter, huffman_decode,
}
use grpc_bridge.Hpack.Huffman.Bits.{low_bits}
use grpc_bridge.Hpack.Huffman.Writer.{symbol_bits, padding, huffman_encode-bits, length-bits_of}
use grpc_bridge.Hpack.Huffman.RoundTrip.{huffman_decode-huffman_encode}
use grpc_bridge.Hpack.Strings.{write_string, read_string}

-- A Huffman coded string is no longer than its bytes where it is chosen.
length-low_bits : (n code : ℕ) → length (low_bits n code) ≡ n
unfolding low_bits
length-low_bits zero code = refl
length-low_bits (suc n) code = ap suc (length-low_bits n code)

length-symbol_bits : (input : List ℕ) → length (symbol_bits input) ≡ encoded_bit_length input
unfolding symbol_bits encoded_bit_length
length-symbol_bits [] = refl
length-symbol_bits (byte ∷ input) = omega (
  arith,
  length-append (low_bits (code_of byte).1 (code_of byte).0) (symbol_bits input),
  length-low_bits (code_of byte).1 (code_of byte).0,
  length-symbol_bits input,
)

length-huffman_encode :
    (input : List ℕ) → length (huffman_encode input) ≡ (encoded_bit_length input + 7) / 8
length-huffman_encode input = omega (
  arith,
  length-bits_of (huffman_encode input),
  ap length (huffman_encode-bits input),
  length-append (symbol_bits input) (replicate (padding input) 1),
  length-symbol_bits input,
  length-replicate {A = ℕ} (padding input) 1,
)

huffman_encode-shorter :
    (input : List ℕ) → huffman_shorter input ≡ true → length (huffman_encode input) < length input
unfolding huffman_shorter
huffman_encode-shorter input e = ground (arith, length-huffman_encode input)

-- The bytes of a string.
pub string_bytes : Text → List ℕ
string_bytes s =
    let raw = encode_utf8 s in
    if huffman_shorter raw
    then integer_bytes (length (huffman_encode raw)) 7 0x80 ++ huffman_encode raw
    else integer_bytes (length raw) 7 0x00 ++ raw

pub write_string-Writes :
    (w : ByteWriter) {bs : List ℕ} (s : Text)
    → Writes w bs
    → Writes (write_string w s) (bs ++ string_bytes s)
unfolding write_string string_bytes
write_string-Writes w {bs} s h = elim (Bool-cases (huffman_shorter (encode_utf8 s))) [
  | inl short ↦ rw short (pieces 0x80 (huffman_encode (encode_utf8 s)))
  | inr long ↦ rw long (pieces 0x00 (encode_utf8 s))
]
  where
    pieces :
        (flags : ℕ) (bytes : List ℕ)
        → Writes
            (put_bytes (write_integer w (length bytes) 7 flags) bytes)
            (bs ++ (integer_bytes (length bytes) 7 flags ++ bytes))
    pieces flags bytes =
        subst (Writes (put_bytes (write_integer w (length bytes) 7 flags) bytes))
          (append_assoc bs (integer_bytes (length bytes) 7 flags) bytes)
          (put_bytes-Writes _ bytes (write_integer-Writes w (length bytes) 7 flags h))

-- The flag of the first byte.
pub record Begins (flags : ℕ) (bytes : List ℕ) : Type 0 where
  pub first : ℕ
  pub more : List ℕ
  pub whole : bytes ≡ first ∷ more
  pub flag : bit_and first 0x80 ≡ flags

flag_kept :
    (flags v : ℕ)
    → (flags ≡ 0x80) ⊎ (flags ≡ 0)
    → v < 128
    → bit_and (bit_or flags v % 256) 0x80 ≡ flags
flag_kept flags v (inl e) h = rw e (omega (arith, set_top_bit v, top_bit (bit_or 0x80 v % 256)))
flag_kept flags v (inr e) h = rw e (omega (arith, set_no_bit v, top_bit (bit_or 0 v % 256)))

pub integer_bytes-Begins :
    (flags value : ℕ) → (flags ≡ 0x80) ⊎ (flags ≡ 0) → Begins flags (integer_bytes value 7 flags)
unfolding integer_bytes
integer_bytes-Begins flags value f = elim (Bool-cases (ltb value (prefix_max 7))) [
  | inl small ↦ rw small (record {
    first = bit_or flags value % 256;
    more = [];
    whole = refl;
    flag = flag_kept flags value f (ground arith);
  })
  | inr large ↦ rw large (record {
    first = bit_or flags (prefix_max 7) % 256;
    more = group_bytes (value - prefix_max 7) (value - prefix_max 7);
    whole = refl;
    flag = flag_kept flags (prefix_max 7) f (omega arith);
  })
]

-- What a read of a string gives, and where it leaves the reader.
abbrev pub ReadsText : Result (Text × ByteReader) → Text → List ℕ → Type 0
ReadsText result s rest = (r' : ByteReader) × (result ≡ ok (s, r')) × At r' rest

abbrev decoded : ℕ → List ℕ → Result (List ℕ)
decoded first bytes = if not (bit_and first 0x80 == 0) then huffman_decode bytes else ok bytes

module _ (r : ByteReader) (flags : ℕ) (f : (flags ≡ 0x80) ⊎ (flags ≡ 0))
    (bytes raw rest : List ℕ) where
  coded-ReadsText :
      (if not (flags == 0) then huffman_decode bytes else ok bytes) ≡ ok raw
      → length bytes < 2 ^ 42
      → At r (integer_bytes (length bytes) 7 flags ++ (bytes ++ rest))
      → ReadsText (read_string r) (decode_utf8 raw) rest
  unfolding read_string
  coded-ReadsText e small a =
      let b = integer_bytes-Begins flags (length bytes) f in
      let p = peek-At r b.first (b.more ++ (bytes ++ rest)) (rw b.whole at a) in
      let (r1, e1, a1) =
        read_integer-integer_bytes (length bytes) 7 flags r (bytes ++ rest) (seven_Fits flags f)
          small a in
      let room : ltb (remaining r1) (length bytes) ≡ false =
        ground (arith, remaining-At r1 (bytes ++ rest) a1, length-append bytes rest) in
      let (r2, e2, a2) = read_bytes-At r1 (length bytes) bytes rest refl a1 in
      let d : decoded b.first bytes ≡ ok raw = rw b.flag e in (r2, rw (p, e1, room, e2, d), a2)

-- A string that the coding takes: no lone surrogates, no byte order mark in front, and of a length
-- that the length's integer holds.
pub record IsPlain (s : Text) : Type 0 where
  pub formed : IsWellFormed s
  pub no_mark : NoMark s
  pub short : length (encode_utf8 s) < 2 ^ 42

pub read_string-string_bytes :
    (s : Text) (r : ByteReader) (rest : List ℕ)
    → IsPlain s
    → At r (string_bytes s ++ rest)
    → ReadsText (read_string r) s rest
unfolding string_bytes
read_string-string_bytes s r rest plain a =
    let raw = encode_utf8 s in
    let text_back = decode_utf8-encode_utf8 plain.formed plain.no_mark in
    subst (λ (x : Text). ReadsText (read_string r) x rest) text_back
      (elim (Bool-cases (huffman_shorter raw)) [
        | inl short ↦
            coded-ReadsText r 0x80 (inl refl) (huffman_encode raw) raw rest
              (huffman_decode-huffman_encode raw (encode_utf8-IsByte plain.formed))
              (omega (arith, huffman_encode-shorter raw short, plain.short))
              (subst (At r)
                (append_assoc (integer_bytes (length (huffman_encode raw)) 7 0x80)
                  (huffman_encode raw) rest)
                (rw short at a))
        | inr long ↦
            coded-ReadsText r 0 (inr refl) raw raw rest refl plain.short
              (subst (At r) (append_assoc (integer_bytes (length raw) 7 0) raw rest) (rw long at a))
      ])
