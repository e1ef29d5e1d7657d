-- ===== src/Hpack/Encoder/Fields.antt =====
-- web/src/h2/hpack/hpack.ts: the bytes that `HpackEncoder.encode` writes for a header.
use mathlib.Core.Path.{subst}
use Prim.Native.Nat.{bit_and, bit_or}
use grpc_bridge.Prelude.{
  ℕ, ◌+◌, ◌-◌, ◌%◌, ◌≤◌, ◌<◌, ◌≡◌, refl, ap, ◌⊎◌, inl, inr, Bool, true, false, Option, none, some,
  List, [], ◌∷◌, ◌++◌, length, ltb, if◌then◌else◌, if_case, length-append, append_assoc, Bool-cases,
  arith,
}
use grpc_bridge.Prelude.Bits.{agree, agree_sound, set_no_bit, set_bit_four}
use grpc_bridge.Bytes.{ByteWriter}
use grpc_bridge.Bytes.Written.{Writes}
use grpc_bridge.Text.{Text}
use grpc_bridge.Hpack.Integer.{prefix_max, write_integer}
use grpc_bridge.Hpack.Integer.RoundTrip.{integer_bytes, group_bytes, write_integer-Writes}
use grpc_bridge.Hpack.Strings.{write_string}
use grpc_bridge.Hpack.Strings.RoundTrip.{string_bytes, write_string-Writes, IsPlain}
use grpc_bridge.Hpack.StaticTable.{static_table}
use grpc_bridge.Hpack.Decoder.{Header}
use grpc_bridge.Hpack.Encoder.{find_name, find_pair, encode_header}
use grpc_bridge.Hpack.Encoder.Static.{no_nul}

-- A header whose name and value the coding takes. A NUL in a name would mix up name and value.
pub record IsSendable (name value : Text) : Type 0 where
  pub name_plain : IsPlain name
  pub value_plain : IsPlain value
  pub no_nul_name : no_nul name ≡ true

-- The flags of a literal.
abbrev pub literal_flags : Bool → ℕ
literal_flags never_index = if never_index then 0x10 else 0x00

pub flags_case : (b : Bool) → (literal_flags b ≡ 0x10) ⊎ (literal_flags b ≡ 0)
flags_case true = inl refl
flags_case false = inr refl

-- The bytes of a header.
abbrev pub name_bytes : Option ℕ → ℕ → Text → List ℕ
name_bytes (some i) flags name = integer_bytes i 4 flags
name_bytes none flags name = integer_bytes 0 4 flags ++ string_bytes name

abbrev pub field_bytes_of : Option ℕ → ℕ → Text → Text → List ℕ
field_bytes_of (some i) flags name value = integer_bytes i 7 0x80
field_bytes_of none flags name value =
    name_bytes (find_name name static_table 1) flags name ++ string_bytes value

abbrev pub field_bytes : Bool → Text → Text → List ℕ
field_bytes never_index name value =
    field_bytes_of (find_pair (name ++ 0 ∷ value) static_table 1) (literal_flags never_index) name
      value

module _ (to_lower : Text → Text) where
  abbrev pub header_field : Header → List ℕ
  header_field h = field_bytes h.never_index (to_lower h.name) h.value

  pub encode_header-Writes :
      (w : ByteWriter) {bs : List ℕ} (header : Header)
      → Writes w bs
      → Writes (encode_header to_lower w header) (bs ++ header_field header)
  unfolding encode_header
  encode_header-Writes w {bs} header h =
      by_pair (find_pair (to_lower header.name ++ 0 ∷ header.value) static_table 1)
    where
      name : Text
      name = to_lower header.name

      flags : ℕ
      flags = literal_flags header.never_index

      named : Option ℕ → ByteWriter
      named o = elim o [
        | some i ↦ write_integer w i 4 flags
        | none ↦ write_string (write_integer w 0 4 flags) name
      ]

      named_Writes : (o : Option ℕ) → Writes (named o) (bs ++ name_bytes o flags name)
      named_Writes (some i) = write_integer-Writes w i 4 flags h
      named_Writes none =
          subst (Writes (named none))
            (append_assoc bs (integer_bytes 0 4 flags) (string_bytes name))
            (write_string-Writes _ name (write_integer-Writes w 0 4 flags h))

      by_pair :
          (o : Option ℕ)
          → Writes
              (elim o [
                | some pair ↦ write_integer w pair 7 0x80
                | none ↦ write_string (named (find_name name static_table 1)) header.value
              ])
              (bs ++ field_bytes_of o flags name header.value)
      by_pair (some pair) = write_integer-Writes w pair 7 0x80 h
      by_pair none =
          subst (Writes (write_string (named (find_name name static_table 1)) header.value))
            (append_assoc bs (name_bytes (find_name name static_table 1) flags name)
              (string_bytes header.value))
            (write_string-Writes _ header.value (named_Writes (find_name name static_table 1)))

-- The first byte of a literal has none of the three bits that stand for other fields.
abbrev no_flags : ℕ → ℕ
no_flags x = bit_and x 0x80 + bit_and x 0x40 + bit_and x 0x20

no_flags_small : (x : ℕ) → x < 32 → no_flags x ≡ 0
unfolding agree
no_flags_small = agree_sound no_flags (λ x. 0) 32 refl

pub record BeginsLiteral (bytes : List ℕ) : Type 0 where
  pub first : ℕ
  pub more : List ℕ
  pub whole : bytes ≡ first ∷ more
  pub plain : no_flags first ≡ 0

pub front :
    {bytes : List ℕ} (behind : List ℕ) → BeginsLiteral bytes → BeginsLiteral (bytes ++ behind)
front behind b = record {
  first = b.first;
  more = b.more ++ behind;
  whole = ap (λ (x : List ℕ). x ++ behind) b.whole;
  plain = b.plain;
}

literal_first :
    (flags v : ℕ) → (flags ≡ 0x10) ⊎ (flags ≡ 0) → v ≤ 15 → no_flags (bit_or flags v % 256) ≡ 0
literal_first flags v (inl e) h =
    no_flags_small (bit_or flags v % 256) (rw e (omega (arith, set_bit_four v)))
literal_first flags v (inr e) h =
    no_flags_small (bit_or flags v % 256) (rw e (omega (arith, set_no_bit v)))

pub integer_bytes-BeginsLiteral :
    (flags value : ℕ) → (flags ≡ 0x10) ⊎ (flags ≡ 0) → BeginsLiteral (integer_bytes value 4 flags)
unfolding integer_bytes
integer_bytes-BeginsLiteral flags value f = elim (Bool-cases (ltb value (prefix_max 4))) [
  | inl small ↦ rw small (record {
    first = bit_or flags value % 256;
    more = [];
    whole = refl;
    plain = literal_first flags value f (ground arith);
  })
  | inr large ↦ rw large (record {
    first = bit_or flags (prefix_max 4) % 256;
    more = group_bytes (value - prefix_max 4) (value - prefix_max 4);
    whole = refl;
    plain = literal_first flags (prefix_max 4) f (omega arith);
  })
]

-- A field takes a byte at least.
integer_bytes_pos :
    (value prefix_bits flags : ℕ) → 0 < length (integer_bytes value prefix_bits flags)
unfolding integer_bytes
integer_bytes_pos value prefix_bits flags =
    if_case (λ (x : List ℕ). 0 < length x) (ltb value (prefix_max prefix_bits)) _ _
      (λ e. omega arith) (λ e. omega arith)

name_bytes_pos : (o : Option ℕ) (flags : ℕ) (name : Text) → 0 < length (name_bytes o flags name)
name_bytes_pos (some i) flags name = integer_bytes_pos i 4 flags
name_bytes_pos none flags name = omega (
  arith,
  integer_bytes_pos 0 4 flags,
  length-append (integer_bytes 0 4 flags) (string_bytes name),
)

pub field_bytes_pos :
    (o : Option ℕ) (flags : ℕ) (name value : Text) → 0 < length (field_bytes_of o flags name value)
field_bytes_pos (some i) flags name value = integer_bytes_pos i 7 0x80
field_bytes_pos none flags name value =
    let named = name_bytes (find_name name static_table 1) flags name in
    omega (
      arith,
      name_bytes_pos (find_name name static_table 1) flags name,
      length-append named (string_bytes value),
    )
