-- ===== src/Hpack/Decoder.antt =====
-- web/src/h2/hpack/hpack.ts: `HpackDecoder.decode`, with its limits on the header list. An error
-- leaves the table as the fields before it made it.
pub mod Table
pub mod Limits
pub mod Rounds
use grpc_bridge.Prelude.{
  ℕ, zero, suc, ◌+◌, ◌≡◌, refl, Bool, true, false, not, ◌&&◌, ◌||◌, Option, none, some, List, [],
  ◌∷◌, ◌++◌, length, ltb, leb, ◌==◌, if◌then◌else◌,
}
use Prim.Native.Nat.{bit_and}
use grpc_bridge.Errors.{
  Result, ok, err, ◌>>=◌, connection_failure, stream_failure, compression_error, enhance_your_calm,
}
use grpc_bridge.Bytes.{ByteReader, byte_reader, peek, remaining}
use grpc_bridge.Text.{Text}
use grpc_bridge.Hpack.Integer.{read_integer}
use grpc_bridge.Hpack.Strings.{utf8_length, read_string}
use grpc_bridge.Hpack.StaticTable.{HeaderEntry}
use grpc_bridge.Hpack.Table.{HpackDecoder, entry_overhead, entry_at, insert, apply_max_size}

-- `never_index` is the encoder's; a decoded header has none.
pub record Header : Type 0 where
  pub name : Text
  pub value : Text
  pub never_index : Bool

pub record HeaderDecodeLimits : Type 0 where
  pub max_header_list_bytes : ℕ
  pub max_header_count : ℕ
  pub stream_id : Option ℕ

-- `budget`, with the headers so far.
pub record Budget : Type 0 where
  pub headers : List Header
  pub header_list_bytes : ℕ
  pub field_count : ℕ
  pub rejected : Bool

abbrev pub no_headers : Budget
no_headers = record { headers = []; header_list_bytes = 0; field_count = 0; rejected = false }

abbrev pub header_bytes : Text → Text → ℕ
header_bytes name value = utf8_length name + utf8_length value + entry_overhead

abbrev pub exceeds : Option HeaderDecodeLimits → ℕ → ℕ → Bool
exceeds none count bytes = false
exceeds (some limits) count bytes =
    leb limits.max_header_count count || ltb limits.max_header_list_bytes bytes

-- `recordHeader`.
unfoldable pub record_header : Option HeaderDecodeLimits → Text → Text → Budget → Budget
record_header limits name value b =
    let next_bytes = b.header_list_bytes + header_bytes name value in
    if b.rejected
    then b
    else if exceeds limits b.field_count next_bytes
    then record b {
      header_list_bytes = next_bytes;
      field_count = suc b.field_count;
      rejected = true;
    }
    else record {
      headers = b.headers ++ record { name = name; value = value; never_index = false } ∷ [];
      header_list_bytes = next_bytes;
      field_count = suc b.field_count;
      rejected = false;
    }

-- The name and the value of a literal.
unfoldable pub read_literal : HpackDecoder → ℕ → ByteReader → Result (HeaderEntry × ByteReader)
read_literal d prefix_bits r = do
  (name_index, r1) ← read_integer r prefix_bits
  (name, r2) ←
      if name_index == 0
      then read_string r1
      else (do entry ← entry_at d name_index; ok (entry.0, r1))
  (value, r3) ← read_string r2
  ok ((name, value), r3)

-- One round: the table, the field if it was one, and what is left to read.
unfoldable pub read_field :
    HpackDecoder → ByteReader → Result (HpackDecoder × Option HeaderEntry × ByteReader)
read_field d r = do
  first ← peek r
  if not (bit_and first 0x80 == 0)
      then (do
        (index, r1) ← read_integer r 7
        if index == 0
            then err (connection_failure compression_error)
            else (do entry ← entry_at d index; ok (d, some entry, r1)))
      else if not (bit_and first 0x40 == 0)
      then (do
        ((name, value), r1) ← read_literal d 6 r
        ok (insert d name value, some (name, value), r1))
      else if not (bit_and first 0x20 == 0)
      then (do (new_size, r1) ← read_integer r 5; d1 ← apply_max_size d new_size; ok (d1, none, r1))
      else (do (entry, r1) ← read_literal d 4 r; ok (d, some entry, r1))

abbrev pub record_field : Option HeaderDecodeLimits → Option HeaderEntry → Budget → Budget
record_field limits none b = b
record_field limits (some (name, value)) b = record_header limits name value b

-- `while (r.remaining > 0)`, on fuel.
unfoldable pub field_loop :
    ℕ
    → Option HeaderDecodeLimits
    → HpackDecoder
    → ByteReader
    → Budget
    → HpackDecoder × Result Budget
field_loop zero limits d r b = (d, ok b)
field_loop (suc fuel) limits d r b = elim (remaining r == 0) [
  | true ↦ (d, ok b)
  | false ↦ elim (read_field d r) [
    | err e ↦ (d, err e)
    | ok (d1, field, r1) ↦ field_loop fuel limits d1 r1 (record_field limits field b)
  ]
]

-- The end of `decode`.
unfoldable pub accept : Option HeaderDecodeLimits → Budget → Result (List Header)
accept limits b =
    if b.rejected then err (stream_failure enhance_your_calm (scope limits)) else ok b.headers
  where
    scope : Option HeaderDecodeLimits → Option ℕ
    scope none = none
    scope (some l) = l.stream_id

-- `decode(block, limits)`. A round reads a byte at least.
unfoldable pub decode :
    HpackDecoder → List ℕ → Option HeaderDecodeLimits → HpackDecoder × Result (List Header)
unfolding field_loop accept
decode d block limits =
    let (d1, result) = field_loop (length block) limits d (byte_reader block) no_headers in
    (d1, result >>= accept limits)
