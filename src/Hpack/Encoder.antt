-- ===== src/Hpack/Encoder.antt =====
-- web/src/h2/hpack/hpack.ts: the lookup maps of the static table, and `HpackEncoder`.
pub mod Static
pub mod Fields
pub mod Reading
pub mod RoundTrip
use grpc_bridge.Prelude.{ℕ, suc, Option, none, some, List, [], ◌∷◌, ◌++◌, if◌then◌else◌}
use grpc_bridge.Bytes.{ByteWriter, byte_writer, written}
use grpc_bridge.Text.{Text, text_eq}
use grpc_bridge.Hpack.Integer.{write_integer}
use grpc_bridge.Hpack.Strings.{write_string}
use grpc_bridge.Hpack.StaticTable.{HeaderEntry, static_table}
use grpc_bridge.Hpack.Decoder.{Header}

-- `staticNameToIndex`: the first entry of the name, counted from `index`.
unfoldable pub find_name : Text → List HeaderEntry → ℕ → Option ℕ
find_name name [] index = none
find_name name ((n, v) ∷ entries) index =
    let behind = find_name name entries (suc index) in if text_eq name n then some index else behind

-- `staticPairToIndex`, whose keys join name and value by a NUL: a later entry overwrites.
unfoldable pub find_pair : Text → List HeaderEntry → ℕ → Option ℕ
find_pair key [] index = none
find_pair key ((n, v) ∷ entries) index = elim (find_pair key entries (suc index)) [
  | some later ↦ some later
  | none ↦ if text_eq key (n ++ 0 ∷ v) then some index else none
]

-- `to_lower` is `toLowerCase`.
module _ (to_lower : Text → Text) where
  unfoldable pub encode_header : ByteWriter → Header → ByteWriter
  encode_header w header =
      let name = to_lower header.name in
      elim (find_pair (name ++ 0 ∷ header.value) static_table 1) [
        | some pair ↦ write_integer w pair 7 0x80
        | none ↦
            let flags = if header.never_index then 0x10 else 0x00 in
            let named : ByteWriter = elim (find_name name static_table 1) [
              | some name_index ↦ write_integer w name_index 4 flags
              | none ↦ write_string (write_integer w 0 4 flags) name
            ] in
            write_string named header.value
      ]

  unfoldable pub encode_headers_from : ByteWriter → List Header → ByteWriter
  unfolding encode_header
  encode_headers_from w [] = w
  encode_headers_from w (header ∷ headers) = encode_headers_from (encode_header w header) headers

  unfoldable pub encode : List Header → List ℕ
  unfolding encode_headers_from
  encode headers = written (encode_headers_from (byte_writer 256) headers)
