-- ===== src/Hpack/Runs.antt =====
-- Runs of the HPACK coder on concrete values.
use grpc_bridge.Hpack.Huffman.RoundTrip.{huffman_decode-huffman_encode}
use grpc_bridge.Text.RoundTrip.{NoMark, decode_utf8-encode_utf8}
use grpc_bridge.Text.WellFormed.{ended, unit, pair, is_ascii, ascii-IsWellFormed}
use grpc_bridge.Hpack.Strings.RoundTrip.{IsPlain}
use grpc_bridge.Hpack.Encoder.{encode}
use grpc_bridge.Hpack.Encoder.Static.{no_nul}
use grpc_bridge.Hpack.Encoder.Fields.{IsSendable}
use grpc_bridge.Hpack.Encoder.RoundTrip.{AllSendable, decode-encode}
use grpc_bridge.Prelude.{
  ℕ, ◌+◌, ◌^◌, ◌<◌, leb, ◌&&◌, if◌then◌else◌, true, ◌∷◌, ◌≡◌, ◌≤◌, refl, false, none, some, length,
  List, [], arith,
}
use grpc_bridge.Bytes.{byte_reader, remaining, peek, read_u8, read_bytes}
use grpc_bridge.Text.{
  unit_bytes, skip_mark, utf8_loop, utf8_byte, utf8_lead, utf8_more, Text, text, encode_utf8,
  decode_utf8,
}
use grpc_bridge.Errors.{Result, ◌>>=◌, ok, stream_failure, enhance_your_calm, err}
use grpc_bridge.Hpack.Table.{HpackDecoder, hpack_decoder, entry_at}
use grpc_bridge.Hpack.Table.Bounds.{IsTable, hpack_decoder-IsTable}
use grpc_bridge.Hpack.Decoder.{
  Budget, accept, Header, HeaderDecodeLimits, decode, read_field, read_literal, record_header,
  no_headers,
}
use grpc_bridge.Hpack.Decoder.Rounds.{Loops, decode-Loops}
use grpc_bridge.Hpack.Decoder.Table.{decode-IsTable, decode_table}
use grpc_bridge.Hpack.Decoder.Limits.{list_bytes, decode_within}
use grpc_bridge.Hpack.Strings.{read_string, utf8_length}
use grpc_bridge.Hpack.StaticTable.{static_table}
use grpc_bridge.Hpack.HuffmanTable.{huffman_codes}
use grpc_bridge.Hpack.Huffman.{huffman_encode, huffman_decode, root}
use grpc_bridge.Hpack.Integer.{read_integer}

-- RFC 7541, C.4.1: "www.example.com".
huffman_encode_run :
    huffman_encode (text "www.example.com")
    ≡ 0xf1 ∷ 0xe3 ∷ 0xc2 ∷ 0xe5 ∷ 0xf2 ∷ 0x3a ∷ 0x6b ∷ 0xa0 ∷ 0xab ∷ 0x90 ∷ 0xf4 ∷ 0xff ∷ []
unfolding huffman_encode huffman_codes
huffman_encode_run = refl

huffman_decode_run :
    huffman_decode
      (0xf1 ∷ 0xe3 ∷ 0xc2 ∷ 0xe5 ∷ 0xf2 ∷ 0x3a ∷ 0x6b ∷ 0xa0 ∷ 0xab ∷ 0x90 ∷ 0xf4 ∷ 0xff ∷ [])
    ≡ ok (text "www.example.com")
unfolding huffman_decode root
huffman_decode_run = refl

-- RFC 7541, C.4.1: the first request.
abbrev first_request : List ℕ
first_request =
    0x82 ∷ 0x86 ∷ 0x84 ∷ 0x41 ∷ 0x8c ∷ 0xf1 ∷ 0xe3 ∷ 0xc2 ∷ 0xe5 ∷ 0xf2 ∷ 0x3a ∷ 0x6b ∷ 0xa0 ∷ 0xab
    ∷ 0x90 ∷ 0xf4 ∷ 0xff ∷ []

abbrev field : Text → Text → Header
field name value = record { name = name; value = value; never_index = false }

abbrev request_headers : List Header
request_headers =
    field (text ":method") (text "GET")
    ∷ field (text ":scheme") (text "http")
    ∷ field (text ":path") (text "/")
    ∷ field (text ":authority") (text "www.example.com")
    ∷ []

decode_run : (decode (hpack_decoder 4096) first_request none).1 ≡ ok request_headers
unfolding decode remaining byte_reader read_field peek read_integer read_u8 entry_at static_table
    read_literal read_string read_bytes huffman_decode root record_header decode_utf8
decode_run = refl

abbrev limits : ℕ → HeaderDecodeLimits
limits bytes = record { max_header_list_bytes = bytes; max_header_count = 10; stream_id = some 1 }

limited_run : (decode (hpack_decoder 4096) first_request (some (limits 180))).1 ≡ ok request_headers
unfolding decode remaining byte_reader read_field peek read_integer read_u8 entry_at static_table
    read_literal read_string read_bytes huffman_decode root record_header decode_utf8 utf8_length
limited_run = refl

rejected_run :
    (decode (hpack_decoder 4096) first_request (some (limits 179))).1
    ≡ err (stream_failure enhance_your_calm (some 1))
unfolding decode remaining byte_reader read_field peek read_integer read_u8 entry_at static_table
    read_literal read_string read_bytes huffman_decode root record_header decode_utf8 utf8_length
rejected_run = refl

decode-IsTable_example : IsTable (decode (hpack_decoder 4096) first_request (some (limits 179))).0
decode-IsTable_example =
    decode-IsTable (hpack_decoder 4096) first_request (some (limits 179))
      (hpack_decoder-IsTable 4096)

decode_table_example :
    (decode (hpack_decoder 4096) first_request (some (limits 179))).0
    ≡ (decode (hpack_decoder 4096) first_request none).0
decode_table_example = decode_table (hpack_decoder 4096) first_request (some (limits 179))

decode_within_example : (length request_headers ≤ 10) × (list_bytes request_headers ≤ 180)
decode_within_example =
    decode_within (limits 180) (hpack_decoder 4096) first_request request_headers limited_run

decode-Loops_example :
    (out : HpackDecoder × Result Budget) × (Loops
      (some (limits 179))
      out
      (hpack_decoder 4096)
      (byte_reader first_request)
      no_headers)
    × (decode (hpack_decoder 4096) first_request (some (limits 179))
        ≡ (out.0, out.1 >>= accept (some (limits 179))))
decode-Loops_example = decode-Loops (hpack_decoder 4096) first_request (some (limits 179))

huffman_decode-huffman_encode_example :
    huffman_decode (huffman_encode (0x41 ∷ 0xff ∷ 0 ∷ [])) ≡ ok (0x41 ∷ 0xff ∷ 0 ∷ [])
huffman_decode-huffman_encode_example =
    huffman_decode-huffman_encode (0x41 ∷ 0xff ∷ 0 ∷ []) (omega arith)

-- The euro sign, and U+1F600 as its pair of surrogates.
abbrev wide_text : Text
wide_text = 0x61 ∷ 0x20ac ∷ 0xd83d ∷ 0xde00 ∷ []

decode_utf8-encode_utf8_example : decode_utf8 (encode_utf8 wide_text) ≡ wide_text
decode_utf8-encode_utf8_example =
    decode_utf8-encode_utf8
      (unit (omega arith) refl (unit (omega arith) refl (pair refl refl ended))) (omega arith)

-- A byte order mark in front of a text is lost.
marked_text : decode_utf8 (encode_utf8 (0xfeff ∷ 0x61 ∷ [])) ≡ 0x61 ∷ []
unfolding decode_utf8 encode_utf8 unit_bytes skip_mark utf8_loop utf8_byte utf8_lead utf8_more
marked_text = refl

-- `toLowerCase` on ASCII.
abbrev pub lower_unit : ℕ → ℕ
lower_unit u = if leb 0x41 u && leb u 0x5a then u + 32 else u

abbrev pub lower_case : Text → Text
lower_case [] = []
lower_case (u ∷ s) = lower_unit u ∷ lower_case s

abbrev sent_headers : List Header
sent_headers =
    field (text ":method") (text "GET")
    ∷ record { name = text "Authorization"; value = text "Bearer 7"; never_index = true }
    ∷ field (text "x-Trace") (text "$!")
    ∷ []

ascii-IsPlain :
    (s : Text) → is_ascii s ≡ true → NoMark s → length (encode_utf8 s) < 2 ^ 42 → IsPlain s
ascii-IsPlain s a m h = record { formed = ascii-IsWellFormed s a; no_mark = m; short = h }

-- A header that the encoder can send, by evaluation.
pub ascii-IsSendable :
    (name value : Text)
    → (is_ascii name && (is_ascii value && no_nul name)) ≡ true
    → NoMark name × NoMark value
    → (length (encode_utf8 name) < 2 ^ 42) × (length (encode_utf8 value) < 2 ^ 42)
    → IsSendable name value
ascii-IsSendable name value a (mn, mv) (hn, hv) = record {
  name_plain = ascii-IsPlain name (ground arith) mn hn;
  value_plain = ascii-IsPlain value (ground arith) mv hv;
  no_nul_name = ground arith;
}

sent_headers-AllSendable : AllSendable lower_case sent_headers
unfolding encode_utf8
sent_headers-AllSendable = (
  ascii-IsSendable (text ":method") (text "GET") refl (omega arith) (omega arith),
  (
    ascii-IsSendable (text "authorization") (text "Bearer 7") refl (omega arith) (omega arith),
    (ascii-IsSendable (text "x-trace") (text "$!") refl (omega arith) (omega arith), tt),
  ),
)

decode-encode_example : decode (hpack_decoder 4096) (encode lower_case sent_headers) none ≡ (
  hpack_decoder 4096,
  ok (
      field (text ":method") (text "GET")
      ∷ field (text "authorization") (text "Bearer 7")
      ∷ field (text "x-trace") (text "$!")
      ∷ []),
)
decode-encode_example =
    decode-encode lower_case sent_headers (hpack_decoder 4096) sent_headers-AllSendable
