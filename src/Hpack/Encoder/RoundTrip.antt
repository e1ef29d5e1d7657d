-- ===== src/Hpack/Encoder/RoundTrip.antt =====
-- web/src/h2/hpack/hpack.ts: `HpackDecoder.decode` on what `HpackEncoder.encode` wrote.
use mathlib.Core.Path.{subst}
use grpc_bridge.Prelude.{
  ℕ, zero, suc, ◌≤◌, ◌≡◌, refl, sym, ap, ◌∙◌, true, false, Option, none, some, List, [], ◌∷◌, ◌++◌,
  map, length, All, ◌==◌, length-append, append_assoc, append-nil, arith,
}
use grpc_bridge.Errors.{Result, ok, ◌>>=◌}
use grpc_bridge.Bytes.{ByteWriter, byte_writer, ByteReader, byte_reader, remaining}
use grpc_bridge.Bytes.Written.{Writes, byte_writer-Writes}
use grpc_bridge.Bytes.Reader.{At, byte_reader-At, remaining-At}
use grpc_bridge.Text.{Text}
use grpc_bridge.Hpack.StaticTable.{static_table}
use grpc_bridge.Hpack.Table.{HpackDecoder}
use grpc_bridge.Hpack.Decoder.{
  Header, HeaderDecodeLimits, Budget, no_headers, record_header, read_field, field_loop, accept,
  decode,
}
use grpc_bridge.Hpack.Encoder.{find_pair, encode_header, encode_headers_from, encode}
use grpc_bridge.Hpack.Encoder.Fields.{
  IsSendable, literal_flags, header_field, encode_header-Writes, field_bytes_pos,
}
use grpc_bridge.Hpack.Encoder.Reading.{field-ReadsHeader}

record_one :
    (name value : Text) (b : Budget)
    → b.rejected ≡ false
    → ((record_header none name value b).rejected ≡ false)
      × ((record_header none name value b).headers
          ≡ b.headers ++ record { name = name; value = value; never_index = false } ∷ [])
unfolding record_header
record_one name value b e = rw e (refl, refl)

-- What the decoder is to give for the headers.
module _ (to_lower : Text → Text) where
  abbrev all_fields : List Header → List ℕ
  all_fields [] = []
  all_fields (h ∷ headers) = header_field to_lower h ++ all_fields headers

  abbrev pub AllSendable : List Header → Type 0
  AllSendable headers = All (λ (h : Header). IsSendable (to_lower h.name) h.value) headers

  encode_headers-Writes :
      (headers : List Header) (w : ByteWriter) {bs : List ℕ}
      → Writes w bs
      → Writes (encode_headers_from to_lower w headers) (bs ++ all_fields headers)
  unfolding encode_headers_from
  encode_headers-Writes [] w {bs} h = subst (Writes w) (sym (append-nil bs)) h
  encode_headers-Writes (x ∷ headers) w {bs} h =
      subst (Writes (encode_headers_from to_lower (encode_header to_lower w x) headers))
        (append_assoc bs (header_field to_lower x) (all_fields headers))
        (encode_headers-Writes headers (encode_header to_lower w x)
          (encode_header-Writes to_lower w x h))

  -- `recordHeader` for each header, its name in lower case.
  abbrev pub recorded : Option HeaderDecodeLimits → List Header → Budget → Budget
  recorded limits [] b = b
  recorded limits (h ∷ headers) b =
      recorded limits headers (record_header limits (to_lower h.name) h.value b)

  loop-all_fields :
      (headers : List Header) (fuel : ℕ) (limits : Option HeaderDecodeLimits) (d : HpackDecoder)
      (r : ByteReader) (b : Budget)
      → AllSendable headers
      → At r (all_fields headers)
      → length (all_fields headers) ≤ fuel
      → field_loop fuel limits d r b ≡ (d, ok (recorded limits headers b))
  unfolding field_loop
  loop-all_fields [] zero limits d r b s a h = refl
  loop-all_fields [] (suc fuel) limits d r b s a h =
      let done : (remaining r == 0) ≡ true = ground (arith, remaining-At r [] a) in
      rw (done, field_loop)
  loop-all_fields (x ∷ headers) fuel limits d r b (s, more) a h =
      let name = to_lower x.name in
      let size = length-append (header_field to_lower x) (all_fields headers) in
      let positive =
        field_bytes_pos (find_pair (name ++ 0 ∷ x.value) static_table 1)
          (literal_flags x.never_index) name x.value in
      let (r1, e1, a1) =
        field-ReadsHeader d r name x.value (all_fields headers) x.never_index s a in
      let unread : (remaining r == 0) ≡ false =
        ground (arith, remaining-At r (all_fields (x ∷ headers)) a) in
      round fuel
        (λ n few.
          loop-all_fields headers n limits d r1 (record_header limits name x.value b) more a1 few)
        e1 unread (omega arith)
    where
      round :
          {r1 : ByteReader} (n : ℕ)
          → ((m : ℕ)
              → length (all_fields headers) ≤ m
              → field_loop m limits d r1 (record_header limits (to_lower x.name) x.value b)
                ≡ (d, ok (recorded limits (x ∷ headers) b)))
          → read_field d r ≡ ok (d, some (to_lower x.name, x.value), r1)
          → (remaining r == 0) ≡ false
          → suc (length (all_fields headers)) ≤ n
          → field_loop n limits d r b ≡ (d, ok (recorded limits (x ∷ headers) b))
      round zero rest e unread few = absurd (omega arith)
      round (suc n) rest e unread few = rw (unread, e, field_loop) (rest n (omega arith))

  -- The decoder takes in what the encoder wrote, header by header, and its table stays as it is.
  pub decode-encode_limits :
      (headers : List Header) (d : HpackDecoder) (limits : Option HeaderDecodeLimits)
      → AllSendable headers
      → decode d (encode to_lower headers) limits
        ≡ (d, accept limits (recorded limits headers no_headers))
  unfolding decode encode
  decode-encode_limits headers d limits s =
      let (e, w) =
        encode_headers-Writes headers (byte_writer 256) (byte_writer-Writes 256 (omega arith)) in
      let bytes = all_fields headers in
      ap (λ (block : List ℕ). decode d block limits) e
      ∙ ap (λ (x : HpackDecoder × Result Budget). (x.0, x.1 >>= accept limits))
          (loop-all_fields headers (length bytes) limits d (byte_reader bytes) no_headers s
            (byte_reader-At bytes) (omega arith))

  -- The header as it is received.
  abbrev pub received : Header → Header
  received h = record { name = to_lower h.name; value = h.value; never_index = false }

  recorded_all :
      (headers : List Header) (b : Budget)
      → b.rejected ≡ false
      → ((recorded none headers b).rejected ≡ false)
        × ((recorded none headers b).headers ≡ b.headers ++ map received headers)
  unfolding record_header
  recorded_all [] b e = (e, sym (append-nil b.headers))
  recorded_all (x ∷ headers) b e =
      let (kept, one) = record_one (to_lower x.name) x.value b e in
      let (all_kept, all) =
        recorded_all headers (record_header none (to_lower x.name) x.value b) kept in
      (
        all_kept,
        all
            ∙ ap (λ (y : List Header). y ++ map received headers) one
            ∙ append_assoc b.headers (received x ∷ []) (map received headers),
      )

  -- Whatever the decoder's table holds, it reads from the encoder's block the same headers in the same
  -- order, with their names in lower case, and keeps its table: for headers whose names and values have
  -- no lone surrogates and no byte order mark in front, names without NUL, and lengths below 2^42.
  pub decode-encode :
      (headers : List Header) (d : HpackDecoder)
      → AllSendable headers
      → decode d (encode to_lower headers) none ≡ (d, ok (map received headers))
  unfolding accept
  decode-encode headers d s =
      let (kept, all) = recorded_all headers no_headers refl in
      decode-encode_limits headers d none s ∙ rw kept (ap (λ (x : List Header). (d, ok x)) all)
