-- ===== src/Hpack/Decoder/Limits.antt =====
-- What the limits on the header list promise.
use grpc_bridge.Prelude.{
  ℕ, zero, suc, ◌+◌, ◌≤◌, ◌≡◌, refl, true, false, Option, none, some, List, [], ◌∷◌, ◌++◌, length,
  ◌==◌, length-append, Bool-cases, ◌⊎◌, inl, inr, arith,
}
use grpc_bridge.Errors.{Result, ok, err, ◌>>=◌, Result-cases}
use grpc_bridge.Bytes.{ByteReader, byte_reader, remaining}
use grpc_bridge.Text.{Text, encode_utf8}
use grpc_bridge.Hpack.Strings.{utf8_length-encode_utf8}
use grpc_bridge.Hpack.StaticTable.{HeaderEntry}
use grpc_bridge.Hpack.Table.{HpackDecoder}
use grpc_bridge.Hpack.Decoder.{
  Header, HeaderDecodeLimits, Budget, no_headers, header_bytes, exceeds, record_header, read_field,
  record_field, field_loop, accept, decode,
}

-- The size of a header list as RFC 7540, 6.5.2 has it: the octets of names and values, and 32 for
-- each field.
abbrev pub list_bytes : List Header → ℕ
list_bytes [] = 0
list_bytes (h ∷ hs) =
    length (encode_utf8 h.name) + length (encode_utf8 h.value) + 32 + list_bytes hs

list_bytes-append : (xs ys : List Header) → list_bytes (xs ++ ys) ≡ list_bytes xs + list_bytes ys
list_bytes-append [] ys = omega arith
list_bytes-append (x ∷ xs) ys = omega (arith, list_bytes-append xs ys)

module _ (limits : HeaderDecodeLimits) where
  -- A budget that is not rejected counts the headers, and they are within the limits.
  record Counts (b : Budget) : Type 0 where
    counted : b.field_count ≡ length b.headers
    summed : b.header_list_bytes ≡ list_bytes b.headers
    few : b.field_count ≤ limits.max_header_count
    small : b.header_list_bytes ≤ limits.max_header_list_bytes

  abbrev Fair : Budget → Type 0
  Fair b = (b.rejected ≡ true) ⊎ Counts b

  record_header-Fair :
      (name value : Text) (b : Budget) → Fair b → Fair (record_header (some limits) name value b)
  unfolding record_header
  record_header-Fair name value b (inl rejected) = rw rejected (inl refl)
  record_header-Fair name value b (inr c) =
      let bytes = b.header_list_bytes + header_bytes name value in
      let next : Header = record { name = name; value = value; never_index = false } in
      elim (Bool-cases b.rejected) [
        | inl rejected ↦ rw rejected (inl refl)
        | inr open_still ↦ elim (Bool-cases (exceeds (some limits) b.field_count bytes)) [
          | inl over ↦ rw (open_still, over) (inl refl)
          | inr fits ↦
              rw (open_still, fits)
                (inr (record {
                  counted = omega (arith, c.counted, length-append b.headers (next ∷ []));
                  summed = omega (
                    arith,
                    c.summed,
                    list_bytes-append b.headers (next ∷ []),
                    utf8_length-encode_utf8 name,
                    utf8_length-encode_utf8 value,
                  );
                  few = ground arith;
                  small = ground arith;
                }))
        ]
      ]

  record_field-Fair :
      (field : Option HeaderEntry) (b : Budget) → Fair b → Fair (record_field (some limits) field b)
  record_field-Fair none b h = h
  record_field-Fair (some (name, value)) b h = record_header-Fair name value b h

  -- So it is where the loop ends well, and the list that is accepted is within the limits.
  abbrev EndsFair : Result Budget → Type 0
  EndsFair (ok b) = Fair b
  EndsFair (err e) = Unit {0}

  field_loop-EndsFair :
      (fuel : ℕ) (d : HpackDecoder) (r : ByteReader) (b : Budget)
      → Fair b
      → EndsFair (field_loop fuel (some limits) d r b).1
  unfolding field_loop
  field_loop-EndsFair zero d r b h = h
  field_loop-EndsFair (suc fuel) d r b h = elim (Bool-cases (remaining r == 0)) [
    | inl done ↦ rw (done, field_loop) h
    | inr more ↦ elim (Result-cases (read_field d r)) [
      | inl ((d1, field, r1), e) ↦
          rw (more, e, field_loop)
            (field_loop-EndsFair fuel d1 r1 (record_field (some limits) field b)
              (record_field-Fair field b h))
      | inr (e', e) ↦ rw (more, e, field_loop) tt
    ]
  ]

  abbrev EndsWithin : Result (List Header) → Type 0
  EndsWithin (ok headers) =
      (length headers ≤ limits.max_header_count)
      × (list_bytes headers ≤ limits.max_header_list_bytes)
  EndsWithin (err e) = Unit {0}

  accept-EndsWithin : (b : Budget) → Fair b → EndsWithin (accept (some limits) b)
  unfolding accept
  accept-EndsWithin b (inl rejected) = rw rejected tt
  accept-EndsWithin b (inr c) = elim (Bool-cases b.rejected) [
    | inl rejected ↦ rw rejected tt
    | inr open_still ↦
        rw open_still (omega (arith, c.counted, c.few), omega (arith, c.summed, c.small))
  ]

  end-EndsWithin :
      (result : Result Budget) → EndsFair result → EndsWithin (result >>= accept (some limits))
  end-EndsWithin (ok b) h = accept-EndsWithin b h
  end-EndsWithin (err e) h = tt

  -- A header list that `decode` returns under limits has at most as many fields as they allow, and
  -- at most as many octets, as RFC 7540 counts them: those of the names and values in UTF-8, and 32
  -- for each field.
  pub decode_within :
      (d : HpackDecoder) (block : List ℕ) (headers : List Header)
      → (decode d block (some limits)).1 ≡ ok headers
      → (length headers ≤ limits.max_header_count)
        × (list_bytes headers ≤ limits.max_header_list_bytes)
  unfolding decode
  decode_within d block headers e =
      let start : Fair no_headers =
        inr (record { counted = refl; summed = refl; few = omega arith; small = omega arith }) in
      rw e at (
        end-EndsWithin _
          (field_loop-EndsFair (length block) d (byte_reader block) no_headers start))
