-- ===== src/Hpack/Encoder/Reading.antt =====
-- web/src/h2/hpack/hpack.ts: a round of `HpackDecoder.decode` on the bytes of a header.
use mathlib.Core.Path.{subst}
use Prim.Native.Nat.{bit_and}
use grpc_bridge.Prelude.{
  ℕ, ◌≤◌, ◌≡◌, refl, ap, ◌∙◌, ◌⊎◌, inl, inr, Bool, true, false, Option, some, List, ◌∷◌, ◌++◌, ◌==◌,
  append_assoc, Option-cases, arith,
}
use grpc_bridge.Errors.{Result, ok}
use grpc_bridge.Bytes.{ByteReader}
use grpc_bridge.Bytes.Reader.{At, peek-At}
use grpc_bridge.Text.{Text}
use grpc_bridge.Hpack.Integer.RoundTrip.{
  integer_bytes, read_integer-integer_bytes, seven_Fits, four_Fits,
}
use grpc_bridge.Hpack.Strings.RoundTrip.{
  string_bytes, read_string-string_bytes, IsPlain, integer_bytes-Begins,
}
use grpc_bridge.Hpack.StaticTable.{HeaderEntry, static_table, static_table_length}
use grpc_bridge.Hpack.Table.{HpackDecoder, entry_at}
use grpc_bridge.Hpack.Decoder.{read_literal, read_field}
use grpc_bridge.Hpack.Encoder.{find_name, find_pair}
use grpc_bridge.Hpack.Encoder.Static.{entry_at-find_pair, entry_at-find_name}
use grpc_bridge.Hpack.Encoder.Fields.{
  IsSendable, literal_flags, flags_case, name_bytes, field_bytes_of, field_bytes, BeginsLiteral,
  front, integer_bytes-BeginsLiteral,
}

-- What the round of the decoder gives for a field.
abbrev pub ReadsHeader :
    HpackDecoder
    → Result (HpackDecoder × Option HeaderEntry × ByteReader)
    → Text
    → Text
    → List ℕ
    → Type 0
ReadsHeader d result name value rest =
    (r' : ByteReader) × (result ≡ ok (d, some (name, value), r')) × At r' rest

module _ (d : HpackDecoder) (r : ByteReader) (name value : Text) (rest : List ℕ) where
  indexed-ReadsHeader :
      (i : ℕ)
      → (entry_at d i ≡ ok (name, value)) × (1 ≤ i) × (i ≤ static_table_length)
      → At r (integer_bytes i 7 0x80 ++ rest)
      → ReadsHeader d (read_field d r) name value rest
  unfolding read_field
  indexed-ReadsHeader i (entry, low, high) a =
      let b = integer_bytes-Begins 0x80 i (inl refl) in
      let p = peek-At r b.first (b.more ++ rest) (rw b.whole at a) in
      let (r1, e1, a1) =
        read_integer-integer_bytes i 7 0x80 r rest (seven_Fits 0x80 (inl refl)) (omega arith) a in
      let indexed : (bit_and b.first 0x80 == 0) ≡ false = ground (arith, b.flag) in
      let some_index : (i == 0) ≡ false = ground arith in
      (r1, rw (p, indexed, e1, some_index, entry), a1)

  literal-ReadsHeader :
      (flags : ℕ) (bytes : List ℕ)
      → BeginsLiteral bytes
      → At r (bytes ++ rest)
      → (r' : ByteReader) × (read_literal d 4 r ≡ ok ((name, value), r')) × At r' rest
      → ReadsHeader d (read_field d r) name value rest
  unfolding read_field
  literal-ReadsHeader flags bytes b a (r1, e1, a1) =
      let p = peek-At r b.first (b.more ++ rest) (rw b.whole at a) in
      let n80 : (bit_and b.first 0x80 == 0) ≡ true = ground (arith, b.plain) in
      let n40 : (bit_and b.first 0x40 == 0) ≡ true = ground (arith, b.plain) in
      let n20 : (bit_and b.first 0x20 == 0) ≡ true = ground (arith, b.plain) in
      (r1, rw (p, n80, n40, n20, e1), a1)

  -- The literal, with its name from the table or spelt out.
  named-literal :
      (flags i : ℕ) (table_value : Text)
      → (flags ≡ 0x10) ⊎ (flags ≡ 0)
      → IsPlain value
      → (entry_at d i ≡ ok (name, table_value)) × (1 ≤ i) × (i ≤ static_table_length)
      → At r (integer_bytes i 4 flags ++ (string_bytes value ++ rest))
      → (r' : ByteReader) × (read_literal d 4 r ≡ ok ((name, value), r')) × At r' rest
  unfolding read_literal
  named-literal flags i table_value f plain (entry, low, high) a =
      let (r1, e1, a1) =
        read_integer-integer_bytes i 4 flags r (string_bytes value ++ rest) (four_Fits flags f)
          (omega arith) a in
      let (r2, e2, a2) = read_string-string_bytes value r1 rest plain a1 in
      let some_index : (i == 0) ≡ false = ground arith in (r2, rw (e1, some_index, entry, e2), a2)

  spelt-literal :
      (flags : ℕ)
      → (flags ≡ 0x10) ⊎ (flags ≡ 0)
      → IsPlain name
      → IsPlain value
      → At r (integer_bytes 0 4 flags ++ (string_bytes name ++ (string_bytes value ++ rest)))
      → (r' : ByteReader) × (read_literal d 4 r ≡ ok ((name, value), r')) × At r' rest
  unfolding read_literal
  spelt-literal flags f name_plain plain a =
      let (r1, e1, a1) =
        read_integer-integer_bytes 0 4 flags r (string_bytes name ++ (string_bytes value ++ rest))
          (four_Fits flags f) (omega arith) a in
      let (r2, e2, a2) =
        read_string-string_bytes name r1 (string_bytes value ++ rest) name_plain a1 in
      let (r3, e3, a3) = read_string-string_bytes value r2 rest plain a2 in
      (r3, rw (e1, e2, e3), a3)

  pub field-ReadsHeader :
      (never_index : Bool)
      → IsSendable name value
      → At r (field_bytes never_index name value ++ rest)
      → ReadsHeader d (read_field d r) name value rest
  field-ReadsHeader never_index s a =
      elim (Option-cases (find_pair (name ++ 0 ∷ value) static_table 1)) [
        | inr (i, e) ↦
            indexed-ReadsHeader i (entry_at-find_pair d name value i s.no_nul_name e)
              (subst (λ (o : Option ℕ). At r (field_bytes_of o flags name value ++ rest)) e a)
        | inl e ↦
            by_name (subst (λ (o : Option ℕ). At r (field_bytes_of o flags name value ++ rest)) e a)
      ]
    where
      flags : ℕ
      flags = literal_flags never_index

      named_bytes : Option ℕ → List ℕ
      named_bytes o = (name_bytes o flags name ++ string_bytes value) ++ rest

      by_name :
          At r (named_bytes (find_name name static_table 1))
          → ReadsHeader d (read_field d r) name value rest
      by_name b = elim (Option-cases (find_name name static_table 1)) [
        | inr (i, e) ↦
            let (table_value, entry, low, high) = entry_at-find_name d name i e in
            let c =
              subst (At r) (append_assoc (integer_bytes i 4 flags) (string_bytes value) rest)
                (subst (λ (o : Option ℕ). At r (named_bytes o)) e b) in
            literal-ReadsHeader flags (integer_bytes i 4 flags ++ string_bytes value)
              (front (string_bytes value)
                (integer_bytes-BeginsLiteral flags i (flags_case never_index)))
              (subst (λ (o : Option ℕ). At r (named_bytes o)) e b)
              (named-literal flags i table_value (flags_case never_index) s.value_plain
                (entry, low, high) c)
        | inl e ↦
            let c = subst (λ (o : Option ℕ). At r (named_bytes o)) e b in
            literal-ReadsHeader flags
              ((integer_bytes 0 4 flags ++ string_bytes name) ++ string_bytes value)
              (front (string_bytes value) (
                front (string_bytes name)
                  (integer_bytes-BeginsLiteral flags 0 (flags_case never_index))))
              c
              (spelt-literal flags (flags_case never_index) s.name_plain s.value_plain (
                subst (At r)
                  (ap (λ (x : List ℕ). x ++ rest)
                      (append_assoc (integer_bytes 0 4 flags) (string_bytes name)
                        (string_bytes value))
                    ∙ append_assoc (integer_bytes 0 4 flags)
                        (string_bytes name ++ string_bytes value) rest
                    ∙ ap (λ (x : List ℕ). integer_bytes 0 4 flags ++ x)
                        (append_assoc (string_bytes name) (string_bytes value) rest))
                  c))
      ]
