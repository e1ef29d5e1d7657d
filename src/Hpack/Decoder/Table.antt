-- ===== src/Hpack/Decoder/Table.antt =====
-- What decoding does to the dynamic table.
use grpc_bridge.Prelude.{
  ℕ, zero, suc, ◌≡◌, refl, Bool, true, false, not, Option, none, List, length, ◌==◌, if◌then◌else◌,
  Bool-cases, inl, inr,
}
use Prim.Native.Nat.{bit_and}
use grpc_bridge.Errors.{Result, ok, err, ◌>>=◌, Result-cases}
use grpc_bridge.Bytes.{ByteReader, byte_reader, remaining, peek}
use grpc_bridge.Hpack.Integer.{read_integer}
use grpc_bridge.Hpack.StaticTable.{HeaderEntry}
use grpc_bridge.Hpack.Table.{HpackDecoder, entry_at, apply_max_size}
use grpc_bridge.Hpack.Table.Bounds.{IsTable, insert-IsTable, apply_max_size-IsTable}
use grpc_bridge.Hpack.Decoder.{
  HeaderDecodeLimits, Budget, no_headers, read_literal, read_field, record_field, field_loop,
  decode,
}

-- The table of a round that ends well.
abbrev Keeps : Result (HpackDecoder × Option HeaderEntry × ByteReader) → Type 0
Keeps (ok (d, field, r)) = IsTable d
Keeps (err e) = Unit {0}

bind-Keeps :
    {A : Type 0} (m : Result A) (k : A → Result (HpackDecoder × Option HeaderEntry × ByteReader))
    → ((a : A) → Keeps (k a))
    → Keeps (m >>= k)
bind-Keeps (ok a) k h = h a
bind-Keeps (err e) k h = tt

if-Keeps :
    (b : Bool) (x y : Result (HpackDecoder × Option HeaderEntry × ByteReader))
    → Keeps x
    → Keeps y
    → Keeps (if b then x else y)
if-Keeps true x y hx hy = hx
if-Keeps false x y hx hy = hy

apply_max_size-Keeps :
    (d : HpackDecoder) (r : ByteReader) (n : ℕ) (m : Result HpackDecoder)
    → IsTable d
    → apply_max_size d n ≡ m
    → Keeps (m >>= λ d1. ok (d1, none, r))
apply_max_size-Keeps d r n (ok d1) t e = apply_max_size-IsTable d d1 n t.counted e
apply_max_size-Keeps d r n (err e') t e = tt

read_field-Keeps : (d : HpackDecoder) (r : ByteReader) → IsTable d → Keeps (read_field d r)
unfolding read_field
read_field-Keeps d r t = bind-Keeps (peek r) _ λ first.
    if-Keeps (not (bit_and first 0x80 == 0)) _ _
      (bind-Keeps (read_integer r 7) _
        λ (index, r1). if-Keeps (index == 0) _ _ tt (bind-Keeps (entry_at d index) _ λ entry. t))
      (if-Keeps (not (bit_and first 0x40 == 0)) _ _
        (bind-Keeps (read_literal d 6 r) _ λ ((name, value), r1). insert-IsTable d name value t)
        (if-Keeps (not (bit_and first 0x20 == 0)) _ _
          (bind-Keeps (read_integer r 5) _
            λ (new_size, r1). apply_max_size-Keeps d r1 new_size (apply_max_size d new_size) t refl)
          (bind-Keeps (read_literal d 4 r) _ λ (entry, r1). t)))

field_loop-IsTable :
    (fuel : ℕ) (limits : Option HeaderDecodeLimits) (d : HpackDecoder) (r : ByteReader) (b : Budget)
    → IsTable d
    → IsTable (field_loop fuel limits d r b).0
unfolding field_loop
field_loop-IsTable zero limits d r b t = t
field_loop-IsTable (suc fuel) limits d r b t = elim (Bool-cases (remaining r == 0)) [
  | inl done ↦ rw (done, field_loop) t
  | inr more ↦ elim (Result-cases (read_field d r)) [
    | inl ((d1, field, r1), e) ↦
        let kept : Keeps (ok (d1, field, r1)) = rw e at (read_field-Keeps d r t) in
        rw (more, e, field_loop)
          (field_loop-IsTable fuel limits d1 r1 (record_field limits field b) kept)
    | inr (e', e) ↦ rw (more, e, field_loop) t
  ]
]

-- Decoding keeps the dynamic table within the limits, whatever the block holds and however it ends:
-- its size is the sum of its entries' sizes, at most the limit in force, which is at most the one
-- that was announced.
pub decode-IsTable :
    (d : HpackDecoder) (block : List ℕ) (limits : Option HeaderDecodeLimits)
    → IsTable d
    → IsTable (decode d block limits).0
unfolding decode
decode-IsTable d block limits t =
    field_loop-IsTable (length block) limits d (byte_reader block) no_headers t

-- The budget has no part in what the loop does to the table.
field_loop_table :
    (fuel : ℕ) (l l' : Option HeaderDecodeLimits) (d : HpackDecoder) (r : ByteReader)
    (b b' : Budget)
    → (field_loop fuel l d r b).0 ≡ (field_loop fuel l' d r b').0
unfolding field_loop
field_loop_table zero l l' d r b b' = refl
field_loop_table (suc fuel) l l' d r b b' = elim (Bool-cases (remaining r == 0)) [
  | inl done ↦ rw (done, field_loop) refl
  | inr more ↦ elim (Result-cases (read_field d r)) [
    | inl ((d1, field, r1), e) ↦
        rw (more, e, field_loop)
          (field_loop_table fuel l l' d1 r1 (record_field l field b) (record_field l' field b'))
    | inr (e', e) ↦ rw (more, e, field_loop) refl
  ]
]

-- The limits on the header list have no influence on the dynamic table: a block that is rejected for
-- them leaves the table that it leaves without limits, so the compression state stays in step.
pub decode_table :
    (d : HpackDecoder) (block : List ℕ) (limits : Option HeaderDecodeLimits)
    → (decode d block limits).0 ≡ (decode d block none).0
unfolding decode
decode_table d block limits =
    field_loop_table (length block) limits none d (byte_reader block) no_headers no_headers
