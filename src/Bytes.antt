-- ===== src/Bytes.antt =====
-- web/src/h2/bytes.ts: the growing byte writer, the cursor reader and the joining of chunks.
-- A Uint8Array is a list of numbers below 256; a DataView is the same list.
pub mod Written
pub mod Reader
use grpc_bridge.Prelude.{
  ℕ, zero, suc, ◌+◌, ◌-◌, ◌*◌, ◌/◌, ◌%◌, ◌^◌, ◌<◌, Bool, true, false, Option, none, some, List, [],
  ◌∷◌, ◌++◌, length, take, drop, get_elem?, replicate, ltb, leb, if◌then◌else◌,
}
use grpc_bridge.Errors.{Result, ok, err, range_error, ◌>>=◌}

abbrev pub IsByte : ℕ → Type 0
IsByte b = b < 256

-- `concatBytes`: one array of the total length, each chunk copied behind the one before it.
unfoldable pub concat_bytes : List (List ℕ) → List ℕ
concat_bytes [] = []
concat_bytes (c ∷ chunks) = c ++ concat_bytes chunks

-- `TypedArray.prototype.set` at an offset, where the source fits.
abbrev pub write_at : List ℕ → ℕ → List ℕ → List ℕ
write_at buf offset source = take offset buf ++ (source ++ drop (offset + length source) buf)

-- `ByteWriter`: the backing array and the count of bytes written. Its DataView shares the array.
pub record ByteWriter : Type 0 where
  pub buf : List ℕ
  pub len : ℕ

pub byte_writer : ℕ → ByteWriter
byte_writer initial_capacity = record { buf = replicate initial_capacity 0; len = 0 }

-- `while (cap < need) cap *= 2`, on fuel.
pub grow : ℕ → ℕ → ℕ → ℕ
grow zero cap need = cap
grow (suc fuel) cap need = let rest = grow fuel (cap * 2) need in if ltb cap need then rest else cap

-- `ensure`. A round doubles a positive capacity, so `need` rounds are enough.
pub ensure : ByteWriter → ℕ → ByteWriter
ensure w extra =
    let need = w.len + extra in
    if leb need (length w.buf)
    then w
    else (let cap = grow need (length w.buf * 2) need in
        record w { buf = write_at (replicate cap 0) 0 (take w.len w.buf) })

-- What each method does behind `ensure`: a write at the end of the written part.
append : ByteWriter → List ℕ → ByteWriter
append w bs =
    let v = ensure w (length bs) in
    record v { buf = write_at v.buf v.len bs; len = v.len + length bs }

-- `v & 0xff`, `v & 0xffff` and `v >>> k` of a non-negative number, in arithmetic.
unfoldable pub put_u8 : ByteWriter → ℕ → ByteWriter
unfolding append
put_u8 w v = append w (v % 256 ∷ [])

unfoldable pub put_u16 : ByteWriter → ℕ → ByteWriter
unfolding append
put_u16 w v = append w (v / 256 % 256 ∷ v % 256 ∷ [])

unfoldable pub put_u24 : ByteWriter → ℕ → ByteWriter
unfolding append
put_u24 w v = append w (v / 65536 % 256 ∷ v / 256 % 256 ∷ v % 256 ∷ [])

unfoldable pub put_u32 : ByteWriter → ℕ → ByteWriter
unfolding append
put_u32 w v = append w (v / 16777216 % 256 ∷ v / 65536 % 256 ∷ v / 256 % 256 ∷ v % 256 ∷ [])

unfoldable pub put_bytes : ByteWriter → List ℕ → ByteWriter
unfolding append
put_bytes w b = append w b

-- `take()`.
pub written : ByteWriter → List ℕ
written w = take w.len w.buf

-- `ByteReader`.
pub record ByteReader : Type 0 where
  pub buf : List ℕ
  pub cursor : ℕ

unfoldable pub byte_reader : List ℕ → ByteReader
byte_reader buf = record { buf = buf; cursor = 0 }

-- `remaining`, where the cursor has not passed the end.
unfoldable pub remaining : ByteReader → ℕ
remaining r = length r.buf - r.cursor

-- `DataView.getUint8`: a RangeError outside the array.
unfoldable pub peek : ByteReader → Result ℕ
peek r = elim (get_elem? r.buf r.cursor) [ none ↦ err range_error | some v ↦ ok v ]

unfoldable pub read_u8 : ByteReader → Result (ℕ × ByteReader)
read_u8 r = do v ← peek r; ok (v, record r { cursor = r.cursor + 1 })

unfoldable pub read_u16 : ByteReader → Result (ℕ × ByteReader)
read_u16 r = elim (drop r.cursor r.buf) [
  | a ∷ b ∷ _ ↦ ok (a * 256 + b, record r { cursor = r.cursor + 2 })
  | _ ↦ err range_error
]

unfoldable pub read_u24 : ByteReader → Result (ℕ × ByteReader)
read_u24 r = elim (drop r.cursor r.buf) [
  | a ∷ b ∷ c ∷ _ ↦ ok (a * 65536 + b * 256 + c, record r { cursor = r.cursor + 3 })
  | _ ↦ err range_error
]

unfoldable pub read_u32 : ByteReader → Result (ℕ × ByteReader)
read_u32 r = elim (drop r.cursor r.buf) [
  | a ∷ b ∷ c ∷ d ∷ _ ↦
      ok (a * 16777216 + b * 65536 + c * 256 + d, record r { cursor = r.cursor + 4 })
  | _ ↦ err range_error
]

-- `bytes(n)`: `subarray` stops at the end of the array, the cursor does not.
unfoldable pub read_bytes : ℕ → ByteReader → Result (List ℕ × ByteReader)
read_bytes n r = ok (take n (drop r.cursor r.buf), record r { cursor = r.cursor + n })
