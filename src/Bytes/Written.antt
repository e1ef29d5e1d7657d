-- ===== src/Bytes/Written.antt =====
-- The writer as its client sees it: bytes behind one another, however often the array grows.
use grpc_bridge.Prelude.{
  ℕ, zero, suc, ◌+◌, ◌*◌, ◌/◌, ◌%◌, ◌≤◌, ◌<◌, ◌≡◌, refl, sym, ap, ◌∙◌, inl, inr, List, [], ◌∷◌,
  ◌++◌, length, take, drop, replicate, length-append, length-take, length-drop, length-replicate,
  take-append_eq, append_assoc, Bool-cases, leb, arith,
}
use grpc_bridge.Bytes.{
  ByteWriter, byte_writer, grow, ensure, append, put_u8, put_u16, put_u24, put_u32, put_bytes,
  written, write_at,
}

-- The count stands inside the array, and the array is not empty, so that doubling makes progress.
pub record IsWriter (w : ByteWriter) : Type 0 where
  pub within : w.len ≤ length w.buf
  pub positive : 0 < length w.buf

grow-le : (fuel cap need : ℕ) → 0 < cap → need ≤ cap + fuel → need ≤ grow fuel cap need
unfolding grow
grow-le zero cap need p h = omega arith
grow-le (suc fuel) cap need p h = ground (arith, grow-le fuel (cap * 2) need)

grow_pos : (fuel cap need : ℕ) → 0 < cap → 0 < grow fuel cap need
unfolding grow
grow_pos zero cap need p = p
grow_pos (suc fuel) cap need p = ground (arith, grow_pos fuel (cap * 2) need)

length-write_at :
    (buf : List ℕ) (offset : ℕ) (source : List ℕ)
    → offset + length source ≤ length buf
    → length (write_at buf offset source) ≡ length buf
length-write_at buf offset source h = omega (
  arith,
  length-append (take offset buf) (source ++ drop (offset + length source) buf),
  length-append source (drop (offset + length source) buf),
  length-take offset buf,
  length-drop (offset + length source) buf,
)

take-write_at :
    (buf : List ℕ) (offset : ℕ) (source : List ℕ)
    → offset + length source ≤ length buf
    → take (offset + length source) (write_at buf offset source) ≡ take offset buf ++ source
take-write_at buf offset source h =
    ap (take (offset + length source))
      (sym (append_assoc (take offset buf) source (drop (offset + length source) buf)))
    ∙ take-append_eq (offset + length source) (take offset buf ++ source) _
        (omega (arith, length-append (take offset buf) source, length-take offset buf))

-- A 32-bit number, highest byte first.
abbrev pub u32_bytes : ℕ → List ℕ
u32_bytes n = n / 16777216 % 256 ∷ n / 65536 % 256 ∷ n / 256 % 256 ∷ n % 256 ∷ []

-- The copy of the written part into a larger array.
grown :
    (w : ByteWriter) (room : ℕ)
    → IsWriter w
    → w.len ≤ room
    → let b = write_at (replicate room 0) 0 (take w.len w.buf) in
      (length b ≡ room) × (take w.len b ≡ take w.len w.buf)
grown w room v h =
    let old = take w.len w.buf in
    let n : length old ≡ w.len = omega (arith, length-take w.len w.buf, v.within) in
    let z : length (replicate {A = ℕ} room 0) ≡ room = length-replicate room 0 in
    let fits : 0 + length old ≤ length (replicate {A = ℕ} room 0) = omega arith in
    (length-write_at (replicate room 0) 0 old fits ∙ z, take-append_eq w.len old _ (sym n))

-- `ensure` makes room for the bytes to come, so no write behind it is out of bounds, and it
-- changes nothing that was written.
pub ensure_room :
    (w : ByteWriter) (extra : ℕ)
    → IsWriter w
    → (w.len + extra ≤ length (ensure w extra).buf)
      × ((ensure w extra).len ≡ w.len)
      × (written (ensure w extra) ≡ written w)
      × IsWriter (ensure w extra)
unfolding ensure written
ensure_room w extra v = elim (Bool-cases (leb (w.len + extra) (length w.buf))) [
  | inl fits ↦ rw fits (ground arith, refl, refl, v)
  | inr full ↦
      let need = w.len + extra in
      let bound = grow need (length w.buf * 2) need in
      let big : need ≤ bound =
        grow-le need (length w.buf * 2) need (omega (arith, v.positive)) (omega arith) in
      let pos : 0 < bound = grow_pos need (length w.buf * 2) need (omega (arith, v.positive)) in
      let (size, same) = grown w bound v (omega arith) in
      rw full (omega arith, refl, same, record { within = omega arith; positive = omega arith })
]

-- A write appends its bytes to what was written.
written-append :
    (w : ByteWriter) (bs : List ℕ)
    → IsWriter w
    → (written (append w bs) ≡ written w ++ bs) × IsWriter (append w bs)
unfolding append written
written-append w bs v =
    let (room, len, same, valid) = ensure_room w (length bs) v in
    let u = ensure w (length bs) in
    let fits : u.len + length bs ≤ length u.buf = omega arith in
    let size = length-write_at u.buf u.len bs fits in
    (
      take-write_at u.buf u.len bs fits ∙ ap (λ (x : List ℕ). x ++ bs) same,
      record { within = omega arith; positive = omega (arith, valid.positive) },
    )

-- `w` holds the bytes `bs`, and takes more.
abbrev pub Writes : ByteWriter → List ℕ → Type 0
Writes w bs = (written w ≡ bs) × IsWriter w

pub byte_writer-Writes : (n : ℕ) → 0 < n → Writes (byte_writer n) []
unfolding byte_writer written
byte_writer-Writes n h =
    (refl, record { within = omega arith; positive = omega (arith, length-replicate {A = ℕ} n 0) })

append-Writes :
    (w : ByteWriter) {bs : List ℕ} (cs : List ℕ) → Writes w bs → Writes (append w cs) (bs ++ cs)
append-Writes w cs (e, v) =
    let (e', v') = written-append w cs v in (e' ∙ ap (λ (x : List ℕ). x ++ cs) e, v')

-- The methods, as `written` shows them.
module _ (w : ByteWriter) {bs : List ℕ} where
  pub put_u8-Writes : (n : ℕ) → Writes w bs → Writes (put_u8 w n) (bs ++ n % 256 ∷ [])
  unfolding put_u8
  put_u8-Writes n = append-Writes w _

  pub put_u16-Writes :
      (n : ℕ) → Writes w bs → Writes (put_u16 w n) (bs ++ n / 256 % 256 ∷ n % 256 ∷ [])
  unfolding put_u16
  put_u16-Writes n = append-Writes w _

  pub put_u24-Writes :
      (n : ℕ)
      → Writes w bs
      → Writes (put_u24 w n) (bs ++ n / 65536 % 256 ∷ n / 256 % 256 ∷ n % 256 ∷ [])
  unfolding put_u24
  put_u24-Writes n = append-Writes w _

  pub put_u32-Writes : (n : ℕ) → Writes w bs → Writes (put_u32 w n) (bs ++ u32_bytes n)
  unfolding put_u32
  put_u32-Writes n = append-Writes w _

  pub put_bytes-Writes : (b : List ℕ) → Writes w bs → Writes (put_bytes w b) (bs ++ b)
  unfolding put_bytes
  put_bytes-Writes b = append-Writes w b
