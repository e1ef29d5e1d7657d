-- ===== src/Text/Characters.antt =====
-- `decodeUtf8` on the bytes of one character.
use grpc_bridge.Prelude.{
  ℕ, ◌+◌, ◌-◌, ◌*◌, ◌/◌, ◌%◌, ◌≤◌, ◌<◌, ◌≡◌, ap, ◌∙◌, inl, inr, true, false, ◌||◌, List, [], ◌∷◌,
  ◌++◌, leb, ◌==◌, if◌then◌else◌, Bool-cases, arith,
}
use grpc_bridge.Text.{
  Text, is_high, is_low, three_bytes, unit_bytes, pair_point, point_bytes, Utf8State, utf8_start,
  awaits, point_units, utf8_byte, utf8_loop,
}

-- One byte of the decoder.
loop_step :
    (st : Utf8State) (b : ℕ) (rest : List ℕ) (out : Text) (st' : Utf8State)
    → utf8_byte st b ≡ (out, st')
    → utf8_loop st (b ∷ rest) ≡ out ++ utf8_loop st' rest
unfolding utf8_loop
loop_step st b rest out st' e = ap (λ (r : Text × Utf8State). r.0 ++ utf8_loop r.1 rest) e

one_byte : (b : ℕ) → b ≤ 0x7f → utf8_byte utf8_start b ≡ (b ∷ [], utf8_start)
unfolding utf8_byte
one_byte b h = ground arith

lead_two :
    (b : ℕ) → 0xc2 ≤ b → b ≤ 0xdf → utf8_byte utf8_start b ≡ ([], awaits 1 0x80 0xbf (b % 32))
unfolding utf8_byte
lead_two b h k = ground arith

lead_three :
    (b : ℕ)
    → 0xe0 ≤ b
    → b ≤ 0xef
    → utf8_byte utf8_start b ≡ (
      [],
      awaits 2 (if b == 0xe0 then 0xa0 else 0x80) (if b == 0xed then 0x9f else 0xbf) (b % 16),
    )
unfolding utf8_byte
lead_three b h k = ground arith

lead_four :
    (b : ℕ)
    → 0xf0 ≤ b
    → b ≤ 0xf4
    → utf8_byte utf8_start b
      ≡ ([], awaits 3 (if b == 0xf0 then 0x90 else 0x80) (if b == 0xf4 then 0x8f else 0xbf) (b % 8))
unfolding utf8_byte
lead_four b h k = ground arith

module _ (lower upper point b : ℕ) (low : lower ≤ b) (high : b ≤ upper) where
  above : leb lower b ≡ true
  above = ground arith

  below : leb b upper ≡ true
  below = ground arith

  last_byte :
      utf8_byte (awaits 1 lower upper point) b ≡ (point_units (point * 64 + b % 64), utf8_start)
  unfolding utf8_byte
  last_byte = rw (above, below)

  second_of_three :
      utf8_byte (awaits 2 lower upper point) b ≡ ([], awaits 1 0x80 0xbf (point * 64 + b % 64))
  unfolding utf8_byte
  second_of_three = rw (above, below)

  second_of_four :
      utf8_byte (awaits 3 lower upper point) b ≡ ([], awaits 2 0x80 0xbf (point * 64 + b % 64))
  unfolding utf8_byte
  second_of_four = rw (above, below)

small_point : (c : ℕ) → c < 65536 → point_units c ≡ c ∷ []
unfolding point_units
small_point c h = let one : leb c 0xffff ≡ true = ground arith in rw one

large_point :
    (u v : ℕ) → is_high u ≡ true → is_low v ≡ true → point_units (pair_point u v) ≡ u ∷ v ∷ []
unfolding point_units
large_point u v hu hv =
    let ul : 0xd800 ≤ u = ground arith in
    let uh : u ≤ 0xdbff = ground arith in
    let vl : 0xdc00 ≤ v = ground arith in
    let vh : v ≤ 0xdfff = ground arith in
    let two : leb (pair_point u v) 0xffff ≡ false = ground arith in
    let first : 0xd800 + (pair_point u v - 0x10000) / 1024 ≡ u = omega arith in
    let second : 0xdc00 + (pair_point u v - 0x10000) % 1024 ≡ v = omega arith in
    rw two (
      ap (λ (a : ℕ). a ∷ (0xdc00 + (pair_point u v - 0x10000) % 1024) ∷ []) first
      ∙ ap (λ (b : ℕ). u ∷ b ∷ []) second)

module _ (rest : List ℕ) where
  abbrev tail_text : Text
  tail_text = utf8_loop utf8_start rest

  two_bytes :
      (u : ℕ)
      → 0x80 ≤ u
      → u ≤ 0x7ff
      → utf8_loop utf8_start ((192 + u / 64) ∷ (128 + u % 64) ∷ rest) ≡ u ∷ tail_text
  two_bytes u h k =
      let whole : (192 + u / 64) % 32 * 64 + (128 + u % 64) % 64 ≡ u = omega arith in
      loop_step utf8_start (192 + u / 64) ((128 + u % 64) ∷ rest) [] _
        (lead_two (192 + u / 64) (omega arith) (omega arith))
      ∙ loop_step _ (128 + u % 64) rest _ utf8_start
          (last_byte 0x80 0xbf ((192 + u / 64) % 32) (128 + u % 64) (omega arith) (omega arith))
      ∙ ap (λ (c : ℕ). point_units c ++ tail_text) whole
      ∙ ap (λ (x : Text). x ++ tail_text) (small_point u (omega arith))

  three_bytes_of :
      (u : ℕ)
      → 0x800 ≤ u
      → u < 65536
      → (is_high u || is_low u) ≡ false
      → utf8_loop utf8_start (three_bytes u ++ rest) ≡ u ∷ tail_text
  three_bytes_of u h k single =
      let b = 224 + u / 4096 in
      let c = 128 + u / 64 % 64 in
      let lower : ℕ = if b == 0xe0 then 0xa0 else 0x80 in
      let upper : ℕ = if b == 0xed then 0x9f else 0xbf in
      let above_lower : lower ≤ c = ground arith in
      let below_upper : c ≤ upper = ground arith in
      let whole : (b % 16 * 64 + c % 64) * 64 + (128 + u % 64) % 64 ≡ u = omega arith in
      loop_step utf8_start b (c ∷ (128 + u % 64) ∷ rest) [] _
        (lead_three b (omega arith) (omega arith))
      ∙ loop_step _ c ((128 + u % 64) ∷ rest) [] _
          (second_of_three lower upper (b % 16) c above_lower below_upper)
      ∙ loop_step _ (128 + u % 64) rest _ utf8_start
          (last_byte 0x80 0xbf (b % 16 * 64 + c % 64) (128 + u % 64) (omega arith) (omega arith))
      ∙ ap (λ (n : ℕ). point_units n ++ tail_text) whole
      ∙ ap (λ (x : Text). x ++ tail_text) (small_point u k)

  four_bytes_of :
      (p : ℕ)
      → 0x10000 ≤ p
      → p ≤ 0x10ffff
      → utf8_loop utf8_start (point_bytes p ++ rest) ≡ point_units p ++ tail_text
  unfolding point_bytes
  four_bytes_of p h k =
      let a = 240 + p / 262144 in
      let b = 128 + p / 4096 % 64 in
      let c = 128 + p / 64 % 64 in
      let lower : ℕ = if a == 0xf0 then 0x90 else 0x80 in
      let upper : ℕ = if a == 0xf4 then 0x8f else 0xbf in
      let above_lower : lower ≤ b = ground arith in
      let below_upper : b ≤ upper = ground arith in
      let whole : ((a % 8 * 64 + b % 64) * 64 + c % 64) * 64 + (128 + p % 64) % 64 ≡ p =
        omega arith in
      loop_step utf8_start a (b ∷ c ∷ (128 + p % 64) ∷ rest) [] _
        (lead_four a (omega arith) (omega arith))
      ∙ loop_step _ b (c ∷ (128 + p % 64) ∷ rest) [] _
          (second_of_four lower upper (a % 8) b above_lower below_upper)
      ∙ loop_step _ c ((128 + p % 64) ∷ rest) [] _
          (second_of_three 0x80 0xbf (a % 8 * 64 + b % 64) c (omega arith) (omega arith))
      ∙ loop_step _ (128 + p % 64) rest _ utf8_start (
          last_byte 0x80 0xbf ((a % 8 * 64 + b % 64) * 64 + c % 64) (128 + p % 64) (omega arith)
            (omega arith))
      ∙ ap (λ (n : ℕ). point_units n ++ tail_text) whole

  pub four_bytes :
      (u v : ℕ)
      → is_high u ≡ true
      → is_low v ≡ true
      → utf8_loop utf8_start (point_bytes (pair_point u v) ++ rest) ≡ u ∷ v ∷ tail_text
  unfolding point_bytes
  four_bytes u v hu hv =
      let ul : 0xd800 ≤ u = ground arith in
      let uh : u ≤ 0xdbff = ground arith in
      let vl : 0xdc00 ≤ v = ground arith in
      let vh : v ≤ 0xdfff = ground arith in
      let p = pair_point u v in
      let low_point : 0x10000 ≤ p = omega arith in
      let high_point : p ≤ 0x10ffff = omega arith in
      four_bytes_of p low_point high_point
      ∙ ap (λ (x : Text). x ++ tail_text) (large_point u v hu hv)

  pub unit_bytes-loop :
      (u : ℕ)
      → u < 65536
      → (is_high u || is_low u) ≡ false
      → utf8_loop utf8_start (unit_bytes u ++ rest) ≡ u ∷ tail_text
  unfolding unit_bytes
  unit_bytes-loop u h single = elim (Bool-cases (leb u 0x7f)) [
    | inl one ↦ rw one (loop_step utf8_start u rest _ utf8_start (one_byte u (ground arith)))
    | inr more ↦ elim (Bool-cases (leb u 0x7ff)) [
      | inl two ↦ rw (more, two) (two_bytes u (ground arith) (ground arith))
      | inr three ↦ rw (more, three, single) (three_bytes_of u (ground arith) h single)
    ]
  ]
