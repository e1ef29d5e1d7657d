-- ===== src/Hpack/Huffman/Bits.antt =====
-- web/src/h2/hpack/huffman.ts: the bytes of `huffmanEncode` as the bits that they stand for.
use grpc_bridge.Prelude.{
  ℕ, zero, suc, ◌+◌, ◌*◌, ◌/◌, ◌%◌, ◌^◌, ◌<◌, ◌≡◌, refl, sym, ap, ◌∙◌, Bool, true, false, ◌&&◌,
  List, [], ◌∷◌, ◌++◌, length, All, ltb, ltb→lt, if◌then◌else◌, arith,
}
use Prim.Native.Nat.{bit_or}
use grpc_bridge.Text.{text_eq, text_eq_lem}
use grpc_bridge.Prelude.Bits.{agree, agree_sound}
use grpc_bridge.Hpack.Huffman.{or_at, bit_at}

-- The `n` low bits of a number, from the highest on.
unfoldable pub low_bits : ℕ → ℕ → List ℕ
low_bits zero code = []
low_bits (suc i) code = bit_at code i ∷ low_bits i code

abbrev pub byte_bits : ℕ → List ℕ
byte_bits x = low_bits 8 x

unfoldable pub bits_of : List ℕ → List ℕ
unfolding low_bits
bits_of [] = []
bits_of (x ∷ bytes) = byte_bits x ++ bits_of bytes

-- The bit at `j` set.
abbrev pub put_one : ℕ → List ℕ → List ℕ
put_one j [] = []
put_one zero (b ∷ bits) = 1 ∷ bits
put_one (suc j) (b ∷ bits) = b ∷ put_one j bits

-- The bit at `j`, counted from the highest, of a byte: the mask sets it and keeps the byte a byte.
abbrev mask : ℕ → ℕ
mask j = 128 / 2 ^ j

abbrev set_at : ℕ → ℕ → ℕ
set_at x j =
    if text_eq (byte_bits (bit_or x (mask j))) (put_one j (byte_bits x))
      && ltb (bit_or x (mask j)) 256
    then 1
    else 0

abbrev set_rightly : ℕ → ℕ
set_rightly k = set_at (k / 8) (k % 8)

set_table : agree set_rightly (λ k. 1) 2048 ≡ true
unfolding agree low_bits text_eq
set_table = refl

if_one : (b c : Bool) → ◌≡◌ {A = ℕ} (if b && c then 1 else 0) 1 → (b ≡ true) × (c ≡ true)
if_one true true e = (refl, refl)
if_one true false e = absurd (omega arith)
if_one false c e = absurd (omega arith)

byte_bits-bit_or :
    (x j : ℕ)
    → x < 256
    → j < 8
    → (byte_bits (bit_or x (mask j)) ≡ put_one j (byte_bits x)) × (bit_or x (mask j) < 256)
byte_bits-bit_or x j hx hj =
    let k = x * 8 + j in
    let high : k / 8 ≡ x = omega arith in
    let low : k % 8 ≡ j = omega arith in
    let e = agree_sound set_rightly (λ k. 1) 2048 set_table k (omega arith) in
    let here : set_rightly k ≡ set_at x j = rw (high, low) in
    let (same, small) =
      if_one (text_eq (byte_bits (bit_or x (mask j))) (put_one j (byte_bits x)))
        (ltb (bit_or x (mask j)) 256) (sym here ∙ e) in
    (text_eq_lem _ _ same, ltb→lt _ _ small)

-- A bit of the whole array.
length-byte_bits : (x : ℕ) → length (byte_bits x) ≡ 8
unfolding low_bits
length-byte_bits x = refl

put_one_here : (j : ℕ) (xs ys : List ℕ) → j < length xs → put_one j (xs ++ ys) ≡ put_one j xs ++ ys
put_one_here j [] ys h = absurd (omega arith)
put_one_here zero (x ∷ xs) ys h = refl
put_one_here (suc j) (x ∷ xs) ys h = ap (◌∷◌ x) (put_one_here j xs ys (omega arith))

pub put_one_past :
    (n j : ℕ) (xs ys : List ℕ) → length xs ≡ n → put_one (n + j) (xs ++ ys) ≡ xs ++ put_one j ys
put_one_past n j [] ys h = ap (λ (k : ℕ). put_one k ys) (omega arith)
put_one_past zero j (x ∷ xs) ys h = absurd (omega arith)
put_one_past (suc n) j (x ∷ xs) ys h =
    let e : suc n + j ≡ suc (n + j) = omega arith in
    rw e (ap (◌∷◌ x) (put_one_past n j xs ys (omega arith)))

abbrev pub IsByte : ℕ → Type 0
IsByte x = x < 256

pub or_at-bits :
    (i j : ℕ) (out : List ℕ)
    → j < 8
    → i < length out
    → All IsByte out
    → (bits_of (or_at out i (mask j)) ≡ put_one (i * 8 + j) (bits_of out))
      × All IsByte (or_at out i (mask j))
unfolding or_at bits_of
or_at-bits i j [] hj hi h = absurd (omega arith)
or_at-bits zero j (x ∷ out) hj hi (hx, hs) =
    let (e, small) = byte_bits-bit_or x j hx hj in
    (
      ap (λ (b : List ℕ). b ++ bits_of out) e
          ∙ sym (put_one_here j (byte_bits x) (bits_of out) (omega arith))
          ∙ ap (λ (k : ℕ). put_one k (byte_bits x ++ bits_of out)) (omega arith),
      (small, hs),
    )
or_at-bits (suc i) j (x ∷ out) hj hi (hx, hs) =
    let (e, small) = or_at-bits i j out hj (omega arith) hs in
    (
      ap (λ (b : List ℕ). byte_bits x ++ b) e
          ∙ sym (put_one_past 8 (i * 8 + j) (byte_bits x) (bits_of out) refl)
          ∙ ap (λ (k : ℕ). put_one k (byte_bits x ++ bits_of out)) (omega arith),
      (hx, small),
    )
