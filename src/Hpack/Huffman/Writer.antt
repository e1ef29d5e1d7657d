-- ===== src/Hpack/Huffman/Writer.antt =====
-- web/src/h2/hpack/huffman.ts: what `huffmanEncode` writes, as bits.
use mathlib.Core.Path.{subst}
use grpc_bridge.Prelude.{
  ℕ, zero, suc, ◌+◌, ◌-◌, ◌*◌, ◌/◌, ◌%◌, ◌^◌, ◌≤◌, ◌<◌, ◌≡◌, refl, sym, ap, ◌∙◌, ◌⊎◌, inl, inr,
  true, false, List, [], ◌∷◌, ◌++◌, length, replicate, All, ◌==◌, Bool-cases, length-append,
  append_assoc, append-nil, length-replicate, arith,
}
use grpc_bridge.Hpack.Huffman.{
  set_bit, put_code, put_symbols, pad_ones, code_of, encoded_bit_length, huffman_encode,
}
use grpc_bridge.Hpack.Huffman.Bits.{low_bits, bits_of, put_one, put_one_past, IsByte, or_at-bits}

-- The array holds the bits `w`, then `k` bits that are not written yet.
record Holds (s : List ℕ × ℕ) (w : List ℕ) (k : ℕ) : Type 0 where
  bits : bits_of s.0 ≡ w ++ replicate k 0
  placed : s.1 ≡ length w
  bytes : All IsByte s.0

pub length-bits_of : (out : List ℕ) → length (bits_of out) ≡ 8 * length out
unfolding bits_of
length-bits_of [] = omega arith
length-bits_of (x ∷ out) = omega (arith, length-bits_of out)

room : (s : List ℕ × ℕ) (w : List ℕ) (k : ℕ) → Holds s w k → s.1 + k ≡ 8 * length s.0
room (out, pos) w k h = omega (
  arith,
  h.placed,
  ap length h.bits,
  length-bits_of out,
  length-append w (replicate k 0),
  length-replicate {A = ℕ} k 0,
)

Holds_skip :
    (out : List ℕ) (pos : ℕ) (w : List ℕ) (k : ℕ)
    → Holds (out, pos) w (suc k)
    → Holds (out, suc pos) (w ++ 0 ∷ []) k
Holds_skip out pos w k h = record {
  bits = h.bits ∙ sym (append_assoc w (0 ∷ []) (replicate k 0));
  placed = omega (arith, h.placed, length-append w (0 ∷ []));
  bytes = h.bytes;
}

Holds-set_bit :
    (out : List ℕ) (pos : ℕ) (w : List ℕ) (k : ℕ)
    → Holds (out, pos) w (suc k)
    → Holds (set_bit out pos, suc pos) (w ++ 1 ∷ []) k
unfolding set_bit
Holds-set_bit out pos w k h =
    let size = room (out, pos) w (suc k) h in
    let (e, bytes) = or_at-bits (pos / 8) (pos % 8) out (omega arith) (omega arith) h.bytes in
    record {
      bits =
          e
          ∙ ap (λ (n : ℕ). put_one n (bits_of out)) (omega (arith, h.placed))
          ∙ ap (put_one (length w + 0)) h.bits
          ∙ put_one_past (length w) 0 w (replicate (suc k) 0) refl
          ∙ sym (append_assoc w (1 ∷ []) (replicate k 0));
      placed = omega (arith, h.placed, length-append w (1 ∷ []));
      bytes = bytes;
    }

zero_or_one : (n : ℕ) → (n % 2 ≡ 0) ⊎ (n % 2 ≡ 1)
zero_or_one n = elim (Bool-cases (n % 2 == 0)) [
  | inl e ↦ inl (ground arith)
  | inr e ↦ inr (ground arith)
]

Holds-put_code :
    (n code : ℕ) (out : List ℕ) (pos : ℕ) (w : List ℕ) (k : ℕ)
    → Holds (out, pos) w (n + k)
    → Holds (put_code n code (out, pos)) (w ++ low_bits n code) k
unfolding put_code low_bits
Holds-put_code zero code out pos w k h = rw append-nil (subst (Holds (out, pos) w) (omega arith) h)
Holds-put_code (suc i) code out pos w k h =
    let one_more : suc i + k ≡ suc (i + k) = omega arith in
    let h1 = subst (Holds (out, pos) w) one_more h in
    elim (zero_or_one (code / 2 ^ i)) [
      | inl e ↦ rw e (
          subst (λ (x : List ℕ). Holds (put_code i code (out, suc pos)) x k)
            (append_assoc w (0 ∷ []) (low_bits i code))
            (Holds-put_code i code out (suc pos) (w ++ 0 ∷ []) k (Holds_skip out pos w (i + k) h1)))
      | inr e ↦ rw e (
          subst (λ (x : List ℕ). Holds (put_code i code (set_bit out pos, suc pos)) x k)
            (append_assoc w (1 ∷ []) (low_bits i code))
            (Holds-put_code i code (set_bit out pos) (suc pos) (w ++ 1 ∷ []) k
              (Holds-set_bit out pos w (i + k) h1)))
    ]

-- The codes of the bytes behind one another.
unfoldable pub symbol_bits : List ℕ → List ℕ
symbol_bits [] = []
symbol_bits (byte ∷ input) = low_bits (code_of byte).1 (code_of byte).0 ++ symbol_bits input

Holds-put_symbols :
    (input : List ℕ) (s : List ℕ × ℕ) (w : List ℕ) (k : ℕ)
    → Holds s w (encoded_bit_length input + k)
    → Holds (put_symbols input s) (w ++ symbol_bits input) k
unfolding put_symbols encoded_bit_length symbol_bits
Holds-put_symbols [] s w k h = rw append-nil (subst (Holds s w) (omega arith) h)
Holds-put_symbols (byte ∷ input) (out, pos) w k h =
    let code = (code_of byte).0 in
    let n = (code_of byte).1 in
    let h1 =
      Holds-put_code n code out pos w (encoded_bit_length input + k)
        (subst (Holds (out, pos) w) (omega arith) h) in
    subst (λ (x : List ℕ). Holds (put_symbols input (put_code n code (out, pos))) x k)
      (append_assoc w (low_bits n code) (symbol_bits input))
      (Holds-put_symbols input (put_code n code (out, pos)) (w ++ low_bits n code) k h1)

replicate_next : (w : List ℕ) (k : ℕ) → (w ++ 1 ∷ []) ++ replicate k 1 ≡ w ++ replicate (suc k) 1
replicate_next w k = append_assoc w (1 ∷ []) (replicate k 1)

pad_ones-bits :
    (fuel : ℕ) (out : List ℕ) (pos : ℕ) (w : List ℕ) (k : ℕ)
    → k < 8
    → k ≤ fuel
    → Holds (out, pos) w k
    → bits_of (pad_ones fuel (out, pos)) ≡ w ++ replicate k 1
unfolding pad_ones
pad_ones-bits zero out pos w zero hk hf h = h.bits
pad_ones-bits zero out pos w (suc k) hk hf h = absurd (omega arith)
pad_ones-bits (suc fuel) out pos w zero hk hf h =
    let size = room (out, pos) w 0 h in
    let done : (pos % 8 == 0) ≡ true = ground arith in rw (done, pad_ones) h.bits
pad_ones-bits (suc fuel) out pos w (suc k) hk hf h =
    let size = room (out, pos) w (suc k) h in
    let more : (pos % 8 == 0) ≡ false = ground arith in
    rw (more, pad_ones)
      (pad_ones-bits fuel (set_bit out pos) (suc pos) (w ++ 1 ∷ []) k (omega arith) (omega arith)
          (Holds-set_bit out pos w k h)
        ∙ replicate_next w k)

bits_of-replicate : (n : ℕ) → bits_of (replicate n 0) ≡ replicate (n * 8) 0
unfolding bits_of
bits_of-replicate zero = refl
bits_of-replicate (suc n) =
    let e : suc n * 8 ≡ suc (suc (suc (suc (suc (suc (suc (suc (n * 8)))))))) = omega arith in
    rw e (ap (λ (x : List ℕ). replicate 8 0 ++ x) (bits_of-replicate n))

zero_bytes : (n : ℕ) → All IsByte (replicate n 0)
zero_bytes zero = tt
zero_bytes (suc n) = (omega arith, zero_bytes n)

-- The padding of an input.
abbrev pub padding : List ℕ → ℕ
padding input = (encoded_bit_length input + 7) / 8 * 8 - encoded_bit_length input

-- What is written is the codes of the bytes, with ones up to the end of the last byte.
pub huffman_encode-bits :
    (input : List ℕ)
    → bits_of (huffman_encode input) ≡ symbol_bits input ++ replicate (padding input) 1
unfolding huffman_encode
huffman_encode-bits input =
    let n = (encoded_bit_length input + 7) / 8 in
    let s : List ℕ × ℕ = (replicate n 0, 0) in
    let start : Holds s [] (encoded_bit_length input + padding input) = record {
      bits = bits_of-replicate n ∙ ap (λ (k : ℕ). replicate k 0) (omega arith);
      placed = refl;
      bytes = zero_bytes n;
    } in
    pad_ones-bits 8 (put_symbols input s).0 (put_symbols input s).1 (symbol_bits input)
      (padding input) (omega arith) (omega arith)
      (Holds-put_symbols input s [] (padding input) start)
