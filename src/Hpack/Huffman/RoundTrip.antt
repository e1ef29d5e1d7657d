-- ===== src/Hpack/Huffman/RoundTrip.antt =====
-- web/src/h2/hpack/huffman.ts: `huffmanDecode` on what `huffmanEncode` wrote.
use grpc_bridge.Prelude.{
  ℕ, zero, suc, ◌+◌, ◌<◌, ◌≡◌, refl, sym, ap, ◌∙◌, Bool, true, false, Option, none, some, List, [],
  ◌∷◌, ◌++◌, replicate, All, ◌==◌, if◌then◌else◌, append_assoc, append-nil, arith,
}
use grpc_bridge.Prelude.Bits.{agree, agree_sound}
use grpc_bridge.Errors.{Result, ok, err, ◌>>=◌}
use grpc_bridge.Hpack.HuffmanTable.{huffman_codes, huffman_eos}
use grpc_bridge.Hpack.Huffman.{
  code_of, bit_at, Trie, absent, node, child, root, HuffmanState, huffman_start, reach, decode_bit,
  decode_bits, decode_bytes, huffman_finish, huffman_decode, huffman_encode,
}
use grpc_bridge.Hpack.Huffman.Bits.{low_bits, bits_of, IsByte}
use grpc_bridge.Hpack.Huffman.Writer.{symbol_bits, padding, huffman_encode-bits}

module _ {A B : Type 0} (f g : A → Result B) where
  bind_same : (r : Result A) → ((a : A) → f a ≡ g a) → (r >>= f) ≡ (r >>= g)
  bind_same (ok a) h = h a
  bind_same (err e) h = refl

bind_assoc :
    {A B C : Type 0} (r : Result A) (f : A → Result B) (g : B → Result C)
    → ((r >>= f) >>= g) ≡ (r >>= λ a. f a >>= g)
bind_assoc (ok a) f g = refl
bind_assoc (err e) f g = refl

-- The decoder on a list of bits.
run_bits : List ℕ → HuffmanState → Result HuffmanState
unfolding decode_bit
run_bits [] s = ok s
run_bits (b ∷ bits) s = decode_bit s b >>= run_bits bits

run_bits-append :
    (xs ys : List ℕ) (s : HuffmanState) → run_bits (xs ++ ys) s ≡ (run_bits xs s >>= run_bits ys)
unfolding run_bits
run_bits-append [] ys s = refl
run_bits-append (b ∷ xs) ys s =
    bind_same (run_bits (xs ++ ys)) (λ s1. run_bits xs s1 >>= run_bits ys) (decode_bit s b)
      (run_bits-append xs ys)
    ∙ sym (bind_assoc (decode_bit s b) (run_bits xs) (run_bits ys))

decode_bits-run_bits :
    (n byte : ℕ) (s : HuffmanState) → decode_bits n byte s ≡ run_bits (low_bits n byte) s
unfolding decode_bits run_bits low_bits
decode_bits-run_bits zero byte s = refl
decode_bits-run_bits (suc i) byte s =
    bind_same (decode_bits i byte) (run_bits (low_bits i byte)) (decode_bit s (bit_at byte i))
      (decode_bits-run_bits i byte)

decode_bytes-run_bits :
    (bytes : List ℕ) (s : HuffmanState) → decode_bytes bytes s ≡ run_bits (bits_of bytes) s
unfolding decode_bytes bits_of run_bits
decode_bytes-run_bits [] s = refl
decode_bytes-run_bits (x ∷ bytes) s =
    ap (λ (r : Result HuffmanState). r >>= decode_bytes bytes) (decode_bits-run_bits 8 x s)
    ∙ bind_same (decode_bytes bytes) (run_bits (bits_of bytes)) (run_bits (low_bits 8 x) s)
        (decode_bytes-run_bits bytes)
    ∙ sym (run_bits-append (low_bits 8 x) (bits_of bytes) s)

-- The symbol that the bits lead to from a node, with no other symbol on the way.
leads : List ℕ → Trie → Option ℕ
leads [] absent = none
leads [] (node s zeros ones) = s
leads (b ∷ bits) (node none zeros ones) = leads bits (if b == 0 then zeros else ones)
leads (b ∷ bits) _ = none

-- The state behind a symbol.
abbrev with_symbol : HuffmanState → ℕ → HuffmanState
with_symbol s symbol = record {
  output = s.output ++ symbol ∷ [];
  at = root;
  partial_bits = 0;
  partial_all_ones = true;
}

reach-leads :
    (bits : List ℕ) (s : HuffmanState) (t : Trie) (symbol : ℕ)
    → symbol < 256
    → leads bits t ≡ some symbol
    → (reach s t >>= run_bits bits) ≡ ok (with_symbol s symbol)
unfolding reach leads run_bits
reach-leads [] s absent symbol small e = absurd (ground arith)
reach-leads (b ∷ bits) s absent symbol small e = absurd (ground arith)
reach-leads [] s (node none zeros ones) symbol small e = absurd (ground arith)
reach-leads [] s (node (some y) zeros ones) symbol small e =
    let same : y ≡ symbol = ground arith in
    let inner : (y == huffman_eos) ≡ false = ground arith in rw (inner, same)
reach-leads (b ∷ bits) s (node (some y) zeros ones) symbol small e = absurd (ground arith)
reach-leads (b ∷ bits) s (node none zeros ones) symbol small e =
    reach-leads bits
      (record s {
        at = node none zeros ones;
        partial_bits = suc s.partial_bits;
        partial_all_ones = if b == 0 then false else s.partial_all_ones;
      })
      (if b == 0 then zeros else ones) symbol small e

-- Each byte's code leads from the root to the byte, by evaluation.
abbrev or_none : Option ℕ → ℕ
or_none none = 256
or_none (some symbol) = symbol

or_none-some : (o : Option ℕ) (symbol : ℕ) → symbol < 256 → or_none o ≡ symbol → o ≡ some symbol
or_none-some none symbol small e = absurd (omega arith)
or_none-some (some y) symbol small e = ap some e

abbrev code_bits : ℕ → List ℕ
code_bits byte = low_bits (code_of byte).1 (code_of byte).0

abbrev led_to : ℕ → ℕ
led_to byte = or_none (leads (code_bits byte) root)

code_table : agree led_to (λ byte. byte) 256 ≡ true
unfolding agree leads low_bits code_of root huffman_codes
code_table = refl

code_leads : (byte : ℕ) → byte < 256 → leads (code_bits byte) root ≡ some byte
code_leads byte h = or_none-some _ byte h (agree_sound led_to (λ x. x) 256 code_table byte h)

-- A state at the root, and nothing begun.
abbrev fresh : List ℕ → HuffmanState
fresh output = record { output = output; at = root; partial_bits = 0; partial_all_ones = true }

root_inner : root ≡ node none (child root 0) (child root 1)
unfolding root huffman_codes
root_inner = refl

abbrev after_bit : ℕ → HuffmanState → HuffmanState
after_bit b s = record s { partial_all_ones = if b == 0 then false else s.partial_all_ones }

run_leads :
    (bits : List ℕ) (s : HuffmanState) (zeros ones : Trie) (symbol : ℕ)
    → symbol < 256
    → s.at ≡ node none zeros ones
    → leads bits (node none zeros ones) ≡ some symbol
    → run_bits bits s ≡ ok (with_symbol s symbol)
unfolding run_bits leads
run_leads [] s zeros ones symbol small at_node e = absurd (ground arith)
run_leads (b ∷ bits) s zeros ones symbol small at_node e =
    ap (λ (t : Trie). reach (after_bit b s) (child t b) >>= run_bits bits) at_node
    ∙ reach-leads bits (after_bit b s) (if b == 0 then zeros else ones) symbol small e

run_code :
    (output : List ℕ) (byte : ℕ)
    → byte < 256
    → run_bits (code_bits byte) (fresh output) ≡ ok (fresh (output ++ byte ∷ []))
run_code output byte small =
    run_leads (code_bits byte) (fresh output) (child root 0) (child root 1) byte small root_inner
      (ap (leads (code_bits byte)) (sym root_inner) ∙ code_leads byte small)

run_symbols :
    (input output : List ℕ)
    → All IsByte input
    → run_bits (symbol_bits input) (fresh output) ≡ ok (fresh (output ++ input))
unfolding run_bits symbol_bits
run_symbols [] output h = rw append-nil
run_symbols (byte ∷ input) output (small, h) =
    run_bits-append (code_bits byte) (symbol_bits input) (fresh output)
    ∙ ap (λ (r : Result HuffmanState). r >>= run_bits (symbol_bits input))
        (run_code output byte small)
    ∙ run_symbols input (output ++ byte ∷ []) h
    ∙ ap (λ (x : List ℕ). ok (fresh x)) (append_assoc output (byte ∷ []) input)

-- The padding: a path of ones with no symbol on it.
passes : ℕ → Trie → Bool
passes zero t = true
passes (suc k) (node none zeros (node none z o)) = passes k (node none z o)
passes (suc k) _ = false

passes_table : agree (λ k. if passes k root then 1 else 0) (λ k. 1) 8 ≡ true
unfolding agree passes root huffman_codes
passes_table = refl

passes-root : (k : ℕ) → k < 8 → passes k root ≡ true
passes-root k h =
    yes_of (passes k root)
      (agree_sound (λ n. if passes n root then 1 else 0) (λ n. 1) 8 passes_table k h)
  where
    yes_of : (b : Bool) → ◌≡◌ {A = ℕ} (if b then 1 else 0) 1 → b ≡ true
    yes_of true e = refl
    yes_of false e = absurd (omega arith)

abbrev IsPadded : ℕ → HuffmanState → Result HuffmanState → Type 0
IsPadded k s r =
    (s' : HuffmanState) × (r ≡ ok s')
    × (s'.output ≡ s.output)
    × (s'.partial_bits ≡ s.partial_bits + k)
    × (s'.partial_all_ones ≡ s.partial_all_ones)

run_ones :
    (k : ℕ) (s : HuffmanState) (t : Trie)
    → passes k t ≡ true
    → s.at ≡ t
    → IsPadded k s (run_bits (replicate k 1) s)
unfolding run_bits passes reach
run_ones zero s t e at_node = (s, refl, refl, omega arith, refl)
run_ones (suc k) s absent e at_node = absurd (ground arith)
run_ones (suc k) s (node (some y) zeros ones) e at_node = absurd (ground arith)
run_ones (suc k) s (node none zeros absent) e at_node = absurd (ground arith)
run_ones (suc k) s (node none zeros (node (some y) z o)) e at_node = absurd (ground arith)
run_ones (suc k) s (node none zeros (node none z o)) e at_node =
    let s1 : HuffmanState = record s { at = node none z o; partial_bits = suc s.partial_bits } in
    let (s', done, output, bits, ones) = run_ones k s1 (node none z o) e refl in
    (
      s',
      ap (λ (t : Trie). reach s (child t 1) >>= run_bits (replicate k 1)) at_node ∙ done,
      output,
      omega (arith, bits),
      ones,
    )

finish-IsPadded :
    (k : ℕ) (s : HuffmanState) (r : Result HuffmanState)
    → k < 8
    → s.partial_bits ≡ 0
    → s.partial_all_ones ≡ true
    → IsPadded k s r
    → (r >>= huffman_finish) ≡ ok s.output
unfolding huffman_finish
finish-IsPadded k s r h no_bits all_ones (s', done, output, bits, ones) =
    ap (λ (x : Result HuffmanState). x >>= huffman_finish) done ∙ ground arith

-- The Huffman decoder gives back whatever bytes the encoder wrote, in order and with nothing added by
-- the padding.
pub huffman_decode-huffman_encode :
    (input : List ℕ) → All IsByte input → huffman_decode (huffman_encode input) ≡ ok input
unfolding huffman_decode huffman_start
huffman_decode-huffman_encode input h =
    let bits = huffman_encode-bits input in
    let codes = run_symbols input [] h in
    let ones =
      run_ones (padding input) (fresh input) root (passes-root (padding input) (omega arith))
        refl in
    ap (λ (r : Result HuffmanState). r >>= huffman_finish)
      (decode_bytes-run_bits (huffman_encode input) huffman_start
        ∙ ap (λ (x : List ℕ). run_bits x huffman_start) bits
        ∙ run_bits-append (symbol_bits input) (replicate (padding input) 1) huffman_start
        ∙ ap (λ (r : Result HuffmanState). r >>= run_bits (replicate (padding input) 1)) codes)
    ∙ finish-IsPadded (padding input) (fresh input) _ (omega arith) refl refl ones
