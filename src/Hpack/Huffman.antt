-- ===== src/Hpack/Huffman.antt =====
-- web/src/h2/hpack/huffman.ts: Huffman coding of header strings.
pub mod Bits
pub mod Writer
pub mod RoundTrip
use grpc_bridge.Prelude.{
  ℕ, zero, suc, ◌+◌, ◌/◌, ◌%◌, ◌^◌, Bool, true, false, not, ◌&&◌, ◌||◌, Option, none, some, List,
  [], ◌∷◌, ◌++◌, length, get_elem?, replicate, ltb, ◌==◌, if◌then◌else◌,
}
use Prim.Native.Nat.{bit_or}
use grpc_bridge.Errors.{Result, ok, err, ◌>>=◌, connection_failure, compression_error}
use grpc_bridge.Hpack.HuffmanTable.{huffman_codes, huffman_eos}

-- `HUFFMAN_CODES[symbol]`: code and length. A byte is always in the table.
unfoldable pub code_of : ℕ → ℕ × ℕ
code_of symbol = elim (get_elem? huffman_codes symbol) [ some entry ↦ entry | none ↦ (0, 0) ]

unfoldable pub encoded_bit_length : List ℕ → ℕ
unfolding code_of
encoded_bit_length [] = 0
encoded_bit_length (byte ∷ input) = (code_of byte).1 + encoded_bit_length input

-- `out[i] |= mask`, which does nothing out of range.
unfoldable pub or_at : List ℕ → ℕ → ℕ → List ℕ
or_at [] i mask = []
or_at (x ∷ out) zero mask = bit_or x mask ∷ out
or_at (x ∷ out) (suc i) mask = x ∷ or_at out i mask

-- `out[bitPos >>> 3] |= 0x80 >>> (bitPos & 7)`.
unfoldable pub set_bit : List ℕ → ℕ → List ℕ
unfolding or_at
set_bit out bit_pos = or_at out (bit_pos / 8) (128 / 2 ^ (bit_pos % 8))

-- Bit `i` of a code.
abbrev pub bit_at : ℕ → ℕ → ℕ
bit_at code i = code / 2 ^ i % 2

-- The inner loop: the `n` low bits of the code, from the highest on.
unfoldable pub put_code : ℕ → ℕ → List ℕ × ℕ → List ℕ × ℕ
unfolding set_bit
put_code zero code (out, bit_pos) = (out, bit_pos)
put_code (suc i) code (out, bit_pos) =
    let out' = if bit_at code i == 1 then set_bit out bit_pos else out in
    put_code i code (out', suc bit_pos)

unfoldable pub put_symbols : List ℕ → List ℕ × ℕ → List ℕ × ℕ
unfolding put_code code_of
put_symbols [] s = s
put_symbols (byte ∷ input) s =
    let (code, bits) = code_of byte in put_symbols input (put_code bits code s)

-- `while (bitPos & 7)`, on fuel: at most seven rounds.
unfoldable pub pad_ones : ℕ → List ℕ × ℕ → List ℕ
unfolding set_bit
pad_ones zero (out, bit_pos) = out
pad_ones (suc fuel) (out, bit_pos) = elim (bit_pos % 8 == 0) [
  | true ↦ out
  | false ↦ pad_ones fuel (set_bit out bit_pos, suc bit_pos)
]

unfoldable pub huffman_encode : List ℕ → List ℕ
unfolding encoded_bit_length put_symbols pad_ones
huffman_encode input =
    pad_ones 8 (put_symbols input (replicate ((encoded_bit_length input + 7) / 8) 0, 0))

unfoldable pub huffman_shorter : List ℕ → Bool
unfolding encoded_bit_length
huffman_shorter input = ltb ((encoded_bit_length input + 7) / 8) (length input)

-- `TrieNode | undefined`: the symbol, and the children behind a 0 and a 1.
pub data Trie : Type 0 where
  absent : Trie
  node : Option ℕ → Trie → Trie → Trie

abbrev pub child : Trie → ℕ → Trie
child absent b = absent
child (node s zeros ones) b = if b == 0 then zeros else ones

-- One symbol of `buildTrie`: down the `n` low bits of the code, with nodes made where there are
-- none.
unfoldable pub add_symbol : ℕ → ℕ → ℕ → Trie → Trie
add_symbol zero code symbol absent = node (some symbol) absent absent
add_symbol zero code symbol (node s zeros ones) = node (some symbol) zeros ones
add_symbol (suc i) code symbol absent = elim (bit_at code i == 0) [
  | true ↦ node none (add_symbol i code symbol absent) absent
  | false ↦ node none absent (add_symbol i code symbol absent)
]
add_symbol (suc i) code symbol (node s zeros ones) = elim (bit_at code i == 0) [
  | true ↦ node s (add_symbol i code symbol zeros) ones
  | false ↦ node s zeros (add_symbol i code symbol ones)
]

unfoldable pub add_symbols : ℕ → List (ℕ × ℕ) → Trie → Trie
unfolding add_symbol
add_symbols symbol [] t = t
add_symbols symbol ((code, bits) ∷ codes) t =
    add_symbols (suc symbol) codes (add_symbol bits code symbol t)

-- `ROOT`.
unfoldable pub root : Trie
unfolding add_symbols huffman_codes
root = add_symbols 0 huffman_codes (node none absent absent)

-- The locals of `huffmanDecode`. The node is the root exactly when `partial_bits` is 0.
pub record HuffmanState : Type 0 where
  pub output : List ℕ
  pub at : Trie
  pub partial_bits : ℕ
  pub partial_all_ones : Bool

unfoldable pub huffman_start : HuffmanState
huffman_start = record { output = []; at = root; partial_bits = 0; partial_all_ones = true }

-- Behind a step to `next`, which is a node.
unfoldable pub reach : HuffmanState → Trie → Result HuffmanState
reach s absent = err (connection_failure compression_error)
reach s (node none zeros ones) =
    ok (record s { at = node none zeros ones; partial_bits = suc s.partial_bits })
reach s (node (some symbol) zeros ones) =
    if symbol == huffman_eos
    then err (connection_failure compression_error)
    else ok (record {
      output = s.output ++ symbol ∷ [];
      at = root;
      partial_bits = 0;
      partial_all_ones = true;
    })

unfoldable pub decode_bit : HuffmanState → ℕ → Result HuffmanState
unfolding reach
decode_bit s b =
    reach (record s { partial_all_ones = if b == 0 then false else s.partial_all_ones })
      (child s.at b)

-- The bits of a byte, from the highest on.
unfoldable pub decode_bits : ℕ → ℕ → HuffmanState → Result HuffmanState
unfolding decode_bit
decode_bits zero byte s = ok s
decode_bits (suc i) byte s = do s1 ← decode_bit s (bit_at byte i); decode_bits i byte s1

unfoldable pub decode_bytes : List ℕ → HuffmanState → Result HuffmanState
unfolding decode_bits
decode_bytes [] s = ok s
decode_bytes (byte ∷ input) s = do s1 ← decode_bits 8 byte s; decode_bytes input s1

-- What is left over has to be the start of the end marker, shorter than a byte.
unfoldable pub huffman_finish : HuffmanState → Result (List ℕ)
huffman_finish s =
    if not (s.partial_bits == 0) && (ltb 7 s.partial_bits || not s.partial_all_ones)
    then err (connection_failure compression_error)
    else ok s.output

unfoldable pub huffman_decode : List ℕ → Result (List ℕ)
unfolding decode_bytes huffman_finish huffman_start
huffman_decode input = do s ← decode_bytes input huffman_start; huffman_finish s
