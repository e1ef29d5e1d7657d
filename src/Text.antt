-- ===== src/Text.antt =====
-- JavaScript strings as lists of UTF-16 code units, with `encodeUtf8` and `decodeUtf8` of
-- web/src/h2/bytes.ts: the TextEncoder and the TextDecoder of the WHATWG Encoding Standard.
pub mod WellFormed
pub mod Characters
pub mod RoundTrip
use grpc_bridge.Prelude.{
  ℕ, ◌+◌, ◌-◌, ◌*◌, ◌/◌, ◌%◌, Bool, true, false, ◌&&◌, ◌||◌, List, [], ◌∷◌, ◌++◌, ltb, leb, ◌==◌,
  ◌≡◌, refl, arith, if◌then◌else◌,
}
use Prim.Native.String.{String}
use Prim.Native.Char.{code}

abbrev pub Text : Type 0
Text = List ℕ

-- The text of an ASCII literal.
abbrev pub text : String → Text
text String.[] = []
text (String.◌∷◌ c s) = code c ∷ text s

unfoldable pub text_eq : Text → Text → Bool
text_eq [] [] = true
text_eq (a ∷ s) (b ∷ t) = a == b && text_eq s t
text_eq _ _ = false

pub text_eq_lem : (s t : Text) → text_eq s t ≡ true → s ≡ t
unfolding text_eq
text_eq_lem [] [] e = refl
text_eq_lem [] (b ∷ t) e = absurd (ground arith)
text_eq_lem (a ∷ s) [] e = absurd (ground arith)
text_eq_lem (a ∷ s) (b ∷ t) e = ground (arith, text_eq_lem s t)

abbrev pub is_high : ℕ → Bool
is_high u = leb 0xd800 u && leb u 0xdbff

abbrev pub is_low : ℕ → Bool
is_low u = leb 0xdc00 u && leb u 0xdfff

-- U+FFFD.
abbrev pub replacement : ℕ
replacement = 0xfffd

abbrev three_bytes : ℕ → List ℕ
three_bytes u = (224 + u / 4096) ∷ (128 + u / 64 % 64) ∷ (128 + u % 64) ∷ []

-- The bytes of a code unit that is no half of a pair; a lone surrogate becomes U+FFFD.
unfoldable pub unit_bytes : ℕ → List ℕ
unit_bytes u =
    if leb u 0x7f
    then u ∷ []
    else if leb u 0x7ff
    then (192 + u / 64) ∷ (128 + u % 64) ∷ []
    else if is_high u || is_low u
    then three_bytes replacement
    else three_bytes u

-- The code point of a surrogate pair, and its four bytes.
abbrev pub pair_point : ℕ → ℕ → ℕ
pair_point u v = 0x10000 + (u - 0xd800) * 1024 + (v - 0xdc00)

unfoldable pub point_bytes : ℕ → List ℕ
point_bytes c =
    (240 + c / 262144) ∷ (128 + c / 4096 % 64) ∷ (128 + c / 64 % 64) ∷ (128 + c % 64) ∷ []

unfoldable pub encode_utf8 : Text → List ℕ
unfolding unit_bytes point_bytes
encode_utf8 [] = []
encode_utf8 (u ∷ []) = unit_bytes u
encode_utf8 (u ∷ v ∷ s) = elim (is_high u && is_low v) [
  | true ↦ point_bytes (pair_point u v) ++ encode_utf8 s
  | false ↦ unit_bytes u ++ encode_utf8 (v ∷ s)
]

-- The decoder's state: the continuation bytes still needed, the range of the next one, and the
-- code point so far.
pub record Utf8State : Type 0 where
  pub needed : ℕ
  pub lower : ℕ
  pub upper : ℕ
  pub point : ℕ

abbrev pub utf8_start : Utf8State
utf8_start = record { needed = 0; lower = 0x80; upper = 0xbf; point = 0 }

abbrev awaits : ℕ → ℕ → ℕ → ℕ → Utf8State
awaits needed lower upper point = record {
  needed = needed;
  lower = lower;
  upper = upper;
  point = point;
}

-- The code units of a code point.
unfoldable pub point_units : ℕ → Text
point_units c =
    if leb c 0xffff
    then c ∷ []
    else (0xd800 + (c - 0x10000) / 1024) ∷ (0xdc00 + (c - 0x10000) % 1024) ∷ []

-- A byte where no continuation is due.
unfoldable pub utf8_lead : ℕ → Text × Utf8State
utf8_lead b =
    if leb b 0x7f
    then (b ∷ [], utf8_start)
    else if ltb b 0xc2
    then (replacement ∷ [], utf8_start)
    else if leb b 0xdf
    then ([], awaits 1 0x80 0xbf (b % 32))
    else if leb b 0xef
    then (
      [],
      awaits 2 (if b == 0xe0 then 0xa0 else 0x80) (if b == 0xed then 0x9f else 0xbf) (b % 16),
    )
    else if leb b 0xf4
    then (
      [],
      awaits 3 (if b == 0xf0 then 0x90 else 0x80) (if b == 0xf4 then 0x8f else 0xbf) (b % 8),
    )
    else (replacement ∷ [], utf8_start)

-- A continuation byte in its range.
unfoldable pub utf8_more : Utf8State → ℕ → Text × Utf8State
unfolding point_units
utf8_more st b =
    let point = st.point * 64 + b % 64 in
    if st.needed == 1
    then (point_units point, utf8_start)
    else ([], awaits (st.needed - 1) 0x80 0xbf point)

-- Any byte: one out of range ends the sequence with U+FFFD and is read again as a lead.
unfoldable pub utf8_byte : Utf8State → ℕ → Text × Utf8State
unfolding utf8_lead utf8_more
utf8_byte st b =
    if st.needed == 0
    then utf8_lead b
    else if leb st.lower b && leb b st.upper
    then utf8_more st b
    else (let (out, st') = utf8_lead b in (replacement ∷ out, st'))

unfoldable pub utf8_loop : Utf8State → List ℕ → Text
unfolding utf8_byte
utf8_loop st [] = if st.needed == 0 then [] else replacement ∷ []
utf8_loop st (b ∷ bytes) = let (out, st') = utf8_byte st b in out ++ utf8_loop st' bytes

-- `ignoreBOM` is off: a byte order mark at the front is taken off.
unfoldable pub skip_mark : List ℕ → List ℕ
skip_mark (a ∷ b ∷ c ∷ bytes) =
    if a == 0xef && (b == 0xbb && c == 0xbf) then bytes else a ∷ b ∷ c ∷ bytes
skip_mark bytes = bytes

unfoldable pub decode_utf8 : List ℕ → Text
unfolding utf8_loop skip_mark
decode_utf8 bytes = utf8_loop utf8_start (skip_mark bytes)
