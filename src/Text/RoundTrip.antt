-- ===== src/Text/RoundTrip.antt =====
-- web/src/h2/bytes.ts: `decodeUtf8` on what `encodeUtf8` wrote.
use grpc_bridge.Prelude.{
  ℕ, ◌+◌, ◌/◌, ◌%◌, ◌<◌, ◌≡◌, ◌≢◌, refl, sym, ap, ◌∙◌, inl, inr, false, ◌&&◌, ◌||◌, List, [], ◌∷◌,
  ◌++◌, leb, ◌==◌, Bool-cases, arith,
}
use grpc_bridge.Text.{
  Text, is_high, is_low, three_bytes, unit_bytes, pair_point, point_bytes, encode_utf8, utf8_start,
  utf8_loop, skip_mark, decode_utf8,
}
use grpc_bridge.Text.WellFormed.{
  IsWellFormed, ended, unit, pair, encode_utf8_unit, encode_utf8_pair,
}
use grpc_bridge.Text.Characters.{unit_bytes-loop, four_bytes}

utf8_loop-encode_utf8 : {s : Text} → IsWellFormed s → utf8_loop utf8_start (encode_utf8 s) ≡ s
unfolding utf8_loop
utf8_loop-encode_utf8 ended = unfold encode_utf8 in refl
utf8_loop-encode_utf8 (unit {u} {s} h single rest) =
    ap (utf8_loop utf8_start) (encode_utf8_unit u s (ground arith))
    ∙ unit_bytes-loop (encode_utf8 s) u h single
    ∙ ap (◌∷◌ u) (utf8_loop-encode_utf8 rest)
utf8_loop-encode_utf8 (pair {u} {v} {s} hu hv rest) =
    ap (utf8_loop utf8_start) (encode_utf8_pair u v s hu hv)
    ∙ four_bytes (encode_utf8 s) u v hu hv
    ∙ ap (λ (x : Text). u ∷ v ∷ x) (utf8_loop-encode_utf8 rest)

-- A text that does not start with a byte order mark, which the decoder would take off.
abbrev pub NoMark : Text → Type 0
NoMark [] = Unit
NoMark (u ∷ s) = u ≢ 0xfeff

skip_mark_other : (a : ℕ) (bytes : List ℕ) → a ≢ 0xef → skip_mark (a ∷ bytes) ≡ a ∷ bytes
unfolding skip_mark
skip_mark_other a [] h = refl
skip_mark_other a (b ∷ []) h = refl
skip_mark_other a (b ∷ c ∷ bytes) h =
    let other : (a == 0xef) ≡ false = ground arith in rw (other, skip_mark)

skip_mark_three :
    (u : ℕ) (bytes : List ℕ)
    → u < 65536
    → u ≢ 0xfeff
    → skip_mark (three_bytes u ++ bytes) ≡ three_bytes u ++ bytes
unfolding skip_mark
skip_mark_three u bytes h k =
    let other : ((224 + u / 4096) == 0xef
          && ((128 + u / 64 % 64) == 0xbb && (128 + u % 64) == 0xbf))
        ≡ false =
      ground arith in
    rw other

skip_mark-unit_bytes :
    (u : ℕ) (bytes : List ℕ)
    → u < 65536
    → (is_high u || is_low u) ≡ false
    → u ≢ 0xfeff
    → skip_mark (unit_bytes u ++ bytes) ≡ unit_bytes u ++ bytes
unfolding unit_bytes
skip_mark-unit_bytes u bytes h single k = elim (Bool-cases (leb u 0x7f)) [
  | inl one ↦ rw one (skip_mark_other u bytes (ground arith))
  | inr more ↦ elim (Bool-cases (leb u 0x7ff)) [
    | inl two ↦
        rw (more, two) (skip_mark_other (192 + u / 64) ((128 + u % 64) ∷ bytes) (ground arith))
    | inr three ↦ rw (more, three, single) (skip_mark_three u bytes h k)
  ]
]

skip_mark_point :
    (p : ℕ) (bytes : List ℕ) → skip_mark (point_bytes p ++ bytes) ≡ point_bytes p ++ bytes
unfolding point_bytes
skip_mark_point p bytes = skip_mark_other (240 + p / 262144) _ (omega arith)

skip_mark-encode_utf8 :
    {s : Text} → IsWellFormed s → NoMark s → skip_mark (encode_utf8 s) ≡ encode_utf8 s
skip_mark-encode_utf8 ended m = unfold encode_utf8 skip_mark in refl
skip_mark-encode_utf8 (unit {u} {s} h single rest) m =
    let e = encode_utf8_unit u s (ground arith) in
    ap skip_mark e ∙ skip_mark-unit_bytes u (encode_utf8 s) h single m ∙ sym e
skip_mark-encode_utf8 (pair {u} {v} {s} hu hv rest) m =
    let e = encode_utf8_pair u v s hu hv in
    ap skip_mark e ∙ skip_mark_point (pair_point u v) (encode_utf8 s) ∙ sym e

-- What is encoded is decoded to the same text, whichever characters it has: for a text without lone
-- surrogates that does not start with a byte order mark.
pub decode_utf8-encode_utf8 :
    {s : Text} → IsWellFormed s → NoMark s → decode_utf8 (encode_utf8 s) ≡ s
unfolding decode_utf8
decode_utf8-encode_utf8 w m =
    ap (utf8_loop utf8_start) (skip_mark-encode_utf8 w m) ∙ utf8_loop-encode_utf8 w
