-- ===== src/Text/WellFormed.antt =====
-- Texts without lone surrogates, and the bytes that `encodeUtf8` makes of them.
use grpc_bridge.Prelude.{
  ℕ, ◌≤◌, ◌<◌, ◌≡◌, sym, Bool, true, false, ◌&&◌, ◌||◌, [], ◌∷◌, ◌++◌, leb, append-nil, All,
  All-append, if_case, arith,
}
use grpc_bridge.Text.{Text, is_high, is_low, unit_bytes, pair_point, point_bytes, encode_utf8}

-- No lone surrogates.
pub data IsWellFormed : Text → Type 0 where
  ended : IsWellFormed []
  unit :
      {u : ℕ} {s : Text}
      → u < 65536
      → (is_high u || is_low u) ≡ false
      → IsWellFormed s
      → IsWellFormed (u ∷ s)
  pair :
      {u v : ℕ} {s : Text}
      → is_high u ≡ true
      → is_low v ≡ true
      → IsWellFormed s
      → IsWellFormed (u ∷ v ∷ s)

-- The bytes of the first character, and of the rest.
pub encode_utf8_unit :
    (u : ℕ) (s : Text) → is_high u ≡ false → encode_utf8 (u ∷ s) ≡ unit_bytes u ++ encode_utf8 s
unfolding encode_utf8
encode_utf8_unit u [] e = sym (append-nil (unit_bytes u))
encode_utf8_unit u (v ∷ s) e =
    let single : (is_high u && is_low v) ≡ false = ground arith in rw (single, encode_utf8)

pub encode_utf8_pair :
    (u v : ℕ) (s : Text)
    → is_high u ≡ true
    → is_low v ≡ true
    → encode_utf8 (u ∷ v ∷ s) ≡ point_bytes (pair_point u v) ++ encode_utf8 s
unfolding encode_utf8
encode_utf8_pair u v s hu hv =
    let both : (is_high u && is_low v) ≡ true = ground arith in rw (both, encode_utf8)

abbrev IsByte : ℕ → Type 0
IsByte b = b < 256

unit_bytes-IsByte : (u : ℕ) → u < 65536 → All IsByte (unit_bytes u)
unfolding unit_bytes
unit_bytes-IsByte u h =
    if_case (All IsByte) (leb u 0x7f) _ _ (λ e. (ground arith, tt))
      (λ e.
        if_case (All IsByte) (leb u 0x7ff) _ _ (λ e'. (ground arith, (omega arith, tt)))
          (λ e'.
            if_case (All IsByte) (is_high u || is_low u) _ _
              (λ lone. (omega arith, (omega arith, (omega arith, tt))))
              (λ single. (omega arith, (omega arith, (omega arith, tt))))))

point_bytes-IsByte :
    (u v : ℕ) → is_high u ≡ true → is_low v ≡ true → All IsByte (point_bytes (pair_point u v))
unfolding point_bytes
point_bytes-IsByte u v hu hv =
    let uh : u ≤ 0xdbff = ground arith in
    let vh : v ≤ 0xdfff = ground arith in
    (omega arith, (omega arith, (omega arith, (omega arith, tt))))

pub encode_utf8-IsByte : {s : Text} → IsWellFormed s → All (λ (b : ℕ). b < 256) (encode_utf8 s)
encode_utf8-IsByte ended = unfold encode_utf8 in tt
encode_utf8-IsByte (unit {u} {s} h single rest) = rw (encode_utf8_unit u s (ground arith)) (
    All-append IsByte (unit_bytes u) (encode_utf8 s) (unit_bytes-IsByte u h)
      (encode_utf8-IsByte rest))
encode_utf8-IsByte (pair {u} {v} {s} hu hv rest) = rw (encode_utf8_pair u v s hu hv) (
    All-append IsByte (point_bytes (pair_point u v)) (encode_utf8 s) (point_bytes-IsByte u v hu hv)
      (encode_utf8-IsByte rest))

-- ASCII texts are well formed.
abbrev pub is_ascii : Text → Bool
is_ascii [] = true
is_ascii (u ∷ s) = leb u 0x7f && is_ascii s

pub ascii-IsWellFormed : (s : Text) → is_ascii s ≡ true → IsWellFormed s
ascii-IsWellFormed [] e = ended
ascii-IsWellFormed (u ∷ s) e =
    unit (ground arith) (ground arith) (ascii-IsWellFormed s (ground arith))
