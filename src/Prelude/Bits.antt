-- ===== src/Prelude/Bits.antt =====
-- Masks on a byte as arithmetic: each law is a table of at most 256 entries, run by evaluation.
use Prim.Native.Nat.{ℕ, zero, suc, ◌+◌, ◌*◌, ◌/◌, ◌%◌, ◌<◌, bit_and, bit_or}
use grpc_bridge.Prelude.Tests.{◌==◌, ==_iff}
use mathlib.Core.Path.{◌≡◌, refl}
use mathlib.Core.Bool.{Bool, true, false, ◌&&◌}
use mathlib.Core.Logic.{◌⊎◌, inl, inr}
use native.Mathlib.Omega.{arith}

below_or_top : (x top : ℕ) → x < suc top → (x < top) ⊎ (x ≡ top)
below_or_top x top h = ground arith

&&_iff : (a b : Bool) → (a && b) ≡ true → (a ≡ true) × (b ≡ true)
&&_iff true b e = (refl, e)
&&_iff false b e = absurd (ground arith)

-- Two functions that agree on a table.
unfoldable pub agree : (ℕ → ℕ) → (ℕ → ℕ) → ℕ → Bool
agree f g zero = true
agree f g (suc top) = agree f g top && f top == g top

pub agree_sound : (f g : ℕ → ℕ) (n : ℕ) → agree f g n ≡ true → (x : ℕ) → x < n → f x ≡ g x
unfolding agree
agree_sound f g zero e x h = absurd (omega arith)
agree_sound f g (suc top) e x h =
    let (same_below, same) = &&_iff (agree f g top) (f top == g top) e in
    elim (below_or_top x top h) [
      | inl below ↦ agree_sound f g top same_below x below
      | inr last ↦ rw last ((==_iff (f top) (g top)).0 same)
    ]

pub low_seven : (b : ℕ) → b < 256 → bit_and b 0x7f ≡ b % 128
unfolding agree
low_seven = agree_sound _ _ 256 refl

pub low_four : (b : ℕ) → b < 256 → bit_and b 0x0f ≡ b % 16
unfolding agree
low_four = agree_sound _ _ 256 refl

pub top_bit : (b : ℕ) → b < 256 → bit_and b 0x80 ≡ b / 128 * 128
unfolding agree
top_bit = agree_sound _ _ 256 refl

pub set_top_bit : (b : ℕ) → b < 128 → bit_or 0x80 b ≡ 128 + b
unfolding agree
set_top_bit = agree_sound _ _ 128 refl

pub set_no_bit : (b : ℕ) → b < 128 → bit_or 0 b ≡ b
unfolding agree
set_no_bit = agree_sound _ _ 128 refl

pub set_bit_four : (b : ℕ) → b < 16 → bit_or 0x10 b ≡ 16 + b
unfolding agree
set_bit_four = agree_sound _ _ 16 refl
