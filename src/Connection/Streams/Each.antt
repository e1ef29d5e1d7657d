-- ===== src/Connection/Streams/Each.antt =====
-- What holds of each stream of the map, and what is found in it.
use grpc_bridge.Prelude.{
  ℕ, ◌≡◌, refl, Bool, true, false, Option, none, some, [], ◌∷◌, ◌==◌, if◌then◌else◌, arith,
}
use mathlib.Core.Path.{subst}
use mathlib.Core.Option.{some-injective}
use grpc_bridge.Stream.State.{H2Stream}
use grpc_bridge.Connection.Streams.{Streams, find_stream, set_stream, delete_stream}

abbrev pub Each {ℓ} : (H2Stream → Type ℓ) → Streams → Type ℓ
Each P [] = Unit {ℓ}
Each P ((id, s) ∷ m) = P s × Each P m

module _ {ℓ} (P : H2Stream → Type ℓ) where
  picked :
      (b : Bool) (old s : H2Stream) (behind : Option H2Stream)
      → P old
      → (behind ≡ some s → P s)
      → (if b then some old else behind) ≡ some s
      → P s
  picked true old s behind p rest e = subst P (some-injective _ _ e) p
  picked false old s behind p rest e = rest e

  pub Each-find : (id : ℕ) (s : H2Stream) (m : Streams) → Each P m → find_stream id m ≡ some s → P s
  unfolding find_stream
  Each-find id s [] h e = absurd (ground arith)
  Each-find id s ((k, old) ∷ m) h e =
      picked (id == k) old s (find_stream id m) h.0 (Each-find id s m h.1) e

  pub Each-set : (id : ℕ) (s : H2Stream) (m : Streams) → Each P m → P s → Each P (set_stream id s m)
  unfolding set_stream
  Each-set id s [] h p = (p, tt)
  Each-set id s ((k, old) ∷ m) h p = ground (arith, Each-set id s m h.1 p)

  pub Each-delete : (id : ℕ) (m : Streams) → Each P m → Each P (delete_stream id m)
  unfolding delete_stream
  Each-delete id [] h = tt
  Each-delete id ((k, old) ∷ m) h = ground (arith, Each-delete id m h.1)

pub find_stream-set_stream :
    (id : ℕ) (s : H2Stream) (m : Streams) → find_stream id (set_stream id s m) ≡ some s
unfolding find_stream set_stream
find_stream-set_stream id s [] = ground arith
find_stream-set_stream id s ((k, old) ∷ m) = grind (arith, find_stream-set_stream id s m)

pub delete_stream_missing :
    (id : ℕ) (m : Streams) → find_stream id m ≡ none → delete_stream id m ≡ m
unfolding find_stream delete_stream
delete_stream_missing id [] e = refl
delete_stream_missing id ((k, old) ∷ m) e = grind (arith, delete_stream_missing id m)

pub delete_stream-set_stream :
    (id : ℕ) (s : H2Stream) (m : Streams)
    → delete_stream id (set_stream id s m) ≡ delete_stream id m
unfolding set_stream delete_stream
delete_stream-set_stream id s [] = ground arith
delete_stream-set_stream id s ((k, old) ∷ m) = grind (arith, delete_stream-set_stream id s m)
