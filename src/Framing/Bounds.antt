-- ===== src/Framing/Bounds.antt =====
-- The size of what unframe yields and keeps, on any input.
use grpc_bridge.Prelude.{
  ℕ, ◌≤◌, ◌≡◌, inl, inr, List, [], ◌∷◌, ◌++◌, length, All, ◌==◌, All-append, append-nil, Bool-cases,
  arith,
}
use grpc_bridge.Bytes.{concat_bytes}
use grpc_bridge.Framing.{
  max_message, Unframer, unframer, read_header, Generator, ◌>>=◌, lift, complete, finish, unframe,
}
use grpc_bridge.Framing.Bytewise.{feed_byte, feed_bytes, unframe_from-bytes}
use grpc_bridge.Errors.{ok, err, Result-cases}

abbrev pub IsMessage : List ℕ → Type 0
IsMessage m = length m ≤ max_message

-- All that is yielded is short, and where it ends well the buffer is, too.
abbrev Bounded : Generator Unframer → Type 0
Bounded (out, ok u) = All IsMessage out × (u.size ≤ max_message)
Bounded (out, err e) = All IsMessage out

read_header_small : (bytes : List ℕ) (size : ℕ) → read_header bytes ≡ ok size → size ≤ max_message
unfolding read_header
read_header_small (flag ∷ a ∷ b ∷ c ∷ d ∷ rest) size e = ground arith
read_header_small _ size e = cc

complete-Bounded : (u : Unframer) → length u.current ≤ max_message → Bounded (complete u)
unfolding complete
complete-Bounded u h = elim (Bool-cases u.reading_header) [
  | inl p ↦ elim (Result-cases (read_header u.current)) [
    | inl (size, e) ↦ elim (Bool-cases (size == 0)) [
      | inl z ↦ rw (p, e, z) ((omega arith, tt), omega arith)
      | inr z ↦ rw (p, e, z) (tt, read_header_small u.current size e)
    ]
    | inr (x, e) ↦ rw (p, e) tt
  ]
  | inr p ↦ rw p ((h, tt), omega arith)
]

>>=-Bounded :
    (m : Generator Unframer) (f : Unframer → Generator Unframer)
    → Bounded m
    → ((u : Unframer) → u.size ≤ max_message → Bounded (f u))
    → Bounded (m >>= f)
>>=-Bounded (out, err e) f b k = b
>>=-Bounded (out, ok u) f (all, small) k = go (f u) (k u small)
  where
    go : (r : Generator Unframer) → Bounded r → Bounded (out ++ r.0, r.1)
    go (more, ok v) (all', small') = (All-append IsMessage out more all all', small')
    go (more, err e) all' = All-append IsMessage out more all all'

feed_byte-Bounded : (u : Unframer) (b : ℕ) → u.size ≤ max_message → Bounded (feed_byte u b)
unfolding feed_byte
feed_byte-Bounded u b h = elim (Bool-cases (length (u.current ++ b ∷ []) == u.size)) [
  | inl e ↦ rw e (complete-Bounded (record u { current = u.current ++ b ∷ [] }) (ground arith))
  | inr e ↦ rw e (tt, h)
]

feed_bytes-Bounded : (u : Unframer) (bs : List ℕ) → u.size ≤ max_message → Bounded (feed_bytes u bs)
unfolding feed_bytes
feed_bytes-Bounded u [] h = (tt, h)
feed_bytes-Bounded u (b ∷ bs) h =
    >>=-Bounded (feed_byte u b) (λ u'. feed_bytes u' bs) (feed_byte-Bounded u b h)
      (λ u' h'. feed_bytes-Bounded u' bs h')

lift-Bounded : (m : Generator Unframer) → Bounded m → All IsMessage (m >>= λ u. lift (finish u)).0
lift-Bounded (out, ok u) (all, small) = rw append-nil all
lift-Bounded (out, err e) all = all

-- Whatever the bytes of the body are, no message longer than 1 MiB is yielded.
pub unframe-short : (chunks : List (List ℕ)) → All IsMessage (unframe chunks).0
unfolding unframe
unframe-short chunks = rw (unframe_from-bytes unframer chunks (omega arith)) (
    lift-Bounded (feed_bytes unframer (concat_bytes chunks))
      (feed_bytes-Bounded unframer (concat_bytes chunks) (omega arith)))
