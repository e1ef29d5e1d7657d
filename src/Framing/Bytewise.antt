-- ===== src/Framing/Bytewise.antt =====
-- The loop of unframe, which copies runs of bytes, against a machine that takes one byte at a time.
use grpc_bridge.Prelude.{
  ℕ, zero, suc, ◌+◌, ◌-◌, ◌≤◌, ◌<◌, min, ◌≡◌, refl, sym, ap, ◌∙◌, inl, inr, false, List, [], ◌∷◌,
  ◌++◌, length, take, drop, ltb, ◌==◌, if◌then◌else◌, length-append, append_assoc, append-nil,
  Bool-cases, arith,
}
use grpc_bridge.Framing.{
  Unframer, unframer, read_header, Generator, ◌>>=◌, return, lift, complete, feed_round, feed_loop,
  feed, finish, unframe_from, unframe,
}
use grpc_bridge.Errors.{Result, ok, err}
use grpc_bridge.Bytes.{concat_bytes}

pub >>=-assoc :
    {A B C : Type 0} (m : Generator A) (f : A → Generator B) (g : B → Generator C)
    → (m >>= f) >>= g ≡ m >>= (λ a. f a >>= g)
>>=-assoc (out, err e) f g = refl
>>=-assoc {B} {C} (out, ok a) f g = go (f a)
  where
    go : (r : Generator B) → ((out ++ r.0, r.1) >>= g) ≡ (out ++ (r >>= g).0, (r >>= g).1)
    go (o, ok b) =
        ap (λ (x : List (List ℕ)). let y : Generator C = (x, (g b).1) in y)
          (append_assoc out o (g b).0)
    go (o, err e) = refl

-- The reference: one byte goes to the end of `current`, and a full `current` is completed.
unfoldable pub feed_byte : Unframer → ℕ → Generator Unframer
feed_byte u b =
    let u1 : Unframer = record u { current = u.current ++ b ∷ [] } in
    if length u1.current == u1.size then complete u1 else return u1

unfoldable pub feed_bytes : Unframer → List ℕ → Generator Unframer
feed_bytes u [] = return u
feed_bytes u (b ∷ bs) = do u' ← feed_byte u b; feed_bytes u' bs

-- `current` is not full, which holds between rounds.
abbrev pub IsUnframer : Unframer → Type 0
IsUnframer u = length u.current < u.size

complete_next :
    (u : Unframer) (size : Result ℕ)
    → read_header u.current ≡ size
    → (out : List (List ℕ)) (u' : Unframer) → complete u ≡ (out, ok u')
    → IsUnframer u'
unfolding complete
complete_next u (ok size) e out u' h = ground arith
complete_next u (err x) e out u' h = ground arith

feed_byte-IsUnframer :
    (u : Unframer) (b : ℕ) (out : List (List ℕ)) (u' : Unframer)
    → IsUnframer u
    → feed_byte u b ≡ (out, ok u')
    → IsUnframer u'
unfolding feed_byte
feed_byte-IsUnframer u b out u' v h =
    let u1 : Unframer = record u { current = u.current ++ b ∷ [] } in
    ground (
      arith,
      complete_next u1 (read_header u1.current) refl out u',
      length-append u.current (b ∷ []),
    )

-- A round that copies `n` bytes.
copy_round : Unframer → List ℕ → ℕ → Generator (Unframer × List ℕ)
copy_round u value n =
    let u' : Unframer = record u { current = u.current ++ take n value } in
    if length u'.current == u'.size
    then (do u'' ← complete u'; return (u'', drop n value))
    else return (u', drop n value)

feed_round-copy :
    (u : Unframer) (value : List ℕ)
    → feed_round u value ≡ copy_round u value (min (u.size - length u.current) (length value))
unfolding feed_round copy_round
feed_round-copy u value = refl

-- The first byte of a longer run can go first.
copy_round-suc :
    (u : Unframer) (b : ℕ) (value : List ℕ) (n : ℕ)
    → copy_round u (b ∷ value) (suc n)
      ≡ copy_round (record u { current = u.current ++ b ∷ [] }) value n
unfolding copy_round
copy_round-suc u b value n = rw (append_assoc u.current (b ∷ []) (take n value))

copy_round-one :
    (u : Unframer) (b : ℕ) (value : List ℕ)
    → copy_round u (b ∷ value) 1 ≡ (feed_byte u b >>= λ u'. return (u', value))
unfolding copy_round feed_byte
copy_round-one u b value = elim (Bool-cases (length (u.current ++ b ∷ []) == u.size)) [
  | inl e ↦ rw e
  | inr e ↦ rw e
]

pub >>=-cong :
    {A B : Type 0} (m : Generator A) (f g : A → Generator B)
    → ((out : List (List ℕ)) (a : A) → m ≡ (out, ok a) → f a ≡ g a)
    → m >>= f ≡ m >>= g
>>=-cong {B} (out, ok a) f g h =
    ap (λ (r : Generator B). let y : Generator B = (out ++ r.0, r.1) in y) (h out a refl)
>>=-cong (out, err e) f g h = refl

-- A byte that does not fill `current` can go with the run behind it.
feed_round-later :
    (u : Unframer) (b c : ℕ) (value : List ℕ)
    → length u.current + 1 < u.size
    → feed_round u (b ∷ c ∷ value)
      ≡ feed_round (record u { current = u.current ++ b ∷ [] }) (c ∷ value)
feed_round-later u b c value h =
    let u1 : Unframer = record u { current = u.current ++ b ∷ [] } in
    let n = min (u1.size - length u1.current) (length (c ∷ value)) in
    let e : min (u.size - length u.current) (length (b ∷ c ∷ value)) ≡ suc n =
      omega (arith, length-append u.current (b ∷ [])) in
    feed_round-copy u (b ∷ c ∷ value)
    ∙ ap (copy_round u (b ∷ c ∷ value)) e
    ∙ copy_round-suc u b (c ∷ value) n
    ∙ sym (feed_round-copy u1 (c ∷ value))

feed_byte_short :
    (u : Unframer) (b : ℕ)
    → length u.current + 1 < u.size
    → feed_byte u b ≡ return (record u { current = u.current ++ b ∷ [] })
unfolding feed_byte
feed_byte_short u b h =
    let e : (length (u.current ++ b ∷ []) == u.size) ≡ false =
      ground (arith, length-append u.current (b ∷ [])) in
    rw e

feed_loop_one :
    (fuel : ℕ) (u : Unframer) (b : ℕ) (value : List ℕ)
    → min (u.size - length u.current) (length (b ∷ value)) ≡ 1
    → (feed_round u (b ∷ value) >>= λ (u', rest). feed_loop fuel u' rest)
      ≡ (feed_byte u b >>= λ u'. feed_loop fuel u' value)
feed_loop_one fuel u b value e =
    ap (λ (m : Generator (Unframer × List ℕ)). m >>= λ (u', rest). feed_loop fuel u' rest)
      (feed_round-copy u (b ∷ value) ∙ ap (copy_round u (b ∷ value)) e ∙ copy_round-one u b value)
    ∙ >>=-assoc (feed_byte u b) (λ u'. return (u', value)) (λ (u', rest). feed_loop fuel u' rest)

-- On fuel for every byte the loop does what the bytewise machine does.
feed_loop-bytes :
    (fuel : ℕ) (u : Unframer) (value : List ℕ)
    → IsUnframer u
    → length value ≤ fuel
    → feed_loop fuel u value ≡ feed_bytes u value
unfolding feed_loop feed_bytes
feed_loop-bytes zero u [] v h = refl
feed_loop-bytes (suc fuel) u [] v h = refl
feed_loop-bytes zero u (b ∷ value) v h = absurd (omega arith)
feed_loop-bytes (suc fuel) u (b ∷ []) v h =
    feed_loop_one fuel u b [] (omega arith)
    ∙ >>=-cong (feed_byte u b) _ _
        (λ out u' e. feed_loop-bytes fuel u' [] (feed_byte-IsUnframer u b out u' v e) (omega arith))
feed_loop-bytes (suc fuel) u (b ∷ c ∷ value) v h =
    elim (Bool-cases (ltb (length u.current + 1) u.size)) [
      | inl short ↦
          let u1 : Unframer = record u { current = u.current ++ b ∷ [] } in
          let more : length u.current + 1 < u.size = ground arith in
          ap (λ (m : Generator (Unframer × List ℕ)). m >>= λ (u', rest). feed_loop fuel u' rest)
            (feed_round-later u b c value more)
          ∙ feed_loop-bytes (suc fuel) u1 (c ∷ value)
              (omega (arith, length-append u.current (b ∷ []))) (omega arith)
          ∙ rw (feed_byte_short u b more)
      | inr full ↦
          feed_loop_one fuel u b (c ∷ value) (ground arith)
          ∙ >>=-cong (feed_byte u b) _ _ (λ out u' e.
            feed_loop-bytes fuel u' (c ∷ value) (feed_byte-IsUnframer u b out u' v e) (omega arith))
    ]

pub feed-bytes : (u : Unframer) (value : List ℕ) → IsUnframer u → feed u value ≡ feed_bytes u value
unfolding feed
feed-bytes u value v = feed_loop-bytes (length value) u value v (omega arith)

pub feed_bytes-append :
    (u : Unframer) (x y : List ℕ)
    → feed_bytes u (x ++ y) ≡ (feed_bytes u x >>= λ u'. feed_bytes u' y)
unfolding feed_bytes
feed_bytes-append u [] y = refl
feed_bytes-append u (b ∷ x) y =
    >>=-cong (feed_byte u b) _ _ (λ out u' e. feed_bytes-append u' x y)
    ∙ sym (>>=-assoc (feed_byte u b) (λ u'. feed_bytes u' x) (λ u'. feed_bytes u' y))

pub >>=-return : {A : Type 0} (m : Generator A) → (m >>= return) ≡ m
>>=-return {A} (out, ok a) =
    ap (λ (x : List (List ℕ)). let y : Generator A = (x, ok a) in y) (append-nil out)
>>=-return (out, err e) = refl

-- Where a sequence ends well, both parts do.
pub >>=-returns :
    {A B : Type 0} (m : Generator A) (f : A → Generator B) (b : B)
    → (m >>= f).1 ≡ ok b
    → (o : List (List ℕ)) × (a : A) × (m ≡ (o, ok a)) × ((f a).1 ≡ ok b)
>>=-returns (o, ok a) f b e = (o, a, refl, e)
>>=-returns (o, err x) f b e = cc

pub feed_bytes-IsUnframer :
    (u : Unframer) (bs : List ℕ) (u' : Unframer)
    → IsUnframer u
    → (feed_bytes u bs).1 ≡ ok u'
    → IsUnframer u'
unfolding feed_bytes
feed_bytes-IsUnframer u [] u' v e = ground arith
feed_bytes-IsUnframer u (b ∷ bs) u' v e =
    let (o, u1, p, q) = >>=-returns (feed_byte u b) (λ u1. feed_bytes u1 bs) u' e in
    feed_bytes-IsUnframer u1 bs u' (feed_byte-IsUnframer u b o u1 v p) q

-- The bytes of all chunks, one after the other, and the end of the body.
pub unframe_from-bytes :
    (u : Unframer) (values : List (List ℕ))
    → IsUnframer u
    → unframe_from u values ≡ (feed_bytes u (concat_bytes values) >>= λ u'. lift (finish u'))
unfolding unframe_from concat_bytes feed_bytes
unframe_from-bytes u [] v = refl
unframe_from-bytes u (value ∷ values) v =
    ap (λ (m : Generator Unframer). m >>= λ u'. unframe_from u' values) (feed-bytes u value v)
    ∙ >>=-cong (feed_bytes u value) _ _ (λ out u' e.
      unframe_from-bytes u' values
        (feed_bytes-IsUnframer u value u' v (ap (λ (m : Generator Unframer). m.1) e)))
    ∙ sym (
        >>=-assoc (feed_bytes u value) (λ u'. feed_bytes u' (concat_bytes values))
          (λ u'. lift (finish u')))
    ∙ ap (λ (m : Generator Unframer). m >>= λ u'. lift (finish u'))
        (sym (feed_bytes-append u value (concat_bytes values)))

-- Messages and outcome depend on the bytes of the body only, and not on how chunks cut them.
pub unframe_chunks :
    (xs ys : List (List ℕ)) → concat_bytes xs ≡ concat_bytes ys → unframe xs ≡ unframe ys
unfolding unframe
unframe_chunks xs ys e =
    unframe_from-bytes unframer xs (omega arith)
    ∙ ap (λ (bs : List ℕ). feed_bytes unframer bs >>= λ u'. lift (finish u')) e
    ∙ sym (unframe_from-bytes unframer ys (omega arith))
