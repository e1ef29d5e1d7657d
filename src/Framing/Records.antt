-- ===== src/Framing/Records.antt =====
-- The records that frame writes, as unframe reads them back.
use grpc_bridge.Prelude.{
  ℕ, ◌+◌, ◌*◌, ◌/◌, ◌%◌, ◌≤◌, ◌<◌, ◌≡◌, refl, sym, ap, ◌∙◌, true, false, not, ◌||◌, List, [], ◌∷◌,
  ◌++◌, length, take, drop, ltb, ◌==◌, if◌then◌else◌, length-append, append_assoc, append-nil,
  arith,
}
use grpc_bridge.Bytes.{concat_bytes}
use grpc_bridge.Framing.{
  max_message, data_loss, u32_be, frame, Unframer, unframer, read_header, Generator, ◌>>=◌, ◌>>◌,
  return, lift, yield, complete, finish, unframe,
}
use grpc_bridge.Framing.Bytewise.{
  feed_byte, feed_bytes, feed_bytes-append, unframe_from-bytes, >>=-assoc, >>=-return,
}
use grpc_bridge.Errors
use grpc_bridge.Errors.{Result, ok, err, Error, connect_failure}

-- The record of a message that is not too long.
abbrev pub record_bytes : List ℕ → List ℕ
record_bytes m = 0 ∷ (u32_be (length m) ++ m)

-- Bytes that do not fill `current` are kept.
feed_bytes_short :
    (u : Unframer) (xs : List ℕ)
    → length u.current + length xs < u.size
    → feed_bytes u xs ≡ return (record u { current = u.current ++ xs })
unfolding feed_bytes feed_byte
feed_bytes_short u [] h = rw append-nil
feed_bytes_short u (x ∷ xs) h =
    let u1 : Unframer = record u { current = u.current ++ x ∷ [] } in
    let e : (length (u.current ++ x ∷ []) == u.size) ≡ false =
      ground (arith, length-append u.current (x ∷ [])) in
    rw e (
      feed_bytes_short u1 xs (omega (arith, length-append u.current (x ∷ [])))
      ∙ rw (append_assoc u.current (x ∷ []) xs))

-- Bytes that fill `current` complete it.
feed_bytes_full :
    (u : Unframer) (x : ℕ) (xs : List ℕ)
    → length u.current + length (x ∷ xs) ≡ u.size
    → feed_bytes u (x ∷ xs) ≡ complete (record u { current = u.current ++ x ∷ xs })
unfolding feed_bytes feed_byte
feed_bytes_full u x [] h =
    let e : (length (u.current ++ x ∷ []) == u.size) ≡ true =
      ground (arith, length-append u.current (x ∷ [])) in
    rw e (>>=-return (complete (record u { current = u.current ++ x ∷ [] })))
feed_bytes_full u x (y ∷ xs) h =
    let u1 : Unframer = record u { current = u.current ++ x ∷ [] } in
    let e : (length (u.current ++ x ∷ []) == u.size) ≡ false =
      ground (arith, length-append u.current (x ∷ [])) in
    rw e (
      feed_bytes_full u1 y xs (omega (arith, length-append u.current (x ∷ [])))
      ∙ rw (append_assoc u.current (x ∷ []) (y ∷ xs)))

abbrev header : ℕ → List ℕ
header n = 0 ∷ u32_be n

body_of : ℕ → Unframer
body_of n = record { current = []; size = n; reading_header = false }

feed_bytes-header :
    (n : ℕ)
    → n ≤ max_message
    → feed_bytes unframer (header n)
      ≡ (if n == 0 then (do yield []; return unframer) else return (body_of n))
unfolding body_of
feed_bytes-header n h =
    let whole : n / 16777216 % 256 * 16777216
          + n / 65536 % 256 * 65536
          + n / 256 % 256 * 256
          + n % 256
        ≡ n =
      omega arith in
    let small : ltb max_message n ≡ false = ground arith in
    feed_bytes_full unframer 0 (u32_be n) refl ∙ (unfold complete read_header in rw (whole, small))

feed_bytes-header_pos :
    (n : ℕ) → n ≤ max_message → 0 < n → feed_bytes unframer (header n) ≡ return (body_of n)
feed_bytes-header_pos n h p =
    let e : (n == 0) ≡ false = ground arith in feed_bytes-header n h ∙ rw e

feed_bytes-body :
    (x : ℕ) (xs : List ℕ)
    → feed_bytes (body_of (length (x ∷ xs))) (x ∷ xs) ≡ (do yield (x ∷ xs); return unframer)
unfolding body_of
feed_bytes-body x xs = feed_bytes_full _ x xs (omega arith) ∙ (unfold complete in refl)

feed_bytes-one :
    (m : List ℕ)
    → length m ≤ max_message
    → feed_bytes unframer (record_bytes m) ≡ (do yield m; return unframer)
feed_bytes-one [] h = feed_bytes-header 0 h
feed_bytes-one (x ∷ xs) h =
    feed_bytes-append unframer (header (length (x ∷ xs))) (x ∷ xs)
    ∙ rw (feed_bytes-header_pos (length (x ∷ xs)) h (omega arith)) (feed_bytes-body x xs)

feed_bytes-record :
    (m rest : List ℕ)
    → length m ≤ max_message
    → feed_bytes unframer (record_bytes m ++ rest) ≡ (yield m >> feed_bytes unframer rest)
feed_bytes-record m rest h =
    feed_bytes-append unframer (record_bytes m) rest ∙ rw (feed_bytes-one m h)

-- The records of a sequence of messages, as `frame` writes one after the other.
unfoldable pub frames : List (List ℕ) → Result (List ℕ)
frames [] = ok []
frames (m ∷ ms) =
    Errors.◌>>=◌ (frame m) λ bytes. Errors.◌>>=◌ (frames ms) λ rest. ok (bytes ++ rest)

frame_ok :
    (m bytes : List ℕ) → frame m ≡ ok bytes → (length m ≤ max_message) × (bytes ≡ record_bytes m)
unfolding frame
frame_ok m bytes e = ground arith

frames_split :
    (r s : Result (List ℕ)) (bytes : List ℕ)
    → Errors.◌>>=◌ r (λ x. Errors.◌>>=◌ s λ y. ok (x ++ y)) ≡ ok bytes
    → (x y : List ℕ) × (r ≡ ok x) × (s ≡ ok y) × (bytes ≡ x ++ y)
frames_split (ok x) (ok y) bytes e = (x, y, refl, refl, ground arith)
frames_split (ok x) (err f) bytes e = cc
frames_split (err f) s bytes e = cc

-- A body, to its end.
abbrev outcome : List ℕ → Generator (Unit {0})
outcome bytes = feed_bytes unframer bytes >>= λ u. lift (finish u)

outcome-frames :
    (ms : List (List ℕ)) (bytes rest : List ℕ)
    → frames ms ≡ ok bytes
    → outcome (bytes ++ rest) ≡ (ms ++ (outcome rest).0, (outcome rest).1)
unfolding frames
outcome-frames [] bytes rest e = let empty : bytes ≡ [] = ground arith in rw empty
outcome-frames (m ∷ ms) bytes rest e =
    let (x, y, ex, ey, both) = frames_split (frame m) (frames ms) bytes e in
    let (short, ex') = frame_ok m x ex in
    let same : bytes ++ rest ≡ record_bytes m ++ (y ++ rest) =
      rw (both, ex') (append_assoc (record_bytes m) y rest) in
    ap outcome same
    ∙ ap (λ (g : Generator Unframer). g >>= λ u. lift (finish u))
        (feed_bytes-record m (y ++ rest) short)
    ∙ >>=-assoc (yield m) (λ _. feed_bytes unframer (y ++ rest)) (λ u. lift (finish u))
    ∙ ap (λ (g : Generator (Unit {0})). let r : Generator (Unit {0}) = (m ∷ g.0, g.1) in r)
        (outcome-frames ms y rest ey)

unframe-outcome : (chunks : List (List ℕ)) → unframe chunks ≡ outcome (concat_bytes chunks)
unfolding unframe
unframe-outcome chunks = unframe_from-bytes unframer chunks (omega arith)

-- `unframe` yields exactly the messages that `frame` accepted, in order, and ends well, however the
-- bytes are cut into chunks.
pub unframe-frames :
    (ms : List (List ℕ)) (chunks : List (List ℕ))
    → frames ms ≡ ok (concat_bytes chunks)
    → unframe chunks ≡ (ms, ok tt)
unframe-frames ms chunks e =
    unframe-outcome chunks
    ∙ ap outcome (sym (append-nil (concat_bytes chunks)))
    ∙ outcome-frames ms (concat_bytes chunks) [] e
    ∙ (unfold finish feed_bytes in
        ap (λ (x : List (List ℕ)). let r : Generator (Unit {0}) = (x, ok tt) in r) (append-nil ms))

-- A record cut inside its header, and one cut inside its body.
outcome_header :
    (x : ℕ) (xs : List ℕ)
    → length (x ∷ xs) < 5
    → outcome (x ∷ xs) ≡ lift (err (connect_failure data_loss))
unfolding finish
outcome_header x xs h =
    let e : (length (x ∷ xs) == 0) ≡ false = ground arith in
    rw (feed_bytes_short unframer (x ∷ xs) (omega arith), e)

outcome_body :
    (n : ℕ) (xs : List ℕ)
    → n ≤ max_message
    → length xs < n
    → outcome (header n ++ xs) ≡ lift (err (connect_failure data_loss))
unfolding body_of finish
outcome_body n xs h short =
    let fits : 0 + length xs < n = omega arith in
    let unread : (not (length xs == 0) || true) ≡ true = ground arith in
    rw (
      feed_bytes-append unframer (header n) xs,
      feed_bytes-header_pos n h (omega arith),
      feed_bytes_short (body_of n) xs fits,
      unread,
    )

outcome_cut :
    (m front back : List ℕ)
    → length m ≤ max_message
    → front ++ back ≡ record_bytes m
    → 0 < length front
    → 0 < length back
    → outcome front ≡ lift (err (connect_failure data_loss))
outcome_cut m [] back h e p q = absurd (omega arith)
outcome_cut m (a ∷ []) back h e p q = outcome_header a [] (omega arith)
outcome_cut m (a ∷ b ∷ []) back h e p q = outcome_header a (b ∷ []) (omega arith)
outcome_cut m (a ∷ b ∷ c ∷ []) back h e p q = outcome_header a (b ∷ c ∷ []) (omega arith)
outcome_cut m (a ∷ b ∷ c ∷ d ∷ []) back h e p q = outcome_header a (b ∷ c ∷ d ∷ []) (omega arith)
outcome_cut m (a ∷ b ∷ c ∷ d ∷ x ∷ xs) back h e p q =
    let head : a ∷ b ∷ c ∷ d ∷ x ∷ [] ≡ header (length m) = ap (take 5) e in
    let tail : xs ++ back ≡ m = ap (drop 5) e in
    ap (λ (y : List ℕ). outcome (y ++ xs)) head
    ∙ outcome_body (length m) xs h (omega (arith, ap length tail, length-append xs back))

-- A body that ends inside a record, with some but not all bytes of it there, yields the messages
-- before it and fails with DataLoss, however it is cut into chunks.
pub unframe_truncated :
    (ms : List (List ℕ)) (m bytes front back : List ℕ) (chunks : List (List ℕ))
    → frames ms ≡ ok bytes
    → frame m ≡ ok (front ++ back)
    → 0 < length front
    → 0 < length back
    → concat_bytes chunks ≡ bytes ++ front
    → unframe chunks ≡ (ms, err (connect_failure data_loss))
unframe_truncated ms m bytes front back chunks e f p q c =
    let (short, cut) = frame_ok m (front ++ back) f in
    unframe-outcome chunks
    ∙ ap outcome c
    ∙ outcome-frames ms bytes front e
    ∙ rw (outcome_cut m front back short cut p q) (
        ap
          (λ (x : List (List ℕ)).
            let r : Generator (Unit {0}) = (x, err (connect_failure data_loss)) in r)
          (append-nil ms))
