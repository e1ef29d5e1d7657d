-- ===== src/Framing.antt =====
-- web/src/framing.ts: gRPC messages as length-prefixed records, `frame` and the incremental
-- `unframe`. The generator is a state and a step for each chunk that the reader delivers.
pub mod Bytewise
pub mod Records
pub mod Bounds
pub mod Status
pub mod Runs
use grpc_bridge.Prelude.{
  ℕ, zero, suc, ◌+◌, ◌-◌, ◌*◌, ◌/◌, ◌%◌, ◌^◌, ◌≤◌, ◌<◌, min, ◌≡◌, refl, sym, ap, ◌∙◌, ◌≢◌, ◌⊎◌, inl,
  inr, Bool, true, false, not, ◌&&◌, ◌||◌, Option, none, some, List, [], ◌∷◌, ◌++◌, map, length,
  take, drop, get_elem?, replicate, All, ltb, leb, ◌==◌, if◌then◌else◌, length-append, length-take,
  length-drop, take-append_eq, drop-append_eq, take-append_le, drop-append_le, take_all, length_at,
  drop_past, append_assoc, append-nil, Bool-cases, Option-cases, arith,
}
use grpc_bridge.Errors.{Result, ok, err, connect_failure}

abbrev pub max_message : ℕ
max_message = 1048576

-- Codes of @connectrpc/connect that the file names.
abbrev pub resource_exhausted : ℕ
resource_exhausted = 8

abbrev pub unimplemented : ℕ
unimplemented = 12

abbrev pub data_loss : ℕ
data_loss = 15

-- `DataView.setUint32`, big-endian.
abbrev pub u32_be : ℕ → List ℕ
u32_be n = n / 16777216 % 256 ∷ n / 65536 % 256 ∷ n / 256 % 256 ∷ n % 256 ∷ []

-- `frame`: the flag byte 0, the length and the data.
unfoldable pub frame : List ℕ → Result (List ℕ)
frame bytes =
    if ltb max_message (length bytes)
    then err (connect_failure resource_exhausted)
    else ok (0 ∷ (u32_be (length bytes) ++ bytes))

-- The locals of `unframe`: what is written of `current` (so that `offset` is its length), the length
-- of `current`, and `readingHeader`.
pub record Unframer : Type 0 where
  pub current : List ℕ
  pub size : ℕ
  pub reading_header : Bool

abbrev pub unframer : Unframer
unframer = record { current = []; size = 5; reading_header = true }

-- A full header, which has five bytes (the last clause is never reached): the size of the message to come, or the error.
unfoldable pub read_header : List ℕ → Result ℕ
read_header (flag ∷ a ∷ b ∷ c ∷ d ∷ _) =
    let size = a * 16777216 + b * 65536 + c * 256 + d in
    if not (flag == 0)
    then err (connect_failure unimplemented)
    else if ltb max_message size
    then err (connect_failure resource_exhausted)
    else ok size
read_header _ = err (connect_failure unimplemented)

-- An async generator up to a point: the messages that it yielded, then a value or the error that
-- it threw.
abbrev pub Generator : Type 0 → Type 0
Generator A = List (List ℕ) × Result A

infixl 5 ◌>>=◌ ◌>>◌
abbrev pub ◌>>=◌ : {A B : Type 0} → Generator A → (A → Generator B) → Generator B
(out, ok a) >>= k = (out ++ (k a).0, (k a).1)
(out, err e) >>= k = (out, err e)

abbrev pub ◌>>◌ : {B : Type 0} → Generator (Unit {0}) → Generator B → Generator B
m >> k = m >>= λ _. k

abbrev pub return : {A : Type 0} → A → Generator A
return a = ([], ok a)

abbrev pub lift : {A : Type 0} → Result A → Generator A
lift r = ([], r)

abbrev pub yield : List ℕ → Generator (Unit {0})
yield message = (message ∷ [], ok tt)

-- What follows a full `current`: go on with a body, or yield a message and expect a header.
unfoldable pub complete : Unframer → Generator Unframer
complete u =
    if u.reading_header
    then (do
      size ← lift (read_header u.current)
      if size == 0
          then (do yield []; return unframer)
          else return (record { current = []; size = size; reading_header = false }))
    else (do yield u.current; return unframer)

-- One round of `while (position < value.length)`: the new state, and what is left of `value`.
unfoldable pub feed_round : Unframer → List ℕ → Generator (Unframer × List ℕ)
feed_round u value =
    let n = min (u.size - length u.current) (length value) in
    let u' : Unframer = record u { current = u.current ++ take n value } in
    if length u'.current == u'.size
    then (do u'' ← complete u'; return (u'', drop n value))
    else return (u', drop n value)

-- The loop over one chunk, on fuel.
unfoldable pub feed_loop : ℕ → Unframer → List ℕ → Generator Unframer
feed_loop fuel u [] = return u
feed_loop zero u (b ∷ value) = return u
feed_loop (suc fuel) u (b ∷ value) = do
  (u', rest) ← feed_round u (b ∷ value)
  feed_loop fuel u' rest

-- `current` never is full between rounds, so a round takes a byte at least.
unfoldable pub feed : Unframer → List ℕ → Generator Unframer
unfolding feed_loop
feed u value = feed_loop (length value) u value

-- `if (offset !== 0 || !readingHeader) throw`.
unfoldable pub finish : Unframer → Result (Unit {0})
finish u =
    if not (length u.current == 0) || not u.reading_header
    then err (connect_failure data_loss)
    else ok tt

-- The loop over what `reader.read()` delivers, and the end of the body.
unfoldable pub unframe_from : Unframer → List (List ℕ) → Generator (Unit {0})
unfolding feed finish
unframe_from u [] = lift (finish u)
unframe_from u (value ∷ values) = do u' ← feed u value; unframe_from u' values

unfoldable pub unframe : List (List ℕ) → Generator (Unit {0})
unfolding unframe_from
unframe values = unframe_from unframer values
