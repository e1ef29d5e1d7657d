-- ===== src/Frames/Decoder/Rounds.antt =====
-- One round of the decoder's loop, and the loop on any fuel that suffices.
use grpc_bridge.Prelude.{
  ℕ, zero, suc, ◌+◌, ◌≤◌, ◌≡◌, refl, sym, ap, ◌∙◌, ◌⊎◌, inl, inr, true, false, Option, none, some,
  List, [], ◌∷◌, ◌++◌, length, take, drop, ltb, length-append, length-drop, take-append_le,
  drop-append_le, append-nil, Bool-cases, Option-cases, arith,
}
use grpc_bridge.Frames.Types.{Frame}
use grpc_bridge.Frames.Parse.{parse_payload}
use grpc_bridge.Frames.Decoder.{
  FrameHeader, split_header, skip_unknown, take_frame, push_frame, decode_loop,
}
use grpc_bridge.Errors.{
  Result, ok, err, ◌>>=◌, Error, h2, range_error, unknown_frame_type, connect_failure, abort_reason,
  connection_failure, frame_size_error,
}

split_header-append :
    (x y : List ℕ) (h : FrameHeader) (body : List ℕ)
    → split_header x ≡ some (h, body)
    → (split_header (x ++ y) ≡ some (h, body ++ y)) × (length x ≡ 9 + length body)
unfolding split_header
split_header-append (b0 ∷ b1 ∷ b2 ∷ b3 ∷ b4 ∷ b5 ∷ b6 ∷ b7 ∷ b8 ∷ rest) y h body e = ground arith
split_header-append _ y h body e = cc

skip_unknown_cases :
    (r : Result Frame)
    → ((f : Option Frame) × ((rest : List ℕ) → skip_unknown r rest ≡ ok (some (f, rest))))
      ⊎ ((e : Error) × ((rest : List ℕ) → skip_unknown r rest ≡ err e))
unfolding skip_unknown
skip_unknown_cases (ok f) = inl (some f, λ _. refl)
skip_unknown_cases (err (unknown_frame_type t)) = inl (none, λ _. refl)
skip_unknown_cases (err (h2 e)) = inr (h2 e, λ _. refl)
skip_unknown_cases (err range_error) = inr (range_error, λ _. refl)
skip_unknown_cases (err (connect_failure c)) = inr (connect_failure c, λ _. refl)
skip_unknown_cases (err abort_reason) = inr (abort_reason, λ _. refl)

-- How a round ends, and that more bytes behind the buffer change no round that was complete.
pub data Round (max_size : ℕ) (x : List ℕ) : Type 0 where
  waits : take_frame max_size x ≡ ok none → Round max_size x
  takes :
      (f : Option Frame) (rest : List ℕ)
      → take_frame max_size x ≡ ok (some (f, rest))
      → ((y : List ℕ) → take_frame max_size (x ++ y) ≡ ok (some (f, rest ++ y)))
      → 9 + length rest ≤ length x
      → Round max_size x
  fails :
      (e : Error)
      → take_frame max_size x ≡ err e
      → ((y : List ℕ) → take_frame max_size (x ++ y) ≡ err e)
      → Round max_size x

module _ (max_size : ℕ) (x : List ℕ) (h : FrameHeader) (body : List ℕ)
    (e : split_header x ≡ some (h, body)) where
  length-body : length x ≡ 9 + length body
  length-body = (split_header-append x [] h body e).1

  too_long : ltb max_size h.length ≡ true → Round max_size x
  unfolding take_frame
  too_long t =
      fails (connection_failure frame_size_error) (rw (e, take_frame, t))
        (λ y. rw ((split_header-append x y h body e).0, take_frame, t))

  short : ltb max_size h.length ≡ false → ltb (length body) h.length ≡ true → Round max_size x
  unfolding take_frame
  short t u = waits (rw (e, take_frame, t, u))

  -- The cut at the frame's end lies inside `body`, so what stands behind `body` moves to the rest.
  whole :
      ltb max_size h.length ≡ false
      → ltb (length body) h.length ≡ false
      → (y : List ℕ)
      → take_frame max_size (x ++ y)
        ≡ skip_unknown
            (parse_payload h.type_id h.flags h.stream_id (take h.length body))
            (drop h.length body ++ y)
  unfolding take_frame
  whole t u y =
      let fits : h.length ≤ length body = ground arith in
      let u' : ltb (length (body ++ y)) h.length ≡ false = ground (arith, length-append body y) in
      rw (
        (split_header-append x y h body e).0,
        take_frame,
        t,
        u',
        take-append_le h.length body y fits,
        drop-append_le h.length body y fits,
      )

  complete : ltb max_size h.length ≡ false → ltb (length body) h.length ≡ false → Round max_size x
  complete t u =
      elim (skip_unknown_cases (parse_payload h.type_id h.flags h.stream_id (take h.length body))) [
        | inl (f, p) ↦
            takes f (drop h.length body)
              (ap (take_frame max_size) (sym (append-nil x)) ∙ whole t u [] ∙ p _ ∙ rw append-nil)
              (λ y. whole t u y ∙ p _) (omega (arith, length-body, length-drop h.length body))
        | inr (e, p) ↦
            fails e (ap (take_frame max_size) (sym (append-nil x)) ∙ whole t u [] ∙ p _)
              (λ y. whole t u y ∙ p _)
      ]

pub take_frame-Round : (max_size : ℕ) (x : List ℕ) → Round max_size x
take_frame-Round max_size x = elim (Option-cases (split_header x)) [
  | inl e ↦ waits (unfold take_frame in rw (e, take_frame))
  | inr ((h, body), e) ↦ elim (Bool-cases (ltb max_size h.length)) [
    | inl t ↦ too_long max_size x h body e t
    | inr t ↦ elim (Bool-cases (ltb (length body) h.length)) [
      | inl u ↦ short max_size x h body e t u
      | inr u ↦ complete max_size x h body e t u
    ]
  ]
]

-- The loop by the way its first round ends.
abbrev pub prepend : Option Frame → Result (List Frame × List ℕ) → Result (List Frame × List ℕ)
prepend f r = do (frames, left) ← r; ok (push_frame f frames, left)

module _ (n max_size : ℕ) (x : List ℕ) where
  pub decode_loop_waits :
      take_frame max_size x ≡ ok none → decode_loop (suc n) max_size x ≡ ok ([], x)
  unfolding decode_loop
  decode_loop_waits e = rw e

  pub decode_loop_takes :
      (f : Option Frame) (rest : List ℕ)
      → take_frame max_size x ≡ ok (some (f, rest))
      → decode_loop (suc n) max_size x ≡ prepend f (decode_loop n max_size rest)
  unfolding decode_loop
  decode_loop_takes f rest e = rw e

  pub decode_loop_fails :
      (e : Error) → take_frame max_size x ≡ err e → decode_loop (suc n) max_size x ≡ err e
  unfolding decode_loop
  decode_loop_fails e p = rw p

pub take_frame-nil : (max_size : ℕ) → take_frame max_size [] ≡ ok none
unfolding take_frame split_header
take_frame-nil max_size = refl

pub decode_loop-nil : (n max_size : ℕ) → decode_loop n max_size [] ≡ ok ([], [])
decode_loop-nil zero max_size = unfold decode_loop in refl
decode_loop-nil (suc n) max_size = decode_loop_waits n max_size [] (take_frame-nil max_size)

-- Any fuel that suffices gives one result.
pub decode_loop_fuel :
    (n m max_size : ℕ) (x : List ℕ)
    → length x ≤ n
    → length x ≤ m
    → decode_loop n max_size x ≡ decode_loop m max_size x
decode_loop_fuel zero zero max_size x hn hm = refl
decode_loop_fuel zero (suc m) max_size [] hn hm =
    decode_loop-nil zero max_size ∙ sym (decode_loop-nil (suc m) max_size)
decode_loop_fuel zero (suc m) max_size (b ∷ x) hn hm = absurd (omega arith)
decode_loop_fuel (suc n) zero max_size [] hn hm =
    decode_loop-nil (suc n) max_size ∙ sym (decode_loop-nil zero max_size)
decode_loop_fuel (suc n) zero max_size (b ∷ x) hn hm = absurd (omega arith)
decode_loop_fuel (suc n) (suc m) max_size x hn hm = elim (take_frame-Round max_size x) [
  | waits e ↦ decode_loop_waits n max_size x e ∙ sym (decode_loop_waits m max_size x e)
  | takes f rest e _ k ↦
      decode_loop_takes n max_size x f rest e
      ∙ ap (prepend f) (decode_loop_fuel n m max_size rest (omega arith) (omega arith))
      ∙ sym (decode_loop_takes m max_size x f rest e)
  | fails e p _ ↦ decode_loop_fails n max_size x e p ∙ sym (decode_loop_fails m max_size x e p)
]
