-- ===== src/Frames/Decoder/Chunks.antt =====
-- The decoder on a split input: where a chunk ends makes no difference.
use grpc_bridge.Prelude.{
  ℕ, zero, suc, ◌≤◌, ◌≡◌, refl, sym, ap, ◌∙◌, Option, none, some, List, [], ◌∷◌, ◌++◌, length,
  length-append, append_assoc, append-nil, arith,
}
use grpc_bridge.Frames.Types.{Frame}
use grpc_bridge.Bytes.{concat_bytes}
use grpc_bridge.Frames.Decoder.{FrameDecoder, push, decode_loop}
use grpc_bridge.Frames.Decoder.Rounds.{
  waits, takes, fails, take_frame-Round, prepend, decode_loop_waits, decode_loop_takes,
  decode_loop_fails, decode_loop-nil, decode_loop_fuel,
}
use grpc_bridge.Errors.{Result, ok, err, ◌>>=◌}

-- The loop goes on with what is left and `y` behind it.
abbrev resume : ℕ → List ℕ → List Frame × List ℕ → Result (List Frame × List ℕ)
resume max_size y (frames, left) = do
  (more, left') ← decode_loop (length (left ++ y)) max_size (left ++ y)
  ok (frames ++ more, left')

resume-nil :
    (n max_size : ℕ) (x y : List ℕ)
    → length (x ++ y) ≤ n
    → decode_loop n max_size (x ++ y) ≡ resume max_size y ([], x)
resume-nil n max_size x y h =
    decode_loop_fuel n (length (x ++ y)) max_size (x ++ y) h (omega arith)
    ∙ same (decode_loop (length (x ++ y)) max_size (x ++ y))
  where
    same : (r : Result (List Frame × List ℕ)) → r ≡ (do (more, left') ← r; ok ([] ++ more, left'))
    same (ok (fs, l)) = refl
    same (err e) = refl

prepend-resume :
    (max_size : ℕ) (y : List ℕ) (f : Option Frame) (r : Result (List Frame × List ℕ))
    → prepend f (r >>= resume max_size y) ≡ prepend f r >>= resume max_size y
prepend-resume max_size y f (err e) = refl
prepend-resume max_size y none (ok (fs, l)) = same (decode_loop (length (l ++ y)) max_size (l ++ y))
  where
    same :
        (r : Result (List Frame × List ℕ))
        → prepend none (do (more, l') ← r; ok (fs ++ more, l'))
          ≡ (do (more, l') ← r; ok (fs ++ more, l'))
    same (ok p) = refl
    same (err e) = refl
prepend-resume max_size y (some f) (ok (fs, l)) =
    same (decode_loop (length (l ++ y)) max_size (l ++ y))
  where
    same :
        (r : Result (List Frame × List ℕ))
        → prepend (some f) (do (more, l') ← r; ok (fs ++ more, l'))
          ≡ (do (more, l') ← r; ok (f ∷ (fs ++ more), l'))
    same (ok p) = refl
    same (err e) = refl

decode_loop-append :
    (m n max_size : ℕ) (x y : List ℕ)
    → length x ≤ m
    → length (x ++ y) ≤ n
    → decode_loop n max_size (x ++ y) ≡ decode_loop m max_size x >>= resume max_size y
decode_loop-append zero n max_size [] y hm hn =
    rw (decode_loop-nil 0 max_size) (resume-nil n max_size [] y hn)
decode_loop-append zero n max_size (b ∷ x) y hm hn = absurd (omega arith)
decode_loop-append (suc m) zero max_size [] y hm hn =
    rw (decode_loop-nil (suc m) max_size) (resume-nil 0 max_size [] y hn)
decode_loop-append (suc m) zero max_size (b ∷ x) y hm hn = absurd (omega arith)
decode_loop-append (suc m) (suc n) max_size x y hm hn = elim (take_frame-Round max_size x) [
  | waits e ↦ rw (decode_loop_waits m max_size x e) (resume-nil (suc n) max_size x y hn)
  | takes f rest e later k ↦
      decode_loop_takes n max_size (x ++ y) f (rest ++ y) (later y)
      ∙ ap (prepend f) (
          decode_loop-append m n max_size rest y (omega arith)
            (omega (arith, length-append rest y, length-append x y)))
      ∙ prepend-resume max_size y f (decode_loop m max_size rest)
      ∙ ap (λ (r : Result (List Frame × List ℕ)). r >>= resume max_size y)
          (sym (decode_loop_takes m max_size x f rest e))
  | fails e p later ↦
      decode_loop_fails n max_size (x ++ y) e (later y)
      ∙ ap (λ (r : Result (List Frame × List ℕ)). r >>= resume max_size y)
          (sym (decode_loop_fails m max_size x e p))
]

abbrev pub keep_left : FrameDecoder → List Frame × List ℕ → Result (List Frame × FrameDecoder)
keep_left d (frames, left) = ok (frames, record d { pending = left })

pub push_lem :
    (d : FrameDecoder) (chunk : List ℕ)
    → push d chunk
      ≡ decode_loop (length (d.pending ++ chunk)) d.max_frame_size (d.pending ++ chunk)
        >>= keep_left d
unfolding push concat_bytes
push_lem d chunk = rw (append-nil chunk) refl

-- What `push` makes of a second chunk, behind frames that are already there.
abbrev push_more : List ℕ → List Frame × FrameDecoder → Result (List Frame × FrameDecoder)
push_more b (frames, d1) = do (more, d2) ← push d1 b; ok (frames ++ more, d2)

resume-push_more :
    (d : FrameDecoder) (b : List ℕ) (r : Result (List Frame × List ℕ))
    → (r >>= resume d.max_frame_size b) >>= keep_left d ≡ (r >>= keep_left d) >>= push_more b
resume-push_more d b (err e) = refl
resume-push_more d b (ok (fs, l)) =
    rw (push_lem (record d { pending = l }) b)
      (same (decode_loop (length (l ++ b)) d.max_frame_size (l ++ b)))
  where
    same :
        (r : Result (List Frame × List ℕ))
        → (do (more, l') ← r; ok (fs ++ more, l')) >>= keep_left d
          ≡ (do (more, d2) ← r >>= keep_left d; ok (fs ++ more, d2))
    same (ok p) = refl
    same (err e) = refl

-- Feeding two chunks one after the other gives what their concatenation gives, whatever is
-- pending: the same frames in the same order and the same decoder, or the same error.
pub push-append :
    (d : FrameDecoder) (a b : List ℕ)
    → push d (a ++ b)
      ≡ (do (frames, d1) ← push d a; (more, d2) ← push d1 b; ok (frames ++ more, d2))
push-append d a b =
    push_lem d (a ++ b)
    ∙ ap (λ (x : List ℕ). decode_loop (length x) d.max_frame_size x >>= keep_left d)
        (sym (append_assoc d.pending a b))
    ∙ ap (λ (r : Result (List Frame × List ℕ)). r >>= keep_left d)
        (decode_loop-append (length (d.pending ++ a)) _ d.max_frame_size (d.pending ++ a) b
          (omega arith) (omega arith))
    ∙ resume-push_more d b (decode_loop (length (d.pending ++ a)) d.max_frame_size (d.pending ++ a))
    ∙ ap (λ (r : Result (List Frame × FrameDecoder)). r >>= push_more b) (sym (push_lem d a))
