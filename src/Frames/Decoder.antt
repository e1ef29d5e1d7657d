-- ===== src/Frames/Decoder.antt =====
-- web/src/h2/frames/codec.ts: `FrameDecoder`. The model passes on the bytes from `offset` to the end
-- where the code keeps the whole buffer and the offset.
pub mod Rounds
pub mod Chunks
use grpc_bridge.Prelude.{
  ℕ, zero, suc, ◌+◌, ◌-◌, ◌*◌, ◌/◌, ◌%◌, ◌^◌, ◌≤◌, ◌<◌, min, ◌≡◌, refl, sym, ap, ◌∙◌, ◌≢◌, inl, inr,
  Bool, true, false, not, ◌&&◌, ◌||◌, Option, none, some, List, [], ◌∷◌, ◌++◌, length, take, drop,
  get_elem?, replicate, All, ltb, leb, ◌==◌, if◌then◌else◌, length-append, length-take, length-drop,
  take-append_eq, drop-append_eq, take-append_le, drop-append_le, take_all, append_assoc,
  append-nil, Bool-cases, Option-cases, arith,
}
use grpc_bridge.Frames.Types.{Frame, default_max_frame_size}
use grpc_bridge.Frames.Parse.{parse_payload}
use grpc_bridge.Bytes.{concat_bytes}
use grpc_bridge.Errors.{
  Result, ok, err, ◌>>=◌, Error, h2, range_error, unknown_frame_type, connect_failure, abort_reason,
  connection_failure, frame_size_error,
}

pub record FrameDecoder : Type 0 where
  pub pending : List ℕ
  pub max_frame_size : ℕ

abbrev pub frame_decoder : ℕ → FrameDecoder
frame_decoder max_frame_size = record { pending = []; max_frame_size = max_frame_size }

-- The nine bytes of a frame header.
pub record FrameHeader : Type 0 where
  pub length : ℕ
  pub type_id : ℕ
  pub flags : ℕ
  pub stream_id : ℕ

-- The header at the front and the bytes behind it; `none` for fewer than nine bytes.
unfoldable pub split_header : List ℕ → Option (FrameHeader × List ℕ)
split_header (b0 ∷ b1 ∷ b2 ∷ b3 ∷ b4 ∷ b5 ∷ b6 ∷ b7 ∷ b8 ∷ rest) = some (
  record {
    length = b0 * 65536 + b1 * 256 + b2;
    type_id = b3;
    flags = b4;
    stream_id = (b5 * 16777216 + b6 * 65536 + b7 * 256 + b8) % 2147483648;
  },
  rest,
)
split_header _ = none

-- The `try` around `parsePayload`: a frame of an unknown type is skipped.
unfoldable pub skip_unknown : Result Frame → List ℕ → Result (Option (Option Frame × List ℕ))
skip_unknown (ok f) rest = ok (some (some f, rest))
skip_unknown (err (unknown_frame_type t)) rest = ok (some (none, rest))
skip_unknown (err (h2 e)) rest = err (h2 e)
skip_unknown (err range_error) rest = err range_error
skip_unknown (err (connect_failure c)) rest = err (connect_failure c)
skip_unknown (err abort_reason) rest = err abort_reason

-- One round of the loop: `none` is a `break`, for want of bytes.
unfoldable pub take_frame : ℕ → List ℕ → Result (Option (Option Frame × List ℕ))
take_frame max_size buf = elim (split_header buf) [
  | none ↦ ok none
  | some (h, body) ↦
      if ltb max_size h.length
      then err (connection_failure frame_size_error)
      else if ltb (length body) h.length
      then ok none
      else skip_unknown (parse_payload h.type_id h.flags h.stream_id (take h.length body))
          (drop h.length body)
]

abbrev pub push_frame : Option Frame → List Frame → List Frame
push_frame none frames = frames
push_frame (some f) frames = f ∷ frames

-- The loop, on fuel: the frames, and the bytes that are left.
unfoldable pub decode_loop : ℕ → ℕ → List ℕ → Result (List Frame × List ℕ)
decode_loop zero max_size buf = ok ([], buf)
decode_loop (suc fuel) max_size buf = do
  round ← take_frame max_size buf
  elim round [
    | none ↦ ok ([], buf)
    | some (f, rest) ↦ (do
      (frames, left) ← decode_loop fuel max_size rest
      ok (push_frame f frames, left))
  ]

-- `push`. A round takes nine bytes at least, so as many rounds as there are bytes are enough. An
-- error leaves `pending` as it was.
unfoldable pub push : FrameDecoder → List ℕ → Result (List Frame × FrameDecoder)
unfolding decode_loop
push d chunk = do
  let buf = concat_bytes (d.pending ∷ chunk ∷ [])
  (frames, left) ← decode_loop (length buf) d.max_frame_size buf
  ok (frames, record d { pending = left })
