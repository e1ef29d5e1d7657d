-- ===== src/Frames/RoundTrip/Wire.antt =====
-- The decoder on the bytes of serialized frames.
use grpc_bridge.Prelude.{
  ℕ, zero, suc, ◌+◌, ◌≤◌, ◌<◌, ◌≡◌, refl, ap, ◌∙◌, false, some, List, [], ◌∷◌, ◌++◌, map, length,
  All, ltb, length-append, take-append_eq, drop-append_eq, append_assoc, append-nil, arith,
}
use grpc_bridge.Frames.Types.{
  Frame, data_frame, headers_frame, priority_frame, rst_stream_frame, settings_frame,
  push_promise_frame, ping_frame, goaway_frame, window_update_frame, continuation_frame,
}
use grpc_bridge.Bytes.{concat_bytes}
use grpc_bridge.Frames.Encode.{Body, encode_body, frame_header, serialize_frame}
use grpc_bridge.Frames.Encode.Payload.{frame_header_lem}
use grpc_bridge.Frames.Parse.{parse_payload}
use grpc_bridge.Frames.Decoder.{
  frame_decoder, split_header, skip_unknown, take_frame, decode_loop, push,
}
use grpc_bridge.Frames.Decoder.Chunks.{push_lem}
use grpc_bridge.Frames.Decoder.Rounds.{prepend, decode_loop_takes, decode_loop-nil}
use grpc_bridge.Frames.RoundTrip.Payload.{Fits, received}
use grpc_bridge.Frames.RoundTrip.Headers.{parse_payload-encode_body}
use grpc_bridge.Errors.{ok}

-- A frame that a decoder with the limit `max_size` takes.
abbrev pub Sendable : ℕ → Frame → Type 0
Sendable max_size f = Fits f × (length (encode_body f).payload ≤ max_size)

-- The header fields of every body fit their bytes.
record Small (b : Body) : Type 0 where
  type_small : b.type_id < 256
  flags_small : b.flags < 256
  id_small : b.stream_id < 2147483648

encode_body-Small : (f : Frame) → Fits f → Small (encode_body f)
unfolding encode_body
encode_body-Small (data_frame f) h = ground arith
encode_body-Small (headers_frame f) h = ground (arith, h.0)
encode_body-Small (priority_frame f) h = ground (arith, h.0)
encode_body-Small (rst_stream_frame f) h = ground (arith, h.0)
encode_body-Small (settings_frame f) h = ground arith
encode_body-Small (push_promise_frame f) h = ground (arith, h.0)
encode_body-Small (ping_frame f) h = ground arith
encode_body-Small (goaway_frame f) h = ground arith
encode_body-Small (window_update_frame f) h = ground (arith, h.0)
encode_body-Small (continuation_frame f) h = ground arith

split_header-frame_header :
    (b : Body) (rest : List ℕ)
    → Small b
    → length b.payload < 16777216
    → split_header (frame_header b ++ rest)
      ≡ some (
        record {
          length = length b.payload;
          type_id = b.type_id;
          flags = b.flags;
          stream_id = b.stream_id;
        },
        rest,
      )
unfolding split_header
split_header-frame_header b rest s h = rw (frame_header_lem b) (ground arith)

serialize_frame_lem :
    (f : Frame)
    → serialize_frame f ≡ frame_header (encode_body f) ++ ((encode_body f).payload ++ [])
unfolding serialize_frame concat_bytes
serialize_frame_lem f = refl

skip_unknown_ok : (f : Frame) (rest : List ℕ) → skip_unknown (ok f) rest ≡ ok (some (some f, rest))
unfolding skip_unknown
skip_unknown_ok f rest = refl

-- A frame takes nine bytes and its payload.
length-serialize_frame :
    (f : Frame) → length (serialize_frame f) ≡ 9 + length (encode_body f).payload
length-serialize_frame f = omega (
  arith,
  ap length (serialize_frame_lem f),
  length-append (frame_header (encode_body f)) ((encode_body f).payload ++ []),
  length-append (encode_body f).payload [],
  ap length (frame_header_lem (encode_body f)),
)

take_frame-body :
    (max_size : ℕ) (b : Body) (rest : List ℕ)
    → max_size < 16777216
    → Small b
    → length b.payload ≤ max_size
    → take_frame max_size ((frame_header b ++ (b.payload ++ [])) ++ rest)
      ≡ skip_unknown (parse_payload b.type_id b.flags b.stream_id b.payload) rest
unfolding take_frame
take_frame-body max_size b rest m s k =
    let body = b.payload ++ rest in
    let fits : ltb max_size (length b.payload) ≡ false = ground arith in
    let whole : ltb (length body) (length b.payload) ≡ false =
      ground (arith, length-append b.payload rest) in
    let e : (frame_header b ++ (b.payload ++ [])) ++ rest ≡ frame_header b ++ body =
      rw append-nil (append_assoc (frame_header b) b.payload rest) in
    rw (
      e,
      split_header-frame_header b body s (omega arith),
      take_frame,
      fits,
      whole,
      take-append_eq (length b.payload) b.payload rest refl,
      drop-append_eq (length b.payload) b.payload rest refl,
    )

take_frame-serialize_frame :
    (max_size : ℕ) (f : Frame) (rest : List ℕ)
    → max_size < 16777216
    → Sendable max_size f
    → take_frame max_size (serialize_frame f ++ rest) ≡ ok (some (some (received f), rest))
take_frame-serialize_frame max_size f rest m (h, k) =
    ap (λ (x : List ℕ). take_frame max_size (x ++ rest)) (serialize_frame_lem f)
    ∙ take_frame-body max_size (encode_body f) rest m (encode_body-Small f h) k
    ∙ rw (parse_payload-encode_body f h) (skip_unknown_ok (received f) rest)

-- The bytes of a sequence of frames.
abbrev pub wire : List Frame → List ℕ
wire fs = concat_bytes (map serialize_frame fs)

wire-cons : (f : Frame) (fs : List Frame) → wire (f ∷ fs) ≡ serialize_frame f ++ wire fs
unfolding concat_bytes
wire-cons f fs = refl

length-wire_cons : (f : Frame) (fs : List Frame) → length (wire fs) < length (wire (f ∷ fs))
length-wire_cons f fs = omega (
  arith,
  ap length (wire-cons f fs),
  length-append (serialize_frame f) (wire fs),
  length-serialize_frame f,
)

decode_loop-wire :
    (fuel max_size : ℕ) (fs : List Frame)
    → max_size < 16777216
    → All (Sendable max_size) fs
    → length (wire fs) ≤ fuel
    → decode_loop fuel max_size (wire fs) ≡ ok (map received fs, [])
decode_loop-wire fuel max_size [] m h k = unfold concat_bytes in decode_loop-nil fuel max_size
decode_loop-wire zero max_size (f ∷ fs) m h k = absurd (omega (arith, length-wire_cons f fs))
decode_loop-wire (suc fuel) max_size (f ∷ fs) m h k =
    decode_loop_takes fuel max_size (wire (f ∷ fs)) (some (received f)) (wire fs)
      (rw (wire-cons f fs) (take_frame-serialize_frame max_size f (wire fs) m h.0))
    ∙ ap (prepend (some (received f)))
        (decode_loop-wire fuel max_size fs m h.1 (omega (arith, length-wire_cons f fs)))

-- A decoder that has read nothing takes a sequence of serialized frames back as it was sent: each
-- frame once, in order, and nothing left over; a DATA frame comes with the length that counts for
-- flow control. The frames' fields fit the wire and their payloads
-- the decoder's limit, which is below 2^24.
pub push-wire :
    (max_size : ℕ) (fs : List Frame)
    → max_size < 16777216
    → All (Sendable max_size) fs
    → push (frame_decoder max_size) (wire fs) ≡ ok (map received fs, frame_decoder max_size)
push-wire max_size fs m h = rw (
  push_lem (frame_decoder max_size) (wire fs),
  decode_loop-wire (length (wire fs)) max_size fs m h (omega arith),
)
