-- ===== src/Connection/Receive/Sizes.antt =====
-- The DATA frames that the decoder gives: their bytes are part of what flow control counts.
use grpc_bridge.Prelude.{
  ℕ, zero, suc, ◌+◌, ◌-◌, ◌≤◌, Bool, true, false, Option, none, some, List, [], ◌∷◌, length, take,
  drop, All, ltb, length-take, if_case, option_case, arith,
}
use grpc_bridge.Errors.{
  Result, ok, err, ◌>>=◌, h2, range_error, unknown_frame_type, connect_failure, abort_reason, Holds,
  bind-Holds,
}
use grpc_bridge.Bytes.{concat_bytes, ByteReader, byte_reader, read_u8, read_bytes}
use grpc_bridge.Frames.Types.{Frame, data_frame, data_padded_flag, data_end_stream_flag}
use grpc_bridge.Frames.Parse.{
  has_flag, read_padded, parse_data, parse_headers, parse_priority, parse_rst_stream,
  parse_settings_frame, parse_push_promise, parse_ping, parse_goaway, parse_window_update,
  parse_continuation, parse_payload,
}
use grpc_bridge.Frames.Decoder.{
  split_header, skip_unknown, take_frame, push_frame, decode_loop, FrameDecoder, push,
}
use grpc_bridge.Connection.Receive.{flow_bytes}

abbrev pub Sized : Frame → Type 0
Sized (data_frame f) = length f.bytes ≤ flow_bytes f
Sized _ = Unit {0}

abbrev SizedRound : Option (Option Frame × List ℕ) → Type 0
SizedRound (some (some f, rest)) = Sized f
SizedRound _ = Unit {0}

bounded_read :
    (n len : ℕ) (r : ByteReader)
    → n ≤ len
    → Holds (λ (x : List ℕ × ByteReader). length x.0 ≤ len) (read_bytes n r)
unfolding read_bytes
bounded_read n len r h = omega (arith, length-take n (drop r.cursor r.buf))

bounded_take : (n len : ℕ) (xs : List ℕ) → n ≤ len → length (take n xs) ≤ len
bounded_take n len xs h = omega (arith, length-take n xs)

Holds_any : (m : Result (ℕ × ByteReader)) → Holds (λ (x : ℕ × ByteReader). Unit {0}) m
Holds_any (ok x) = tt
Holds_any (err e) = tt

read_padded_bound :
    (r : ByteReader) (len : ℕ) (padded : Bool)
    → Holds (λ (x : List ℕ × ByteReader). length x.0 ≤ len) (read_padded r len padded)
unfolding read_padded read_bytes
read_padded_bound r len false = bounded_read len len r (omega arith)
read_padded_bound r len true =
    bind-Holds (λ (x : ℕ × ByteReader). Unit {0}) (λ (x : List ℕ × ByteReader). length x.0 ≤ len)
      (read_u8 r) _ (Holds_any (read_u8 r))
      λ (pad_length, r1) h.
        if_case (Holds (λ (x : List ℕ × ByteReader). length x.0 ≤ len)) (ltb len (1 + pad_length)) _
          _ (λ e. tt)
          (λ e. bounded_take (len - 1 - pad_length) len (drop r1.cursor r1.buf) (omega arith))

narrow :
    (flags stream_id len : ℕ) (m : Result (List ℕ × ByteReader))
    → Holds (λ (x : List ℕ × ByteReader). length x.0 ≤ len) m
    → Holds Sized (
        m >>= λ (bytes, _). ok (
          data_frame (record {
            stream_id = stream_id;
            bytes = bytes;
            flow_controlled_length = some len;
            end_stream = has_flag flags data_end_stream_flag;
          })))
narrow flags stream_id len (ok (bytes, r)) h = h
narrow flags stream_id len (err e) h = tt

parse_data-Sized :
    (flags stream_id : ℕ) (payload : List ℕ) → Holds Sized (parse_data flags stream_id payload)
unfolding parse_data
parse_data-Sized flags stream_id payload =
    narrow flags stream_id (length payload)
      (read_padded (byte_reader payload) (length payload) (has_flag flags data_padded_flag))
      (read_padded_bound (byte_reader payload) (length payload) (has_flag flags data_padded_flag))

-- The other frames carry no DATA.
parse_headers-Sized :
    (flags stream_id : ℕ) (payload : List ℕ) → Holds Sized (parse_headers flags stream_id payload)
unfolding parse_headers
parse_headers-Sized flags stream_id payload = ground arith

parse_priority-Sized :
    (stream_id : ℕ) (payload : List ℕ) → Holds Sized (parse_priority stream_id payload)
unfolding parse_priority
parse_priority-Sized stream_id payload = ground arith

parse_rst_stream-Sized :
    (stream_id : ℕ) (payload : List ℕ) → Holds Sized (parse_rst_stream stream_id payload)
unfolding parse_rst_stream
parse_rst_stream-Sized stream_id payload = ground arith

parse_settings_frame-Sized :
    (flags : ℕ) (payload : List ℕ) → Holds Sized (parse_settings_frame flags payload)
unfolding parse_settings_frame
parse_settings_frame-Sized flags payload = ground arith

parse_push_promise-Sized :
    (flags stream_id : ℕ) (payload : List ℕ)
    → Holds Sized (parse_push_promise flags stream_id payload)
unfolding parse_push_promise
parse_push_promise-Sized flags stream_id payload = ground arith

parse_ping-Sized : (flags : ℕ) (payload : List ℕ) → Holds Sized (parse_ping flags payload)
unfolding parse_ping
parse_ping-Sized flags payload = ground arith

parse_goaway-Sized : (payload : List ℕ) → Holds Sized (parse_goaway payload)
unfolding parse_goaway
parse_goaway-Sized payload = ground arith

parse_window_update-Sized :
    (stream_id : ℕ) (payload : List ℕ) → Holds Sized (parse_window_update stream_id payload)
unfolding parse_window_update
parse_window_update-Sized stream_id payload = ground arith

parse_continuation-Sized :
    (flags stream_id : ℕ) (payload : List ℕ)
    → Holds Sized (parse_continuation flags stream_id payload)
unfolding parse_continuation
parse_continuation-Sized flags stream_id payload = ground arith

parse_payload-Sized :
    (type_id flags stream_id : ℕ) (payload : List ℕ)
    → Holds Sized (parse_payload type_id flags stream_id payload)
unfolding parse_payload
parse_payload-Sized type_id flags stream_id payload = ground (
  arith,
  parse_data-Sized flags stream_id payload,
  parse_headers-Sized flags stream_id payload,
  parse_priority-Sized stream_id payload,
  parse_rst_stream-Sized stream_id payload,
  parse_settings_frame-Sized flags payload,
  parse_push_promise-Sized flags stream_id payload,
  parse_ping-Sized flags payload,
  parse_goaway-Sized payload,
  parse_window_update-Sized stream_id payload,
  parse_continuation-Sized flags stream_id payload,
)

skip_unknown-Sized :
    (r : Result Frame) (rest : List ℕ)
    → Holds Sized r
    → Holds (λ (o : Option (Option Frame × List ℕ)). SizedRound o) (skip_unknown r rest)
unfolding skip_unknown
skip_unknown-Sized (ok f) rest h = h
skip_unknown-Sized (err (unknown_frame_type t)) rest h = tt
skip_unknown-Sized (err (h2 e)) rest h = tt
skip_unknown-Sized (err range_error) rest h = tt
skip_unknown-Sized (err (connect_failure c)) rest h = tt
skip_unknown-Sized (err abort_reason) rest h = tt

take_frame-Sized : (max_size : ℕ) (buf : List ℕ) → Holds SizedRound (take_frame max_size buf)
unfolding take_frame
take_frame-Sized max_size buf =
    option_case (Holds SizedRound) (split_header buf) _ _ (λ e. tt)
      (λ (h, body) e.
        if_case (Holds SizedRound) (ltb max_size h.length) _ _ (λ e'. tt)
          (λ e'.
            if_case (Holds SizedRound) (ltb (length body) h.length) _ _ (λ e2. tt)
              (λ e2.
                skip_unknown-Sized
                  (parse_payload h.type_id h.flags h.stream_id (take h.length body)) _
                  (parse_payload-Sized h.type_id h.flags h.stream_id (take h.length body)))))

abbrev AllSized : List Frame × List ℕ → Type 0
AllSized x = All Sized x.0

after_round :
    (fuel max_size : ℕ) (buf : List ℕ) (round : Option (Option Frame × List ℕ))
    → ((rest : List ℕ) → Holds AllSized (decode_loop fuel max_size rest))
    → SizedRound round
    → Holds AllSized (elim round [
      | none ↦ ok ([], buf)
      | some (f, rest) ↦ (do
        (frames, left) ← decode_loop fuel max_size rest
        ok (push_frame f frames, left))
    ])
after_round fuel max_size buf none h p = tt
after_round fuel max_size buf (some (none, rest)) h p =
    bind-Holds AllSized AllSized (decode_loop fuel max_size rest) _ (h rest) λ x q. q
after_round fuel max_size buf (some (some f, rest)) h p =
    bind-Holds AllSized AllSized (decode_loop fuel max_size rest) _ (h rest) λ x q. (p, q)

decode_loop-Sized :
    (fuel max_size : ℕ) (buf : List ℕ) → Holds AllSized (decode_loop fuel max_size buf)
unfolding decode_loop
decode_loop-Sized zero max_size buf = tt
decode_loop-Sized (suc fuel) max_size buf =
    bind-Holds SizedRound AllSized (take_frame max_size buf) _ (take_frame-Sized max_size buf)
      λ round p. after_round fuel max_size buf round (decode_loop-Sized fuel max_size) p

pub push-Sized :
    (d : FrameDecoder) (chunk : List ℕ)
    → Holds (λ (x : List Frame × FrameDecoder). All Sized x.0) (push d chunk)
unfolding push
push-Sized d chunk =
    let buf = concat_bytes (d.pending ∷ chunk ∷ []) in
    bind-Holds AllSized (λ (x : List Frame × FrameDecoder). All Sized x.0)
      (decode_loop (length buf) d.max_frame_size buf) _
      (decode_loop-Sized (length buf) d.max_frame_size buf) λ x p. p
