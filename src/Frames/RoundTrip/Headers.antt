-- ===== src/Frames/RoundTrip/Headers.antt =====
-- parsePayload on a HEADERS frame, and the theorem for every type.
use grpc_bridge.Prelude.{
  ℕ, ◌-◌, ◌≡◌, refl, Bool, true, false, Option, none, some, List, ◌++◌, length, ltb, if◌then◌else◌,
  arith,
}
use grpc_bridge.Frames.Types.{
  Priority, HeadersFrame, Frame, data_frame, headers_frame, priority_frame, rst_stream_frame,
  settings_frame, push_promise_frame, ping_frame, goaway_frame, window_update_frame,
  continuation_frame,
}
use Prim.Native.Nat.{bit_or}
use grpc_bridge.Bytes.{byte_reader}
use grpc_bridge.Bytes.Reader.{byte_reader-At}
use grpc_bridge.Frames.Encode.{encode_body}
use grpc_bridge.Frames.Encode.Payload.{priority_bytes, prioritized_payload}
use grpc_bridge.Frames.Parse.{has_flag, parse_headers, parse_payload}
use grpc_bridge.Frames.RoundTrip.Payload.{
  FitPriority, FitOption, Fits, received, Returns, read_priority-At, read_all, read_rest,
  data_Returns, continuation_Returns, ping_Returns, rst_stream_Returns, window_update_Returns,
  priority_Returns, settings_Returns, goaway_Returns, push_promise_Returns,
}
use grpc_bridge.Errors.{ok}

-- The flag byte of a HEADERS frame, and what its parser reads in it.
headers_flags : Bool → Bool → Bool → ℕ
headers_flags end_stream end_headers prioritized =
    let flags = if end_headers then 0x4 else 0 in
    let flags' = if end_stream then bit_or flags 0x1 else flags in
    if prioritized then bit_or flags' 0x20 else flags'

headers_flags_read :
    (a b c : Bool)
    → (has_flag (headers_flags a b c) 0x8 ≡ false)
      × (has_flag (headers_flags a b c) 0x20 ≡ c)
      × (has_flag (headers_flags a b c) 0x1 ≡ a)
      × (has_flag (headers_flags a b c) 0x4 ≡ b)
unfolding headers_flags
headers_flags_read true true true = (refl, refl, refl, refl)
headers_flags_read true true false = (refl, refl, refl, refl)
headers_flags_read true false true = (refl, refl, refl, refl)
headers_flags_read true false false = (refl, refl, refl, refl)
headers_flags_read false true true = (refl, refl, refl, refl)
headers_flags_read false true false = (refl, refl, refl, refl)
headers_flags_read false false true = (refl, refl, refl, refl)
headers_flags_read false false false = (refl, refl, refl, refl)

module _ (id : ℕ) (fragment : List ℕ) (end_stream end_headers : Bool) where
  frame_with : Option Priority → HeadersFrame
  frame_with p = record {
    stream_id = id;
    header_block_fragment = fragment;
    end_stream = end_stream;
    end_headers = end_headers;
    priority = p;
  }

  plain_Returns : Returns (headers_frame (frame_with none))
  unfolding encode_body parse_payload parse_headers frame_with headers_flags
  plain_Returns =
      let (not_padded, no_priority, stream_flag, headers_flag) =
        headers_flags_read end_stream end_headers false in
      let long : ltb (length fragment) 0 ≡ false = ground arith in
      let all : length fragment - 0 ≡ length fragment = omega arith in
      rw (not_padded, no_priority, long, all, read_all fragment, stream_flag, headers_flag)

  prioritized_Returns :
      (p : Priority) → FitPriority p → Returns (headers_frame (frame_with (some p)))
  unfolding encode_body parse_payload parse_headers frame_with headers_flags
  prioritized_Returns p h =
      let (not_padded, has_priority, stream_flag, headers_flag) =
        headers_flags_read end_stream end_headers true in
      let payload = priority_bytes p ++ fragment in
      let long : ltb (length payload) 5 ≡ false = ground arith in
      let (r1, e1, a1) =
        read_priority-At (byte_reader payload) p fragment h (byte_reader-At payload) in
      let (r2, e2) = read_rest r1 (length payload - 5) fragment a1 (omega arith) in
      rw (
        not_padded,
        has_priority,
        prioritized_payload p fragment,
        e1,
        long,
        e2,
        stream_flag,
        headers_flag,
      )

  headers_Returns : (o : Option Priority) → FitOption o → Returns (headers_frame (frame_with o))
  headers_Returns none h = plain_Returns
  headers_Returns (some p) h = prioritized_Returns p h

-- parsePayload undoes encodeBody on every frame, of each of the ten types, whose fields fit the wire;
-- a DATA frame comes with the length that counts for flow control.
pub parse_payload-encode_body :
    (f : Frame)
    → Fits f
    → let b = encode_body f in
      parse_payload b.type_id b.flags b.stream_id b.payload ≡ ok (received f)
parse_payload-encode_body (data_frame f) h = data_Returns f
parse_payload-encode_body (headers_frame f) h =
    unfold frame_with in
    headers_Returns f.stream_id f.header_block_fragment f.end_stream f.end_headers f.priority h.1
parse_payload-encode_body (priority_frame f) h = priority_Returns f h.1
parse_payload-encode_body (rst_stream_frame f) h = rst_stream_Returns f h.1
parse_payload-encode_body (settings_frame f) h = settings_Returns f.ack f.settings h.0 h.1
parse_payload-encode_body (push_promise_frame f) h = push_promise_Returns f h.1
parse_payload-encode_body (ping_frame f) h = ping_Returns f h
parse_payload-encode_body (goaway_frame f) h = goaway_Returns f h.0 h.1
parse_payload-encode_body (window_update_frame f) h = window_update_Returns f h.1
parse_payload-encode_body (continuation_frame f) h = continuation_Returns f
