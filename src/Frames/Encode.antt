-- ===== src/Frames/Encode.antt =====
-- web/src/h2/frames/codec.ts: `encodeBody` and `serializeFrame`.
pub mod Payload
use Prim.Native.Nat.{bit_or}
use grpc_bridge.Prelude.{
  ℕ, zero, suc, ◌+◌, ◌-◌, ◌*◌, ◌/◌, ◌%◌, ◌^◌, ◌≤◌, ◌<◌, min, ◌≡◌, refl, sym, ap, ◌∙◌, ◌≢◌, inl, inr,
  Bool, true, false, not, ◌&&◌, ◌||◌, Option, none, some, List, [], ◌∷◌, ◌++◌, length, take, drop,
  get_elem?, replicate, All, ltb, leb, ◌==◌, if◌then◌else◌, length-append, length-take, length-drop,
  take-append_eq, drop-append_eq, take-append_le, drop-append_le, take_all, append_assoc,
  append-nil, Bool-cases, Option-cases, arith,
}
use grpc_bridge.Frames.Types.{
  data_type, headers_type, priority_type, rst_stream_type, settings_type, push_promise_type,
  ping_type, goaway_type, window_update_type, continuation_type, data_end_stream_flag,
  data_padded_flag, headers_end_stream_flag, headers_end_headers_flag, headers_padded_flag,
  headers_priority_flag, settings_ack_flag, ping_ack_flag, push_promise_end_headers_flag,
  push_promise_padded_flag, continuation_end_headers_flag, Settings, no_settings, Priority,
  DataFrame, HeadersFrame, PriorityFrame, RstStreamFrame, SettingsFrame, PushPromiseFrame,
  PingFrame, GoawayFrame, WindowUpdateFrame, ContinuationFrame, Frame, data_frame, headers_frame,
  priority_frame, rst_stream_frame, settings_frame, push_promise_frame, ping_frame, goaway_frame,
  window_update_frame, continuation_frame, frame_header_size, default_max_frame_size,
}
use grpc_bridge.Bytes.{
  ByteWriter, byte_writer, put_u8, put_u16, put_u24, put_u32, put_bytes, written, concat_bytes,
}

-- What `encodeBody` returns.
pub record Body : Type 0 where
  pub type_id : ℕ
  pub flags : ℕ
  pub stream_id : ℕ
  pub payload : List ℕ

-- `n & 0x7fffffff`.
abbrev pub low_31_bits : ℕ → ℕ
low_31_bits n = n % 2147483648

-- The five bytes of a priority. `dep | 0x80000000` sets the top bit of a 31-bit number; the write
-- takes the sign that JavaScript gives it off again. `weight - 1` wraps in a byte.
unfoldable pub put_priority : ByteWriter → Priority → ByteWriter
put_priority w p =
    let dep = low_31_bits p.stream_dependency in
    put_u8 (put_u32 w (if p.exclusive then dep + 2147483648 else dep)) ((p.weight + 255) % 256)

-- One round of the loop over SETTINGS_IDS.
unfoldable pub put_setting : ByteWriter → ℕ → Option ℕ → ByteWriter
put_setting w id none = w
put_setting w id (some value) = put_u32 (put_u16 w id) value

-- `typeof value === "boolean" ? (value ? 1 : 0) : value`, at the one Boolean setting.
unfoldable pub flag_value : Option Bool → Option ℕ
flag_value none = none
flag_value (some b) = some (if b then 1 else 0)

-- The loop, its six rounds in the order of the keys.
unfoldable pub put_settings : ByteWriter → Settings → ByteWriter
unfolding put_setting flag_value
put_settings w s =
    let w1 = put_setting w 0x1 s.header_table_size in
    let w2 = put_setting w1 0x2 (flag_value s.enable_push) in
    let w3 = put_setting w2 0x3 s.max_concurrent_streams in
    let w4 = put_setting w3 0x4 s.initial_window_size in
    let w5 = put_setting w4 0x5 s.max_frame_size in put_setting w5 0x6 s.max_header_list_size

-- The HEADERS case: `flags |=` for each flag, and the priority before the fragment.
unfoldable pub encode_headers : HeadersFrame → Body
encode_headers f =
    let flags = if f.end_headers then headers_end_headers_flag else 0 in
    let flags' = if f.end_stream then bit_or flags headers_end_stream_flag else flags in
    elim f.priority [
      | none ↦ record {
        type_id = headers_type;
        flags = flags';
        stream_id = f.stream_id;
        payload = f.header_block_fragment;
      }
      | some p ↦ record {
        type_id = headers_type;
        flags = bit_or flags' headers_priority_flag;
        stream_id = f.stream_id;
        payload = written (
            put_bytes (put_priority (byte_writer (5 + length f.header_block_fragment)) p)
              f.header_block_fragment);
      }
    ]

unfoldable pub encode_body : Frame → Body
unfolding encode_headers
encode_body (data_frame f) = record {
  type_id = data_type;
  flags = if f.end_stream then data_end_stream_flag else 0;
  stream_id = f.stream_id;
  payload = f.bytes;
}
encode_body (headers_frame f) = encode_headers f
encode_body (priority_frame f) = record {
  type_id = priority_type;
  flags = 0;
  stream_id = f.stream_id;
  payload = written (put_priority (byte_writer 5) f.priority);
}
encode_body (rst_stream_frame f) = record {
  type_id = rst_stream_type;
  flags = 0;
  stream_id = f.stream_id;
  payload = written (put_u32 (byte_writer 4) f.error_code);
}
encode_body (settings_frame f) = record {
  type_id = settings_type;
  flags = if f.ack then settings_ack_flag else 0;
  stream_id = 0;
  payload = written (put_settings (byte_writer 48) f.settings);
}
encode_body (push_promise_frame f) = record {
  type_id = push_promise_type;
  flags = if f.end_headers then push_promise_end_headers_flag else 0;
  stream_id = f.stream_id;
  payload = written (
      put_bytes
        (put_u32 (byte_writer (4 + length f.header_block_fragment))
          (low_31_bits f.promised_stream_id))
        f.header_block_fragment);
}
encode_body (ping_frame f) = record {
  type_id = ping_type;
  flags = if f.ack then ping_ack_flag else 0;
  stream_id = 0;
  payload = if length f.opaque_data == 8 then f.opaque_data else replicate 8 0;
}
encode_body (goaway_frame f) = record {
  type_id = goaway_type;
  flags = 0;
  stream_id = 0;
  payload = written (
      put_bytes
        (put_u32 (put_u32 (byte_writer (8 + length f.debug_data)) (low_31_bits f.last_stream_id))
          f.error_code)
        f.debug_data);
}
encode_body (window_update_frame f) = record {
  type_id = window_update_type;
  flags = 0;
  stream_id = f.stream_id;
  payload = written (put_u32 (byte_writer 4) (low_31_bits f.window_size_increment));
}
encode_body (continuation_frame f) = record {
  type_id = continuation_type;
  flags = if f.end_headers then continuation_end_headers_flag else 0;
  stream_id = f.stream_id;
  payload = f.header_block_fragment;
}

-- The header that `serializeFrame` writes.
unfoldable pub frame_header : Body → List ℕ
frame_header b =
    let w1 = put_u24 (byte_writer frame_header_size) (length b.payload) in
    let w2 = put_u8 w1 b.type_id in
    let w3 = put_u8 w2 b.flags in written (put_u32 w3 (low_31_bits b.stream_id))

unfoldable pub serialize_frame : Frame → List ℕ
unfolding encode_body frame_header
serialize_frame f = let b = encode_body f in concat_bytes (frame_header b ∷ b.payload ∷ [])
