-- ===== src/Frames/Parse.antt =====
-- web/src/h2/frames/codec.ts: `readPadded` and `parsePayload`.
use Prim.Native.Nat.{bit_and}
use grpc_bridge.Prelude.{
  ℕ, zero, suc, ◌+◌, ◌-◌, ◌/◌, ◌%◌, Bool, true, false, not, ◌&&◌, Option, none, some, List, length,
  ltb, leb, ◌==◌, if◌then◌else◌,
}
use grpc_bridge.Frames.Types.{
  data_type, headers_type, priority_type, rst_stream_type, settings_type, push_promise_type,
  ping_type, goaway_type, window_update_type, continuation_type, data_end_stream_flag,
  data_padded_flag, headers_end_stream_flag, headers_end_headers_flag, headers_padded_flag,
  headers_priority_flag, settings_ack_flag, ping_ack_flag, push_promise_end_headers_flag,
  push_promise_padded_flag, continuation_end_headers_flag, Settings, no_settings, Priority, Frame,
  data_frame, headers_frame, priority_frame, rst_stream_frame, settings_frame, push_promise_frame,
  ping_frame, goaway_frame, window_update_frame, continuation_frame,
}
use grpc_bridge.Frames.Encode.{low_31_bits}
use grpc_bridge.Bytes.{ByteReader, byte_reader, read_u8, read_u16, read_u32, read_bytes}
use grpc_bridge.Errors.{
  Result, ok, err, ◌>>=◌, connection_failure, stream_failure, unknown_frame_type, protocol_error,
  frame_size_error,
}

-- `(flags & flag) !== 0`.
abbrev pub has_flag : ℕ → ℕ → Bool
has_flag flags flag = not (bit_and flags flag == 0)

unfoldable pub read_padded : ByteReader → ℕ → Bool → Result (List ℕ × ByteReader)
read_padded r len false = read_bytes len r
read_padded r len true = do
  (pad_length, r1) ← read_u8 r
  if ltb len (1 + pad_length) then err (connection_failure protocol_error) else (do
    (bytes, r2) ← read_bytes (len - 1 - pad_length) r1
    (_, r3) ← read_bytes pad_length r2
    ok (bytes, r3))

-- `padded ? r.u8() : 0`.
unfoldable pub read_pad_length : Bool → ByteReader → Result (ℕ × ByteReader)
read_pad_length false r = ok (0, r)
read_pad_length true r = read_u8 r

-- The five bytes of a priority. `(dep & 0x80000000) !== 0` asks for the top bit.
unfoldable pub read_priority : ByteReader → Result (Priority × ByteReader)
read_priority r = do
  (dep, r1) ← read_u32 r
  (weight, r2) ← read_u8 r1
  ok (
    record {
      stream_dependency = low_31_bits dep;
      weight = weight + 1;
      exclusive = leb 2147483648 dep;
    },
    r2,
  )

unfoldable pub read_headers_priority : Bool → ByteReader → Result (Option Priority × ByteReader)
unfolding read_priority
read_headers_priority false r = ok (none, r)
read_headers_priority true r = do (p, r1) ← read_priority r; ok (some p, r1)

-- The `switch (id)` of the settings loop; an unknown id is ignored.
unfoldable pub apply_setting : Settings → ℕ → ℕ → Settings
apply_setting s id value =
    if id == 0x1
    then record s { header_table_size = some value }
    else if id == 0x2
    then record s { enable_push = some (not (value == 0)) }
    else if id == 0x3
    then record s { max_concurrent_streams = some value }
    else if id == 0x4
    then record s { initial_window_size = some value }
    else if id == 0x5
    then record s { max_frame_size = some value }
    else if id == 0x6
    then record s { max_header_list_size = some value }
    else s

-- `for (let i = 0; i < len / 6; i++)`, by the rounds left.
unfoldable pub parse_settings : ℕ → ByteReader → Settings → Result Settings
unfolding apply_setting
parse_settings zero r s = ok s
parse_settings (suc n) r s = do
  (id, r1) ← read_u16 r
  (value, r2) ← read_u32 r1
  parse_settings n r2 (apply_setting s id value)

unfoldable pub parse_data : ℕ → ℕ → List ℕ → Result Frame
unfolding read_padded
parse_data flags stream_id payload = do
  (bytes, _) ← read_padded (byte_reader payload) (length payload) (has_flag flags data_padded_flag)
  ok (
      data_frame (record {
        stream_id = stream_id;
        bytes = bytes;
        flow_controlled_length = some (length payload);
        end_stream = has_flag flags data_end_stream_flag;
      }))

unfoldable pub parse_headers : ℕ → ℕ → List ℕ → Result Frame
unfolding read_pad_length read_headers_priority
parse_headers flags stream_id payload = do
  let padded = has_flag flags headers_padded_flag
  let prioritized = has_flag flags headers_priority_flag
  (pad_length, r1) ← read_pad_length padded (byte_reader payload)
  (priority, r2) ← read_headers_priority prioritized r1
  let used = (if padded then 1 else 0) + (if prioritized then 5 else 0) + pad_length
  if ltb (length payload) used then err (connection_failure protocol_error) else (do
    (fragment, _) ← read_bytes (length payload - used) r2
    ok (
        headers_frame (record {
          stream_id = stream_id;
          header_block_fragment = fragment;
          end_stream = has_flag flags headers_end_stream_flag;
          end_headers = has_flag flags headers_end_headers_flag;
          priority = priority;
        })))

unfoldable pub parse_push_promise : ℕ → ℕ → List ℕ → Result Frame
unfolding read_pad_length
parse_push_promise flags stream_id payload = do
  let padded = has_flag flags push_promise_padded_flag
  (pad_length, r1) ← read_pad_length padded (byte_reader payload)
  (promised, r2) ← read_u32 r1
  let used = (if padded then 1 else 0) + 4 + pad_length
  if ltb (length payload) used then err (connection_failure protocol_error) else (do
    (fragment, _) ← read_bytes (length payload - used) r2
    ok (
        push_promise_frame (record {
          stream_id = stream_id;
          promised_stream_id = low_31_bits promised;
          header_block_fragment = fragment;
          end_headers = has_flag flags push_promise_end_headers_flag;
        })))

unfoldable pub parse_priority : ℕ → List ℕ → Result Frame
unfolding read_priority
parse_priority stream_id payload =
    if length payload == 5
    then (do
      (p, _) ← read_priority (byte_reader payload)
      ok (priority_frame (record { stream_id = stream_id; priority = p })))
    else err (stream_failure frame_size_error (some stream_id))

unfoldable pub parse_rst_stream : ℕ → List ℕ → Result Frame
parse_rst_stream stream_id payload =
    if length payload == 4
    then (do
      (code, _) ← read_u32 (byte_reader payload)
      ok (rst_stream_frame (record { stream_id = stream_id; error_code = code })))
    else err (connection_failure frame_size_error)

unfoldable pub parse_settings_frame : ℕ → List ℕ → Result Frame
unfolding parse_settings
parse_settings_frame flags payload =
    let ack = has_flag flags settings_ack_flag in
    if ack && not (length payload == 0)
    then err (connection_failure frame_size_error)
    else if not (length payload % 6 == 0)
    then err (connection_failure frame_size_error)
    else (do
      s ← parse_settings (length payload / 6) (byte_reader payload) no_settings
      ok (settings_frame (record { ack = ack; settings = s })))

unfoldable pub parse_ping : ℕ → List ℕ → Result Frame
parse_ping flags payload =
    if length payload == 8
    then (do
      (opaque_data, _) ← read_bytes 8 (byte_reader payload)
      ok (ping_frame (record { ack = has_flag flags ping_ack_flag; opaque_data = opaque_data })))
    else err (connection_failure frame_size_error)

unfoldable pub parse_goaway : List ℕ → Result Frame
parse_goaway payload =
    if ltb (length payload) 8 then err (connection_failure frame_size_error) else (do
      (last_id, r1) ← read_u32 (byte_reader payload)
      (code, r2) ← read_u32 r1
      (debug_data, _) ← read_bytes (length payload - 8) r2
      ok (
          goaway_frame (record {
            last_stream_id = low_31_bits last_id;
            error_code = code;
            debug_data = debug_data;
          })))

unfoldable pub parse_window_update : ℕ → List ℕ → Result Frame
parse_window_update stream_id payload =
    if length payload == 4
    then (do
      (increment, _) ← read_u32 (byte_reader payload)
      ok (
          window_update_frame
            (record { stream_id = stream_id; window_size_increment = low_31_bits increment })))
    else err (connection_failure frame_size_error)

unfoldable pub parse_continuation : ℕ → ℕ → List ℕ → Result Frame
parse_continuation flags stream_id payload = do
  (fragment, _) ← read_bytes (length payload) (byte_reader payload)
  ok (
      continuation_frame (record {
        stream_id = stream_id;
        header_block_fragment = fragment;
        end_headers = has_flag flags continuation_end_headers_flag;
      }))

-- `switch (typeId)`.
unfoldable pub parse_payload : ℕ → ℕ → ℕ → List ℕ → Result Frame
parse_payload type_id flags stream_id payload =
    if type_id == data_type
    then parse_data flags stream_id payload
    else if type_id == headers_type
    then parse_headers flags stream_id payload
    else if type_id == priority_type
    then parse_priority stream_id payload
    else if type_id == rst_stream_type
    then parse_rst_stream stream_id payload
    else if type_id == settings_type
    then parse_settings_frame flags payload
    else if type_id == push_promise_type
    then parse_push_promise flags stream_id payload
    else if type_id == ping_type
    then parse_ping flags payload
    else if type_id == goaway_type
    then parse_goaway payload
    else if type_id == window_update_type
    then parse_window_update stream_id payload
    else if type_id == continuation_type
    then parse_continuation flags stream_id payload
    else err (unknown_frame_type type_id)
