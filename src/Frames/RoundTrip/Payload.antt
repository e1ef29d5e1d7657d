-- ===== src/Frames/RoundTrip/Payload.antt =====
-- parsePayload on what encodeBody made, one frame type after the other.
use grpc_bridge.Prelude.{
  ◌⊎◌, inl, inr, ℕ, ◌+◌, ◌-◌, ◌%◌, ◌≤◌, ◌<◌, ◌≡◌, refl, ap, Bool, true, false, Option, none, some,
  List, [], ◌++◌, length, ltb, leb, ◌==◌, if◌then◌else◌, take_all, append-nil, arith,
}
use grpc_bridge.Frames.Types.{
  Settings, no_settings, Priority, DataFrame, PriorityFrame, RstStreamFrame, PushPromiseFrame,
  PingFrame, GoawayFrame, WindowUpdateFrame, ContinuationFrame, Frame, data_frame, headers_frame,
  priority_frame, rst_stream_frame, settings_frame, push_promise_frame, ping_frame, goaway_frame,
  window_update_frame, continuation_frame,
}
use grpc_bridge.Bytes.{ByteReader, byte_reader, read_u32, read_bytes}
use grpc_bridge.Bytes.Written.{u32_bytes}
use grpc_bridge.Bytes.Reader.{At, byte_reader-At, read_u8-At, read_u32-At, read_bytes-At}
use grpc_bridge.Frames.Encode.{low_31_bits, flag_value, encode_body}
use grpc_bridge.Frames.Encode.Payload.{
  priority_word, priority_bytes, priority_payload, u32_payload, promise_payload, goaway_payload,
  settings_payload, settings_bytes,
}
use grpc_bridge.Frames.Parse.{
  parse_settings, has_flag, read_priority, parse_data, parse_priority, parse_rst_stream,
  parse_settings_frame, parse_push_promise, parse_ping, parse_goaway, parse_window_update,
  parse_continuation, parse_payload,
}
use grpc_bridge.Frames.RoundTrip.Settings.{FitSettings, parse_settings-settings_bytes}
use grpc_bridge.Errors.{ok}

abbrev pub IsStreamId : ℕ → Type 0
IsStreamId n = n < 2147483648

pub record FitPriority (p : Priority) : Type 0 where
  pub dependency : p.stream_dependency < 2147483648
  pub light : 1 ≤ p.weight
  pub heavy : p.weight ≤ 256

abbrev pub FitOption : Option Priority → Type 0
FitOption none = Unit {0}
FitOption (some p) = FitPriority p

-- The values that the wire can carry.
abbrev pub Fits : Frame → Type 0
Fits (data_frame f) = IsStreamId f.stream_id
Fits (headers_frame f) = IsStreamId f.stream_id × FitOption f.priority
Fits (priority_frame f) = IsStreamId f.stream_id × FitPriority f.priority
Fits (rst_stream_frame f) = IsStreamId f.stream_id × (f.error_code < 4294967296)
Fits (settings_frame f) = FitSettings f.settings × ((f.ack ≡ false) ⊎ (f.settings ≡ no_settings))
Fits (push_promise_frame f) = IsStreamId f.stream_id × IsStreamId f.promised_stream_id
Fits (ping_frame f) = length f.opaque_data ≡ 8
Fits (goaway_frame f) = IsStreamId f.last_stream_id × (f.error_code < 4294967296)
Fits (window_update_frame f) = IsStreamId f.stream_id × (f.window_size_increment < 2147483648)
Fits (continuation_frame f) = IsStreamId f.stream_id

-- What the receiver sees of a frame: DATA comes with the length that counts for flow control.
abbrev pub received : Frame → Frame
received (data_frame f) = data_frame (record f { flow_controlled_length = some (length f.bytes) })
received f = f

priority_back : Priority → Priority
priority_back p = record {
  stream_dependency = low_31_bits (priority_word p);
  weight = (p.weight + 255) % 256 % 256 + 1;
  exclusive = leb 2147483648 (priority_word p);
}

priority_back_same : (p : Priority) → FitPriority p → priority_back p ≡ p
unfolding priority_back
priority_back_same p f = ground arith

priority_word_small : (p : Priority) → priority_word p < 4294967296
priority_word_small p = ground arith

pub read_priority-At :
    (r : ByteReader) (p : Priority) (rest : List ℕ)
    → FitPriority p
    → At r (priority_bytes p ++ rest)
    → (r' : ByteReader) × (read_priority r ≡ ok (p, r')) × At r' rest
unfolding read_priority priority_back
read_priority-At r p rest f a =
    let (r1, e1, a1) = read_u32-At r (priority_word p) _ (priority_word_small p) a in
    let (r2, e2, a2) = read_u8-At r1 ((p.weight + 255) % 256 % 256) rest a1 in
    (r2, rw (e1, e2) (ap (λ (q : Priority). ok (q, r2)) (priority_back_same p f)), a2)

-- The flags that each encoder sets, as its parser reads them.
abbrev end_flag : Bool → ℕ → ℕ
end_flag b flag = if b then flag else 0

one_flag : (b : Bool) → has_flag (end_flag b 0x1) 0x1 ≡ b
one_flag true = refl
one_flag false = refl

one_not_padded : (b : Bool) → has_flag (end_flag b 0x1) 0x8 ≡ false
one_not_padded true = refl
one_not_padded false = refl

four_flag : (b : Bool) → has_flag (end_flag b 0x4) 0x4 ≡ b
four_flag true = refl
four_flag false = refl

four_not_padded : (b : Bool) → has_flag (end_flag b 0x4) 0x8 ≡ false
four_not_padded true = refl
four_not_padded false = refl

-- A payload with no padding is its own data.
pub read_all :
    (xs : List ℕ)
    → read_bytes (length xs) (byte_reader xs) ≡ ok (xs, record { buf = xs; cursor = 0 + length xs })
unfolding read_bytes byte_reader
read_all xs = rw (take_all (length xs) xs (omega arith))

-- The parser undoes the encoder on `f`.
abbrev pub Returns : Frame → Type 0
Returns f =
    let b = encode_body f in parse_payload b.type_id b.flags b.stream_id b.payload ≡ ok (received f)

pub data_Returns : (f : DataFrame) → Returns (data_frame f)
unfolding encode_body parse_payload parse_data
data_Returns f = rw (one_not_padded f.end_stream, read_all f.bytes, one_flag f.end_stream)

pub continuation_Returns : (f : ContinuationFrame) → Returns (continuation_frame f)
unfolding encode_body parse_payload parse_continuation
continuation_Returns f = rw (read_all f.header_block_fragment, four_flag f.end_headers)

pub ping_Returns : (f : PingFrame) → length f.opaque_data ≡ 8 → Returns (ping_frame f)
unfolding encode_body parse_payload parse_ping
ping_Returns f e =
    let is_eight : (length f.opaque_data == 8) ≡ true = ground arith in
    rw (is_eight, is_eight, rw e at (read_all f.opaque_data), one_flag f.ack)

u32_whole :
    (n : ℕ) → n < 4294967296 → (r : ByteReader) × (read_u32 (byte_reader (u32_bytes n)) ≡ ok (n, r))
u32_whole n h =
    let (r, e, _) = read_u32-At (byte_reader (u32_bytes n)) n [] h (byte_reader-At (u32_bytes n)) in
    (r, e)

pub rst_stream_Returns :
    (f : RstStreamFrame) → f.error_code < 4294967296 → Returns (rst_stream_frame f)
unfolding encode_body parse_payload parse_rst_stream
rst_stream_Returns f h = rw (u32_payload f.error_code, (u32_whole f.error_code h).1)

pub window_update_Returns :
    (f : WindowUpdateFrame) → f.window_size_increment < 2147483648 → Returns (window_update_frame f)
unfolding encode_body parse_payload parse_window_update
window_update_Returns f h =
    let n = low_31_bits f.window_size_increment in
    let same : low_31_bits n ≡ f.window_size_increment = omega arith in
    rw (u32_payload n, (u32_whole n (omega arith)).1, same)

pub priority_Returns : (f : PriorityFrame) → FitPriority f.priority → Returns (priority_frame f)
unfolding encode_body parse_payload parse_priority
priority_Returns f h =
    let (r, e, _) =
      read_priority-At (byte_reader (priority_bytes f.priority)) f.priority [] h
        (rw append-nil (byte_reader-At (priority_bytes f.priority))) in
    rw (priority_payload f.priority, e)

pub settings_Returns :
    (ack : Bool) (s : Settings)
    → FitSettings s
    → (ack ≡ false) ⊎ (s ≡ no_settings)
    → Returns (settings_frame (record { ack = ack; settings = s }))
unfolding encode_body parse_payload parse_settings_frame
settings_Returns false s h only =
    let (whole, e) = parse_settings-settings_bytes s h in
    let no_rest : (length (settings_bytes s) % 6 == 0) ≡ true = ground arith in
    rw (settings_payload s, no_rest, e)
settings_Returns true s h (inl e) = absurd (ground arith)
settings_Returns true s h (inr empty) =
    rw (empty, settings_payload no_settings) (unfold flag_value parse_settings byte_reader in refl)

pub read_rest :
    (r : ByteReader) (n : ℕ) (rest : List ℕ)
    → At r rest
    → length rest ≡ n
    → (r' : ByteReader) × (read_bytes n r ≡ ok (rest, r'))
read_rest r n rest a h = let (r', e, _) = read_bytes-At r n rest [] h (rw append-nil a) in (r', e)

pub goaway_Returns :
    (f : GoawayFrame)
    → IsStreamId f.last_stream_id
    → f.error_code < 4294967296
    → Returns (goaway_frame f)
unfolding encode_body parse_payload parse_goaway
goaway_Returns f h k =
    let id = low_31_bits f.last_stream_id in
    let same : low_31_bits id ≡ f.last_stream_id = omega arith in
    let payload = u32_bytes id ++ (u32_bytes f.error_code ++ f.debug_data) in
    let long : ltb (length payload) 8 ≡ false = ground arith in
    let (r1, e1, a1) =
      read_u32-At (byte_reader payload) id _ (omega arith) (byte_reader-At payload) in
    let (r2, e2, a2) = read_u32-At r1 f.error_code f.debug_data k a1 in
    let (r3, e3) = read_rest r2 (length payload - 8) f.debug_data a2 (omega arith) in
    rw (goaway_payload id f.error_code f.debug_data, long, e1, e2, e3, same)

pub push_promise_Returns :
    (f : PushPromiseFrame) → IsStreamId f.promised_stream_id → Returns (push_promise_frame f)
unfolding encode_body parse_payload parse_push_promise
push_promise_Returns f h =
    let id = low_31_bits f.promised_stream_id in
    let same : low_31_bits id ≡ f.promised_stream_id = omega arith in
    let payload = u32_bytes id ++ f.header_block_fragment in
    let long : ltb (length payload) 4 ≡ false = ground arith in
    let (r1, e1, a1) =
      read_u32-At (byte_reader payload) id _ (omega arith) (byte_reader-At payload) in
    let (r2, e2) = read_rest r1 (length payload - 4) f.header_block_fragment a1 (omega arith) in
    rw (
      promise_payload id f.header_block_fragment,
      four_not_padded f.end_headers,
      e1,
      long,
      e2,
      same,
      four_flag f.end_headers,
    )
