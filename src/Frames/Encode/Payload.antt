-- ===== src/Frames/Encode/Payload.antt =====
-- What the encoders write, as lists of bytes.
use grpc_bridge.Prelude.{
  ℕ, ◌+◌, ◌/◌, ◌%◌, ◌≡◌, sym, ◌∙◌, Option, none, some, List, [], ◌∷◌, ◌++◌, length, if◌then◌else◌,
  append_assoc, append-nil, arith,
}
use grpc_bridge.Frames.Types.{Settings, Priority, frame_header_size}
use grpc_bridge.Bytes.{ByteWriter, byte_writer, put_u32, put_bytes, written}
use grpc_bridge.Bytes.Written.{
  u32_bytes, Writes, byte_writer-Writes, put_u8-Writes, put_u16-Writes, put_u24-Writes,
  put_u32-Writes, put_bytes-Writes,
}
use grpc_bridge.Frames.Encode.{
  low_31_bits, Body, put_priority, put_setting, flag_value, put_settings, frame_header,
}

abbrev pub priority_word : Priority → ℕ
priority_word p =
    if p.exclusive
    then low_31_bits p.stream_dependency + 2147483648
    else low_31_bits p.stream_dependency

abbrev pub priority_bytes : Priority → List ℕ
priority_bytes p = u32_bytes (priority_word p) ++ (p.weight + 255) % 256 % 256 ∷ []

put_priority-Writes :
    (w : ByteWriter) {bs : List ℕ} (p : Priority)
    → Writes w bs
    → Writes (put_priority w p) (bs ++ priority_bytes p)
unfolding put_priority
put_priority-Writes w {bs} p h =
    let (e, v) = put_u8-Writes _ ((p.weight + 255) % 256) (put_u32-Writes w (priority_word p) h) in
    (e ∙ append_assoc bs (u32_bytes (priority_word p)) _, v)

pub priority_payload : (p : Priority) → written (put_priority (byte_writer 5) p) ≡ priority_bytes p
priority_payload p = (put_priority-Writes (byte_writer 5) p (byte_writer-Writes 5 (omega arith))).0

pub prioritized_payload :
    (p : Priority) (fragment : List ℕ)
    → written (put_bytes (put_priority (byte_writer (5 + length fragment)) p) fragment)
      ≡ priority_bytes p ++ fragment
prioritized_payload p fragment =
    (put_bytes-Writes _ fragment
      (put_priority-Writes _ p (byte_writer-Writes (5 + length fragment) (omega arith)))).0

pub u32_payload : (n : ℕ) → written (put_u32 (byte_writer 4) n) ≡ u32_bytes n
u32_payload n = (put_u32-Writes _ n (byte_writer-Writes 4 (omega arith))).0

pub promise_payload :
    (id : ℕ) (fragment : List ℕ)
    → written (put_bytes (put_u32 (byte_writer (4 + length fragment)) id) fragment)
      ≡ u32_bytes id ++ fragment
promise_payload id fragment =
    (put_bytes-Writes _ fragment
      (put_u32-Writes _ id (byte_writer-Writes (4 + length fragment) (omega arith)))).0

pub goaway_payload :
    (id code : ℕ) (debug : List ℕ)
    → written (put_bytes (put_u32 (put_u32 (byte_writer (8 + length debug)) id) code) debug)
      ≡ u32_bytes id ++ (u32_bytes code ++ debug)
goaway_payload id code debug =
    (put_bytes-Writes _ debug (
      put_u32-Writes _ code
        (put_u32-Writes _ id (byte_writer-Writes (8 + length debug) (omega arith))))).0

-- A setting that is present, as its six bytes.
abbrev pub setting_bytes : ℕ → Option ℕ → List ℕ
setting_bytes id none = []
setting_bytes id (some value) = id / 256 % 256 ∷ id % 256 ∷ u32_bytes value

put_setting-Writes :
    (w : ByteWriter) {bs : List ℕ} (id : ℕ) (o : Option ℕ)
    → Writes w bs
    → Writes (put_setting w id o) (bs ++ setting_bytes id o)
unfolding put_setting
put_setting-Writes w {bs} id none (e, v) = (e ∙ sym (append-nil bs), v)
put_setting-Writes w {bs} id (some value) h =
    let (e, v) = put_u32-Writes _ value (put_u16-Writes w id h) in
    (e ∙ append_assoc bs (id / 256 % 256 ∷ id % 256 ∷ []) (u32_bytes value), v)

abbrev pub settings_bytes : Settings → List ℕ
settings_bytes s =
    setting_bytes 0x1 s.header_table_size
    ++ (setting_bytes 0x2 (flag_value s.enable_push)
        ++ (setting_bytes 0x3 s.max_concurrent_streams
            ++ (setting_bytes 0x4 s.initial_window_size
                ++ (setting_bytes 0x5 s.max_frame_size
                    ++ setting_bytes 0x6 s.max_header_list_size))))

pub settings_payload : (s : Settings) → written (put_settings (byte_writer 48) s) ≡ settings_bytes s
unfolding put_settings
settings_payload s =
    (put_setting-Writes _ 0x6 s.max_header_list_size (
      put_setting-Writes _ 0x5 s.max_frame_size (
        put_setting-Writes _ 0x4 s.initial_window_size (
          put_setting-Writes _ 0x3 s.max_concurrent_streams (
            put_setting-Writes _ 0x2 (flag_value s.enable_push) (
              put_setting-Writes _ 0x1 s.header_table_size
                (byte_writer-Writes 48 (omega arith)))))))).0
    ∙ simp append_assoc

pub frame_header_lem :
    (b : Body)
    → frame_header b
      ≡ length b.payload / 65536 % 256
        ∷ length b.payload / 256 % 256
        ∷ length b.payload % 256
        ∷ b.type_id % 256
        ∷ b.flags % 256
        ∷ u32_bytes (low_31_bits b.stream_id)
unfolding frame_header
frame_header_lem b =
    (put_u32-Writes _ (low_31_bits b.stream_id) (
      put_u8-Writes _ b.flags (
        put_u8-Writes _ b.type_id (
          put_u24-Writes _ (length b.payload)
            (byte_writer-Writes frame_header_size (omega arith)))))).0
