-- ===== src/Frames/Types.antt =====
-- web/src/h2/frames/types.ts: the frames of RFC 7540 §6. A field named `data` is `bytes` here.
use grpc_bridge.Prelude.{ℕ, Bool, Option, none, List}

abbrev pub frame_header_size : ℕ
frame_header_size = 9

abbrev pub default_max_frame_size : ℕ
default_max_frame_size = 16384

-- `FrameType`.
abbrev pub data_type : ℕ
data_type = 0x0

abbrev pub headers_type : ℕ
headers_type = 0x1

abbrev pub priority_type : ℕ
priority_type = 0x2

abbrev pub rst_stream_type : ℕ
rst_stream_type = 0x3

abbrev pub settings_type : ℕ
settings_type = 0x4

abbrev pub push_promise_type : ℕ
push_promise_type = 0x5

abbrev pub ping_type : ℕ
ping_type = 0x6

abbrev pub goaway_type : ℕ
goaway_type = 0x7

abbrev pub window_update_type : ℕ
window_update_type = 0x8

abbrev pub continuation_type : ℕ
continuation_type = 0x9

-- `Flags`.
abbrev pub data_end_stream_flag : ℕ
data_end_stream_flag = 0x1

abbrev pub data_padded_flag : ℕ
data_padded_flag = 0x8

abbrev pub headers_end_stream_flag : ℕ
headers_end_stream_flag = 0x1

abbrev pub headers_end_headers_flag : ℕ
headers_end_headers_flag = 0x4

abbrev pub headers_padded_flag : ℕ
headers_padded_flag = 0x8

abbrev pub headers_priority_flag : ℕ
headers_priority_flag = 0x20

abbrev pub settings_ack_flag : ℕ
settings_ack_flag = 0x1

abbrev pub ping_ack_flag : ℕ
ping_ack_flag = 0x1

abbrev pub push_promise_end_headers_flag : ℕ
push_promise_end_headers_flag = 0x4

abbrev pub push_promise_padded_flag : ℕ
push_promise_padded_flag = 0x8

abbrev pub continuation_end_headers_flag : ℕ
continuation_end_headers_flag = 0x4

pub record Settings : Type 0 where
  pub header_table_size : Option ℕ
  pub enable_push : Option Bool
  pub max_concurrent_streams : Option ℕ
  pub initial_window_size : Option ℕ
  pub max_frame_size : Option ℕ
  pub max_header_list_size : Option ℕ

abbrev pub no_settings : Settings
no_settings = record {
  header_table_size = none;
  enable_push = none;
  max_concurrent_streams = none;
  initial_window_size = none;
  max_frame_size = none;
  max_header_list_size = none;
}

pub record Priority : Type 0 where
  pub stream_dependency : ℕ
  pub weight : ℕ  -- 1 to 256
  pub exclusive : Bool

pub record DataFrame : Type 0 where
  pub stream_id : ℕ
  pub bytes : List ℕ
  pub flow_controlled_length : Option ℕ
  pub end_stream : Bool

pub record HeadersFrame : Type 0 where
  pub stream_id : ℕ
  pub header_block_fragment : List ℕ
  pub end_stream : Bool
  pub end_headers : Bool
  pub priority : Option Priority

pub record PriorityFrame : Type 0 where
  pub stream_id : ℕ
  pub priority : Priority

pub record RstStreamFrame : Type 0 where
  pub stream_id : ℕ
  pub error_code : ℕ

-- The stream id of SETTINGS, PING and GOAWAY is 0 by its type, and has no field.
pub record SettingsFrame : Type 0 where
  pub ack : Bool
  pub settings : Settings

pub record PushPromiseFrame : Type 0 where
  pub stream_id : ℕ
  pub promised_stream_id : ℕ
  pub header_block_fragment : List ℕ
  pub end_headers : Bool

pub record PingFrame : Type 0 where
  pub ack : Bool
  pub opaque_data : List ℕ

pub record GoawayFrame : Type 0 where
  pub last_stream_id : ℕ
  pub error_code : ℕ
  pub debug_data : List ℕ

pub record WindowUpdateFrame : Type 0 where
  pub stream_id : ℕ
  pub window_size_increment : ℕ

pub record ContinuationFrame : Type 0 where
  pub stream_id : ℕ
  pub header_block_fragment : List ℕ
  pub end_headers : Bool

pub data Frame : Type 0 where
  data_frame : DataFrame → Frame
  headers_frame : HeadersFrame → Frame
  priority_frame : PriorityFrame → Frame
  rst_stream_frame : RstStreamFrame → Frame
  settings_frame : SettingsFrame → Frame
  push_promise_frame : PushPromiseFrame → Frame
  ping_frame : PingFrame → Frame
  goaway_frame : GoawayFrame → Frame
  window_update_frame : WindowUpdateFrame → Frame
  continuation_frame : ContinuationFrame → Frame
