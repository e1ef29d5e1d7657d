-- ===== src/Connection/State.antt =====
-- web/src/h2/connection.ts: the state of `H2Connection`, its constructor, and what it writes.
use grpc_bridge.Prelude.{
  ℕ, ◌-◌, Bool, true, false, not, ◌&&◌, ◌||◌, Option, none, some, List, [], ◌∷◌, ◌++◌, ltb, leb,
  if◌then◌else◌,
}
use grpc_bridge.Prelude.Int.{pos}
use grpc_bridge.Text.{Text, text}
use grpc_bridge.Errors.{Error, Result, ok, err, range_error}
use grpc_bridge.Flow.{SendWindow, send_window}
use grpc_bridge.Frames.Types.{Frame, settings_frame, window_update_frame, default_max_frame_size}
use grpc_bridge.Frames.Decoder.{FrameDecoder, frame_decoder}
use grpc_bridge.Hpack.Table.{HpackDecoder, hpack_decoder}
use grpc_bridge.Stream.Head.{Record}
use grpc_bridge.Stream.State.{H2Stream}
use grpc_bridge.Connection.Streams.{Streams}

-- `CONNECTION_PREFACE`.
abbrev pub connection_preface : Text
connection_preface =
    text "PRI * HTTP/2.0" ++ 13 ∷ 10 ∷ 13 ∷ 10 ∷ [] ++ text "SM" ++ 13 ∷ 10 ∷ 13 ∷ 10 ∷ []

abbrev pub spec_initial_window : ℕ
spec_initial_window = 65535

abbrev pub max_header_block_size : ℕ
max_header_block_size = 1048576

abbrev pub default_max_header_list_bytes : ℕ
default_max_header_list_bytes = 65536

abbrev pub default_max_header_count : ℕ
default_max_header_count = 256

pub data BlockKind : Type 0 where
  response_block : BlockKind
  push_block : ℕ → BlockKind  -- with `promisedStreamId`

pub record PendingHeaderBlock : Type 0 where
  pub stream_id : ℕ
  pub kind : BlockKind
  pub end_stream : Bool
  pub fragments : List (List ℕ)
  pub size : ℕ

pub record RemoteSettings : Type 0 where
  pub initial_window_size : ℕ
  pub max_frame_size : ℕ
  pub header_table_size : ℕ
  pub enable_push : Bool
  pub max_concurrent_streams : Option ℕ  -- none is Infinity

-- A ping that waits, under its key.
pub record PingWaiter : Type 0 where
  pub key : Text
  pub sent_at : ℕ

-- How the promise of a ping was settled.
pub data PingResult : Type 0 where
  answered : Text → ℕ → PingResult  -- the key, and the round-trip time
  failed : Text → Error → PingResult

pub record PushedRequest : Type 0 where
  pub promised_id : ℕ
  pub method : Text
  pub path : Text
  pub authority : Text
  pub scheme : Text
  pub headers : Record

-- `on_push` says whether there is a handler. The fields from `sent` on are the model's own: the
-- frames handed to the writer, in order; the `close()` calls that wait for their GOAWAY to be
-- written; the streams that left the map, whose bodies a reader may still hold, newest first; the
-- settled pings, the handler's calls, and the number of the next parked request.
pub record H2Connection : Type 0 where
  pub decoder : HpackDecoder
  pub frame_decoder : FrameDecoder
  pub on_push : Bool
  pub streams : Streams
  pub next_stream_id : ℕ
  pub conn_send_window : SendWindow
  pub local_initial_window : ℕ
  pub conn_recv_window : ℕ
  pub conn_recv_available : ℕ
  pub remote : RemoteSettings
  pub slot_waiters : List ℕ
  pub pending_header_block : Option PendingHeaderBlock
  pub pings : List PingWaiter
  pub ping_counter : ℕ
  pub closed_flag : Bool
  pub close_error : Option Error
  pub goaway_received : Bool
  pub highest_promised : ℕ
  pub sent : List Frame
  pub closing : ℕ
  pub detached : List H2Stream
  pub ping_results : List PingResult
  pub pushed : List PushedRequest
  pub next_ticket : ℕ

-- `send`. The bytes of the frames are `serialize_frame`'s.
unfoldable pub send : H2Connection → Frame → H2Connection
send c f = if c.closed_flag then c else record c { sent = c.sent ++ f ∷ [] }

-- What `ConnectOptions` has for the modelled code, with the defaults put in.
pub record LocalSettings : Type 0 where
  pub header_table_size : ℕ
  pub enable_push : Bool
  pub initial_window_size : ℕ
  pub max_frame_size : ℕ
  pub connection_window_size : ℕ
  pub on_push : Bool

abbrev pub default_settings : LocalSettings
default_settings = record {
  header_table_size = 4096;
  enable_push = true;
  initial_window_size = 1048576;
  max_frame_size = default_max_frame_size;
  connection_window_size = 67108864;
  on_push = false;
}

abbrev pub valid_window : ℕ → Bool
valid_window value = leb value 0x7fffffff

abbrev pub valid_connection_window : ℕ → Bool
valid_connection_window value = leb spec_initial_window value && leb value 0x7fffffff

abbrev initial_remote : RemoteSettings
initial_remote = record {
  initial_window_size = spec_initial_window;
  max_frame_size = default_max_frame_size;
  header_table_size = 4096;
  enable_push = true;
  max_concurrent_streams = none;
}

-- The fields before anything is written.
abbrev pub new_connection : LocalSettings → H2Connection
new_connection s = record {
  decoder = hpack_decoder s.header_table_size;
  frame_decoder = frame_decoder s.max_frame_size;
  on_push = s.on_push;
  streams = [];
  next_stream_id = 1;
  conn_send_window = send_window (pos spec_initial_window);
  local_initial_window = s.initial_window_size;
  conn_recv_window = s.connection_window_size;
  conn_recv_available = s.connection_window_size;
  remote = initial_remote;
  slot_waiters = [];
  pending_header_block = none;
  pings = [];
  ping_counter = 0;
  closed_flag = false;
  close_error = none;
  goaway_received = false;
  highest_promised = 0;
  sent = [];
  closing = 0;
  detached = [];
  ping_results = [];
  pushed = [];
  next_ticket = 0;
}

-- The SETTINGS frame of the constructor.
abbrev pub local_settings_frame : LocalSettings → Frame
local_settings_frame s = settings_frame (record {
  ack = false;
  settings = record {
    header_table_size = some s.header_table_size;
    enable_push = some s.enable_push;
    max_concurrent_streams = none;
    initial_window_size = some s.initial_window_size;
    max_frame_size = some s.max_frame_size;
    max_header_list_size = some default_max_header_list_bytes;
  };
})

abbrev pub window_update : ℕ → ℕ → Frame
window_update stream_id n =
    window_update_frame (record { stream_id = stream_id; window_size_increment = n })

-- The constructor behind its checks; the preface goes out in front of `sent`.
unfoldable pub started : LocalSettings → H2Connection
unfolding send
started s =
    let c = send (new_connection s) (local_settings_frame s) in
    let conn_grow = s.connection_window_size - spec_initial_window in
    if ltb 0 conn_grow then send c (window_update 0 conn_grow) else c

unfoldable pub h2_connection : LocalSettings → Result H2Connection
unfolding started
h2_connection s =
    if not (valid_window s.initial_window_size)
      || not (valid_connection_window s.connection_window_size)
    then err range_error
    else ok (started s)
