-- ===== src/Connection/Receive.antt =====
-- web/src/h2/connection.ts: `dispatch` and `onBytes`.
pub mod Sizes
pub mod Excluded
use grpc_bridge.Prelude.{
  ℕ, ◌+◌, ◌-◌, ◌%◌, ◌*◌, ◌/◌, Bool, true, false, not, ◌&&◌, ◌||◌, Option, none, some, List, [], ◌∷◌,
  ◌++◌, length, ltb, leb, ◌==◌, if◌then◌else◌,
}
use grpc_bridge.Prelude.Int.{ℤ, pos, ◌-ℤ◌, ltb_ℤ, sub_ℕ}
use grpc_bridge.Text.{Text, text_eq}
use grpc_bridge.Errors.{
  Error, ErrorCode, h2, range_error, unknown_frame_type, connect_failure, abort_reason, Retry,
  refused, Result, ok, err, connection_failure, error_code_name, protocol_error, flow_control_error,
  stream_closed, no_error,
}
use grpc_bridge.Flow.{update, adjust}
use grpc_bridge.Frames.Types.{
  Frame, data_frame, headers_frame, priority_frame, rst_stream_frame, settings_frame,
  push_promise_frame, ping_frame, goaway_frame, window_update_frame, continuation_frame, DataFrame,
  RstStreamFrame, SettingsFrame, Settings, no_settings, PingFrame, GoawayFrame, WindowUpdateFrame,
}
use grpc_bridge.Frames.Decoder.{push}
use grpc_bridge.Stream.State.{H2Stream, discard_buffered, receive_data, receive_reset, fail}
use grpc_bridge.Connection.Streams.{Streams, find_stream}
use grpc_bridge.Connection.State.{
  H2Connection, PendingHeaderBlock, RemoteSettings, PingWaiter, answered, send,
}
use grpc_bridge.Connection.Teardown.{
  store, detach, rst_stream, wake_stream_slots, replenish_connection_window, replenish_recv_window,
  reset_stream, retire_if_fully_closed, destroy, connection_error,
}
use grpc_bridge.Connection.Blocks.{Outcome, on_headers, on_push_promise, on_continuation}

-- `isIdleInboundStream`.
unfoldable pub is_idle_inbound_stream : ℕ → ℕ → ℕ → Bool
is_idle_inbound_stream id next_local_stream_id highest_promised =
    if id == 0
    then true
    else if id % 2 == 1
    then leb next_local_stream_id id
    else ltb highest_promised id

-- `frame.flowControlledLength ?? frame.data.length`.
abbrev pub flow_bytes : DataFrame → ℕ
flow_bytes f = elim f.flow_controlled_length [ some n ↦ n | none ↦ length f.bytes ]

-- The bytes go to the stream, which their end may retire.
abbrev pub after_data : DataFrame → H2Stream → H2Connection → H2Connection
after_data f s c =
    let s1 = receive_data s f.bytes f.end_stream in
    if f.end_stream
    then retire_if_fully_closed f.stream_id
        (store f.stream_id (record s1 { remote_closed = true }) c)
    else store f.stream_id s1 c

-- DATA on a live stream, with the credit of the padding.
unfoldable pub take_data : DataFrame → H2Stream → H2Connection → H2Connection
unfolding replenish_recv_window receive_data retire_if_fully_closed
take_data f s c =
    let flow = flow_bytes f in
    let c1 = store f.stream_id (record s { recv_window = s.recv_window -ℤ pos flow }) c in
    let c2 = replenish_recv_window f.stream_id (flow - length f.bytes) c1 in
    elim (find_stream f.stream_id c2.streams) [ none ↦ c2 | some s2 ↦ after_data f s2 c2 ]

unfoldable pub on_data : DataFrame → H2Connection → Outcome
unfolding take_data replenish_connection_window reset_stream send is_idle_inbound_stream
on_data f c =
    let flow = flow_bytes f in
    let c1 : H2Connection = record c { conn_recv_available = c.conn_recv_available - flow } in
    if ltb c.conn_recv_available flow
    then (c, some (connection_failure flow_control_error))
    else (elim (find_stream f.stream_id c.streams) [
      | none ↦
          let c2 = replenish_connection_window flow c1 in
          if is_idle_inbound_stream f.stream_id c2.next_stream_id c2.highest_promised
          then (c2, some (connection_failure protocol_error))
          else (send c2 (rst_stream f.stream_id stream_closed), none)
      | some s ↦
          if s.remote_closed
          then (reset_stream f.stream_id stream_closed (replenish_connection_window flow c1), none)
          else if ltb_ℤ s.recv_window (pos flow)
          then (
            reset_stream f.stream_id flow_control_error (replenish_connection_window flow c1),
            none,
          )
          else (take_data f s c1, none)
    ])

unfoldable pub on_rst_stream : RstStreamFrame → H2Connection → H2Connection
unfolding replenish_connection_window discard_buffered receive_reset wake_stream_slots
on_rst_stream f c = elim (find_stream f.stream_id c.streams) [
  | none ↦ c
  | some s ↦ wake_stream_slots (
      detach f.stream_id (receive_reset (discard_buffered s).1 f.error_code)
        (replenish_connection_window (discard_buffered s).0 c))
]

unfoldable pub on_window_update : WindowUpdateFrame → H2Connection → Outcome
unfolding reset_stream update
on_window_update f c =
    if f.window_size_increment == 0
    then (if f.stream_id == 0
        then (c, some (connection_failure protocol_error))
        else (reset_stream f.stream_id protocol_error c, none))
    else if f.stream_id == 0
    then (
      record c { conn_send_window = (update c.conn_send_window f.window_size_increment).0 },
      none,
    )
    else (elim (find_stream f.stream_id c.streams) [
      | none ↦ (c, none)
      | some s ↦ (
        store f.stream_id (record s { send_side = (update s.send_side f.window_size_increment).0 })
            c,
        none,
      )
    ])

-- The windows of all streams by `adjust(delta)`.
unfoldable pub adjust_streams : ℤ → Streams → Streams
unfolding adjust
adjust_streams delta [] = []
adjust_streams delta ((id, s) ∷ m) =
    (id, record s { send_side = (adjust s.send_side delta).0 }) ∷ adjust_streams delta m

-- The parts of `applyRemoteSettings`.
unfoldable pub apply_initial_window : Option ℕ → H2Connection → Outcome
unfolding adjust_streams
apply_initial_window none c = (c, none)
apply_initial_window (some n) c =
    if ltb 0x7fffffff n then (c, some (connection_failure flow_control_error)) else (
      record c {
        remote = record c.remote { initial_window_size = n };
        streams = adjust_streams (sub_ℕ n c.remote.initial_window_size) c.streams;
      },
      none,
    )

unfoldable pub apply_max_frame_size : Option ℕ → H2Connection → Outcome
apply_max_frame_size none c = (c, none)
apply_max_frame_size (some n) c =
    if ltb n 16384 || ltb 16777215 n
    then (c, some (connection_failure protocol_error))
    else (record c { remote = record c.remote { max_frame_size = n } }, none)

abbrev keep_or {ℓ} : {A : Type ℓ} → Option A → A → A
keep_or none old = old
keep_or (some new) old = new

unfoldable pub apply_other_settings : Settings → H2Connection → H2Connection
unfolding wake_stream_slots
apply_other_settings s c =
    let c1 : H2Connection = record c {
      remote = record c.remote {
        header_table_size = keep_or s.header_table_size c.remote.header_table_size;
        enable_push = keep_or s.enable_push c.remote.enable_push;
      };
    } in
    elim s.max_concurrent_streams [
      | none ↦ c1
      | some n ↦
          wake_stream_slots
            (record c1 { remote = record c1.remote { max_concurrent_streams = some n } })
    ]

infixl 5 ◌and_then◌
abbrev pub ◌and_then◌ : Outcome → (H2Connection → Outcome) → Outcome
(c, none) and_then f = f c
(c, some e) and_then f = (c, some e)

unfoldable pub apply_remote_settings : Settings → H2Connection → Outcome
unfolding apply_initial_window apply_max_frame_size apply_other_settings
apply_remote_settings s c =
    apply_initial_window s.initial_window_size c
    and_then apply_max_frame_size s.max_frame_size
    and_then λ c1. (apply_other_settings s c1, none)

abbrev settings_ack : Frame
settings_ack = settings_frame (record { ack = true; settings = no_settings })

unfoldable pub on_settings : SettingsFrame → H2Connection → Outcome
unfolding apply_remote_settings send
on_settings f c =
    if f.ack
    then (c, none)
    else (apply_remote_settings f.settings c and_then λ c1. (send c1 settings_ack, none))

-- `hex`.
abbrev digit : ℕ → ℕ
digit n = if ltb n 10 then 48 + n else 87 + n

unfoldable pub hex : List ℕ → Text
hex [] = []
hex (b ∷ bytes) = digit (b / 16) ∷ digit (b % 16) ∷ hex bytes

-- `pings.get(key)`, and the pings without it.
unfoldable pub take_ping : Text → List PingWaiter → Option (PingWaiter × List PingWaiter)
take_ping key [] = none
take_ping key (w ∷ ws) = elim (text_eq w.key key) [
  | true ↦ some (w, ws)
  | false ↦ elim (take_ping key ws) [ none ↦ none | some (found, rest) ↦ some (found, w ∷ rest) ]
]

-- `now` is `Date.now()`.
unfoldable pub on_ping : ℕ → PingFrame → H2Connection → H2Connection
unfolding take_ping hex send
on_ping now f c =
    if f.ack
    then (elim (take_ping (hex f.opaque_data) c.pings) [
      | none ↦ c
      | some (w, rest) ↦ record c {
        pings = rest;
        ping_results = c.ping_results ++ answered w.key (now - w.sent_at) ∷ [];
      }
    ])
    else send c (ping_frame (record { ack = true; opaque_data = f.opaque_data }))

abbrev pub goaway_name : ℕ → ErrorCode
goaway_name error_code = elim (error_code_name error_code) [ some name ↦ name | none ↦ no_error ]

abbrev pub excluded : ErrorCode → ℕ → Error
excluded code id = h2 (record { code = code; stream_id = some id; retry = some refused })

-- The streams that a GOAWAY keeps, and the ones that it excludes, newest first.
unfoldable pub exclude_streams : ErrorCode → ℕ → Streams → List H2Stream → Streams × List H2Stream
exclude_streams code last [] out = ([], out)
exclude_streams code last ((id, s) ∷ m) out =
    let (kept, all) =
      exclude_streams code last m (if ltb last id then fail s (excluded code id) ∷ out else out) in
    (if ltb last id then kept else (id, s) ∷ kept, all)

-- Up to the waking of the parked requests.
abbrev pub going_away : GoawayFrame → H2Connection → H2Connection
going_away f c =
    let (kept, out) =
      exclude_streams (goaway_name f.error_code) f.last_stream_id c.streams c.detached in
    record c { goaway_received = true; streams = kept; detached = out }

unfoldable pub on_goaway : GoawayFrame → H2Connection → H2Connection
unfolding exclude_streams wake_stream_slots destroy
on_goaway f c =
    let c1 = wake_stream_slots (going_away f c) in
    if f.error_code == 0 then c1 else destroy (connection_failure (goaway_name f.error_code)) c1

-- `err instanceof H2Error && err.streamId !== undefined`.
abbrev pub stream_scope : Error → Option (ℕ × ErrorCode)
stream_scope (h2 e) = elim e.stream_id [ some id ↦ some (id, e.code) | none ↦ none ]
stream_scope _ = none

-- The `catch` of the loop in `onBytes`, and the frames that follow.
unfoldable pub after_dispatch : (H2Connection → H2Connection) → Outcome → H2Connection
unfolding reset_stream connection_error
after_dispatch next (c, none) = next c
after_dispatch next (c, some e) = elim (stream_scope e) [
  | none ↦ connection_error e c
  | some (id, code) ↦ next (reset_stream id code c)
]

abbrev pub is_continuation : Frame → Bool
is_continuation (continuation_frame f) = true
is_continuation _ = false

abbrev pub is_pending : Option PendingHeaderBlock → Bool
is_pending none = false
is_pending (some pb) = true

module _ (inherited : Text → Option Text) (now : ℕ) where
  -- `switch (frame.type)`.
  unfoldable pub handle : Frame → H2Connection → Outcome
  unfolding on_data on_headers on_rst_stream on_settings on_push_promise on_ping on_goaway
      on_window_update on_continuation
  handle (settings_frame f) c = on_settings f c
  handle (headers_frame f) c = on_headers inherited f c
  handle (continuation_frame f) c = on_continuation inherited f c
  handle (push_promise_frame f) c = on_push_promise inherited f c
  handle (data_frame f) c = on_data f c
  handle (rst_stream_frame f) c = (on_rst_stream f c, none)
  handle (window_update_frame f) c = on_window_update f c
  handle (ping_frame f) c = (on_ping now f c, none)
  handle (goaway_frame f) c = (on_goaway f c, none)
  handle (priority_frame f) c = (c, none)

  -- `dispatch`.
  unfoldable pub dispatch : Frame → H2Connection → Outcome
  unfolding handle
  dispatch f c =
      if is_pending c.pending_header_block && not (is_continuation f)
      then (c, some (connection_failure protocol_error))
      else handle f c

  -- The loop over the frames.
  unfoldable pub dispatch_all : List Frame → H2Connection → H2Connection
  unfolding dispatch after_dispatch
  dispatch_all [] c = c
  dispatch_all (f ∷ frames) c = after_dispatch (dispatch_all frames) (dispatch f c)

  -- `onBytes`.
  unfoldable pub on_bytes : List ℕ → H2Connection → H2Connection
  unfolding dispatch_all connection_error push
  on_bytes chunk c = elim (push c.frame_decoder chunk) [
    | err e ↦ connection_error e c
    | ok (frames, d) ↦ dispatch_all frames (record c { frame_decoder = d })
  ]
