-- ===== src/Connection/Teardown.antt =====
-- web/src/h2/connection.ts: the receive windows, and the ends of streams and of the connection.
use grpc_bridge.Prelude.{
  ℕ, suc, ◌+◌, Bool, true, false, not, ◌&&◌, ◌||◌, none, some, List, [], ◌∷◌, ◌++◌, ◌==◌,
  if◌then◌else◌,
}
use grpc_bridge.Prelude.Int.{pos, ◌+ℤ◌}
use grpc_bridge.Errors.{
  Error, ErrorCode, h2, error_code_value, protocol_error, no_error, connection_failure,
  stream_failure,
}
use grpc_bridge.Flow.{close}
use grpc_bridge.Frames.Types.{Frame, goaway_frame, rst_stream_frame}
use grpc_bridge.Stream.State.{H2Stream, closed_both, discard_buffered, fail}
use grpc_bridge.Connection.Streams.{Streams, find_stream, set_stream, delete_stream}
use grpc_bridge.Connection.State.{H2Connection, send, window_update, PingWaiter, PingResult, failed}

-- A change of a stream that stays in the map.
abbrev pub store : ℕ → H2Stream → H2Connection → H2Connection
store id s c = record c { streams = set_stream id s c.streams }

-- `streams.delete(id)`; `s` is the stream as the call leaves it.
abbrev pub detach : ℕ → H2Stream → H2Connection → H2Connection
detach id s c = record c { streams = delete_stream id c.streams; detached = s ∷ c.detached }

abbrev pub goaway : H2Connection → ErrorCode → Frame
goaway c code = goaway_frame (record {
  last_stream_id = c.highest_promised;
  error_code = error_code_value code;
  debug_data = [];
})

abbrev pub rst_stream : ℕ → ErrorCode → Frame
rst_stream id code =
    rst_stream_frame (record { stream_id = id; error_code = error_code_value code })

-- `close`, up to its `await`; `finish_close` is the rest.
unfoldable pub begin_close : H2Connection → H2Connection
unfolding send
begin_close c =
    if c.closed_flag
    then c
    else (let c1 = send c (goaway c no_error) in record c1 { closing = suc c1.closing })

abbrev is_empty : Streams → Bool
is_empty [] = true
is_empty (x ∷ m) = false

-- `wakeStreamSlots`: the parked requests that leave `slot_waiters` go on.
unfoldable pub wake_stream_slots : H2Connection → H2Connection
unfolding begin_close
wake_stream_slots c =
    let c1 : H2Connection =
      if c.goaway_received && is_empty c.streams && not c.closed_flag then begin_close c else c in
    record c1 { slot_waiters = [] }

unfoldable pub replenish_connection_window : ℕ → H2Connection → H2Connection
unfolding send
replenish_connection_window n c =
    if c.closed_flag || n == 0
    then c
    else send (record c { conn_recv_available = c.conn_recv_available + n }) (window_update 0 n)

-- The part of the stream in `replenishRecvWindow`.
abbrev pub give_window : ℕ → ℕ → H2Stream → H2Connection → H2Connection
give_window id n s c =
    send (store id (record s { recv_window = s.recv_window +ℤ pos n }) c) (window_update id n)

-- `replenishRecvWindow`, which `onConsume` calls.
unfoldable pub replenish_recv_window : ℕ → ℕ → H2Connection → H2Connection
unfolding replenish_connection_window send
replenish_recv_window id n c =
    if c.closed_flag || n == 0 then c else (elim (find_stream id c.streams) [
      | none ↦ replenish_connection_window n c
      | some s ↦
          if s.remote_closed
          then replenish_connection_window n c
          else replenish_connection_window n (give_window id n s c)
    ])

-- What `resetStream` makes of a stream.
abbrev pub reset_of : ℕ → ErrorCode → H2Stream → H2Stream
reset_of id code s =
    fail (record (discard_buffered s).1 { state = closed_both }) (stream_failure code (some id))

-- `resetStream`. The stream is failed at once where the code does it behind the waking, which does
-- not look at it.
unfoldable pub reset_stream : ℕ → ErrorCode → H2Connection → H2Connection
unfolding send replenish_connection_window wake_stream_slots discard_buffered
reset_stream id code c =
    let c1 = send c (rst_stream id code) in
    elim (find_stream id c.streams) [
      | none ↦ c1
      | some s ↦
          wake_stream_slots
            (detach id (reset_of id code s) (replenish_connection_window (discard_buffered s).0 c1))
    ]

abbrev pub retired : H2Stream → H2Stream
retired s = record s { state = closed_both }

unfoldable pub retire_if_fully_closed : ℕ → H2Connection → H2Connection
unfolding wake_stream_slots
retire_if_fully_closed id c = elim (find_stream id c.streams) [
  | none ↦ c
  | some s ↦
      if s.local_closed && s.remote_closed then wake_stream_slots (detach id (retired s) c) else c
]

-- The streams with `fail(err)`.
abbrev pub fail_all : Error → Streams → List H2Stream
fail_all e [] = []
fail_all e ((id, s) ∷ m) = fail s e ∷ fail_all e m

abbrev reject_pings : Error → List PingWaiter → List PingResult
reject_pings e [] = []
reject_pings e (w ∷ ws) = failed w.key e ∷ reject_pings e ws

-- `destroy`, up to the clearing of the map.
abbrev pub closed_by : Error → H2Connection → H2Connection
closed_by e c = record c {
  closed_flag = true;
  close_error = some e;
  conn_send_window = (close c.conn_send_window).0;
  streams = [];
  detached = fail_all e c.streams ++ c.detached;
}

unfoldable pub destroy : Error → H2Connection → H2Connection
unfolding wake_stream_slots
destroy e c =
    if c.closed_flag
    then c
    else (let c1 = wake_stream_slots (closed_by e c) in
        record c1 { pings = []; ping_results = c1.ping_results ++ reject_pings e c1.pings })

-- `close`, behind its `await`.
unfoldable pub finish_close : H2Connection → H2Connection
unfolding destroy
finish_close c = destroy (connection_failure no_error) c

-- `err instanceof H2Error ? err.code : "PROTOCOL_ERROR"`.
abbrev pub code_of : Error → ErrorCode
code_of (h2 e) = e.code
code_of _ = protocol_error

unfoldable pub connection_error : Error → H2Connection → H2Connection
unfolding destroy send
connection_error e c = destroy e (send c (goaway c (code_of e)))
