-- ===== src/Connection/Events.antt =====
-- web/src/h2/connection.ts and the callbacks that it gives its streams: what may happen to a
-- connection, one event after the other. An event is what runs between two `await`s.
use grpc_bridge.Prelude.{
  ℕ, zero, suc, ◌-◌, Bool, true, false, Option, none, some, List, [], ◌∷◌, ◌==◌, if◌then◌else◌,
}
use grpc_bridge.Text.{Text}
use grpc_bridge.Errors.{Error, connection_failure, no_error, cancel}
use grpc_bridge.Stream.State.{H2Stream, pull_body, cancel_body}
use grpc_bridge.Stream.Steps.{pulled_credit}
use grpc_bridge.Connection.Streams.{find_stream}
use grpc_bridge.Connection.State.{H2Connection}
use grpc_bridge.Connection.Teardown.{
  store, replenish_recv_window, reset_stream, begin_close, finish_close, destroy,
}
use grpc_bridge.Connection.Heads.{H2RequestInit}
use grpc_bridge.Connection.Receive.{on_bytes}
use grpc_bridge.Connection.Requests.{
  request_round, abandon, pump_round, end_pump, close_local, ping,
}

-- `detached_pulls` and `detached_cancels` are by the reader of a stream that has left the map; it is
-- the one at that place of `detached`.
pub data Event : Type 0 where
  bytes_arrive : ℕ → List ℕ → Event
  transport_ends close_called close_written : Event
  transport_fails : Error → Event
  request_goes : H2RequestInit → Bool → Event
  parked_aborts : ℕ → Event
  abandoned : ℕ → Error → Event
  pump_goes : ℕ → List ℕ → Event
  pump_ends pump_ended reader_pulls reader_cancels : ℕ → Event
  detached_pulls detached_cancels : ℕ → Event
  ping_called : ℕ → Event

-- A waiter that leaves the list.
unfoldable pub remove_waiter : ℕ → List ℕ → List ℕ
remove_waiter ticket [] = []
remove_waiter ticket (w ∷ ws) =
    let behind = remove_waiter ticket ws in if w == ticket then ws else w ∷ behind

-- The pull of a stream, with `onConsume`.
unfoldable pub pull_stream : ℕ → H2Connection → H2Connection
unfolding pull_body replenish_recv_window
pull_stream id c = elim (find_stream id c.streams) [
  | none ↦ c
  | some s ↦
      let (pulled, s1) = pull_body s in
      replenish_recv_window id (pulled_credit pulled) (store id s1 c)
]

-- `onCancel`.
unfoldable pub on_cancel : ℕ → Bool → H2Connection → H2Connection
unfolding reset_stream
on_cancel id live c = elim live [
  | false ↦ c
  | true ↦ elim (find_stream id c.streams) [ none ↦ c | some s ↦ reset_stream id cancel c ]
]

-- The cancellation of a body, with `onConsume` and `onCancel`.
unfoldable pub cancel_stream : ℕ → H2Connection → H2Connection
unfolding cancel_body replenish_recv_window on_cancel
cancel_stream id c = elim (find_stream id c.streams) [
  | none ↦ c
  | some s ↦
      let (credit, live, s1) = cancel_body s in
      on_cancel id live (replenish_recv_window id credit (store id s1 c))
]

-- The same for the stream at a place of `detached`.
unfoldable pub stream_at : ℕ → List H2Stream → Option H2Stream
stream_at i [] = none
stream_at zero (s ∷ streams) = some s
stream_at (suc i) (s ∷ streams) = stream_at i streams

unfoldable pub put_at : ℕ → H2Stream → List H2Stream → List H2Stream
put_at i new [] = []
put_at zero new (s ∷ streams) = new ∷ streams
put_at (suc i) new (s ∷ streams) = s ∷ put_at i new streams

unfoldable pub pull_detached : ℕ → H2Connection → H2Connection
unfolding pull_body replenish_recv_window stream_at put_at
pull_detached i c = elim (stream_at i c.detached) [
  | none ↦ c
  | some s ↦
      let (pulled, s1) = pull_body s in
      replenish_recv_window s.id (pulled_credit pulled)
        (record c { detached = put_at i s1 c.detached })
]

unfoldable pub cancel_detached : ℕ → H2Connection → H2Connection
unfolding cancel_body replenish_recv_window on_cancel stream_at put_at
cancel_detached i c = elim (stream_at i c.detached) [
  | none ↦ c
  | some s ↦
      let (credit, live, s1) = cancel_body s in
      on_cancel s.id live
        (replenish_recv_window s.id credit (record c { detached = put_at i s1 c.detached }))
]

-- The end of a `close()` that waits for its GOAWAY.
unfoldable pub written_close : H2Connection → H2Connection
unfolding finish_close
written_close c = if c.closing == 0 then c else finish_close (record c { closing = c.closing - 1 })

module _ (inherited : Text → Option Text) (to_lower : Text → Text) (to_upper : Text → Text) where
  unfoldable pub happen : Event → H2Connection → H2Connection
  unfolding on_bytes destroy begin_close written_close request_round abandon pump_round end_pump
      close_local pull_stream cancel_stream pull_detached cancel_detached ping remove_waiter
  happen (bytes_arrive now chunk) c = on_bytes inherited now chunk c
  happen transport_ends c = destroy (connection_failure no_error) c
  happen close_called c = begin_close c
  happen close_written c = written_close c
  happen (transport_fails e) c = destroy e c
  happen (request_goes init aborted) c = (request_round to_lower to_upper init aborted c).0
  happen (parked_aborts ticket) c = record c { slot_waiters = remove_waiter ticket c.slot_waiters }
  happen (abandoned id e) c = abandon id e c
  happen (pump_goes id rest) c = (pump_round id rest c).0
  happen (pump_ends id) c = end_pump id c
  happen (pump_ended id) c = close_local id c
  happen (reader_pulls id) c = pull_stream id c
  happen (reader_cancels id) c = cancel_stream id c
  happen (detached_pulls i) c = pull_detached i c
  happen (detached_cancels i) c = cancel_detached i c
  happen (ping_called now) c = ping now c

  unfoldable pub happen_all : List Event → H2Connection → H2Connection
  happen_all [] c = c
  happen_all (e ∷ events) c = happen_all events (happen e c)
