-- ===== src/Connection/Credit/Run.antt =====
-- The account of the receive window over the whole life of a connection.
use grpc_bridge.Prelude.{
  ◌+◌, ◌≡◌, ◌⊎◌, inr, true, Option, List, [], ◌∷◌, ◌-◌, ltb, ◌==◌, if_case, arith,
}
use grpc_bridge.Text.{Text}
use grpc_bridge.Errors.{Error, ok, err, Holds, Holds_at, range_error, connection_failure, no_error}
use grpc_bridge.Connection.State.{
  H2Connection, LocalSettings, send, new_connection, local_settings_frame, started, h2_connection,
  spec_initial_window, window_update,
}
use grpc_bridge.Connection.Teardown.{begin_close, finish_close, destroy}
use grpc_bridge.Connection.Events.{
  Event, bytes_arrive, transport_ends, close_called, close_written, transport_fails, request_goes,
  parked_aborts, abandoned, pump_goes, pump_ends, pump_ended, reader_pulls, reader_cancels,
  detached_pulls, detached_cancels, ping_called, written_close, happen, happen_all,
}
use grpc_bridge.Connection.Credit.Account.{buffered_in, buffered_of}
use grpc_bridge.Connection.Credit.Ends.{begin_close-Credit, destroy-Credit}
use grpc_bridge.Connection.Bodies.{begin_close-streams, destroy-Takes}
use grpc_bridge.Connection.Credit.Frames.{Good, send-Good}
use grpc_bridge.Connection.Credit.Bytes.{on_bytes-Good}
use grpc_bridge.Connection.Credit.Calls.{
  request_round-Good, abandon-Good, pump_round-Good, end_pump-Good, close_local-Good, ping-Good,
}
use grpc_bridge.Connection.Credit.Readers.{
  pull_stream-Good, cancel_stream-Good, pull_detached-Good, cancel_detached-Good,
}

destroy-Good : (e : Error) (c : H2Connection) → Good c → Good (destroy e c)
destroy-Good e c (h, t) = (destroy-Credit 0 0 e c h, destroy-Takes e c t)

begin_close-Good : (c : H2Connection) → Good c → Good (begin_close c)
begin_close-Good c (h, t) = (begin_close-Credit 0 0 c h, rw (begin_close-streams c) t)

written_close-Good : (c : H2Connection) → Good c → Good (written_close c)
unfolding written_close finish_close
written_close-Good c h =
    if_case Good (c.closing == 0) _ _ (λ e. h)
      (λ e. destroy-Good (connection_failure no_error) (record c { closing = c.closing - 1 }) h)

started-Good : (s : LocalSettings) → Good (started s)
unfolding started
started-Good s =
    let c = send (new_connection s) (local_settings_frame s) in
    let h : Good c =
      send-Good (new_connection s) (local_settings_frame s) ((inr (omega arith), tt, tt), tt) in
    let conn_grow = s.connection_window_size - spec_initial_window in
    if_case Good (ltb 0 conn_grow) _ _ (λ e. send-Good c (window_update 0 conn_grow) h) (λ e. h)

h2_connection-Good : (s : LocalSettings) (c : H2Connection) → h2_connection s ≡ ok c → Good c
unfolding h2_connection
h2_connection-Good s c e =
    Holds_at Good (h2_connection s) c
      (if_case (Holds Good) _ (err range_error) (ok (started s)) (λ e'. tt) (λ e'. started-Good s))
      e

module _ (inherited : Text → Option Text) (to_lower : Text → Text) (to_upper : Text → Text) where
  happen-Good :
      (e : Event) (c : H2Connection) → Good c → Good (happen inherited to_lower to_upper e c)
  unfolding happen
  happen-Good (bytes_arrive now chunk) c h = on_bytes-Good inherited now chunk c h
  happen-Good transport_ends c h = destroy-Good (connection_failure no_error) c h
  happen-Good close_called c h = begin_close-Good c h
  happen-Good close_written c h = written_close-Good c h
  happen-Good (transport_fails e) c h = destroy-Good e c h
  happen-Good (request_goes init aborted) c h =
      request_round-Good to_lower to_upper init aborted c h
  happen-Good (parked_aborts ticket) c h = h
  happen-Good (abandoned id e) c h = abandon-Good id e c h
  happen-Good (pump_goes id rest) c h = pump_round-Good id rest c h
  happen-Good (pump_ends id) c h = end_pump-Good id c h
  happen-Good (pump_ended id) c h = close_local-Good id c h
  happen-Good (reader_pulls id) c h = pull_stream-Good id c h
  happen-Good (reader_cancels id) c h = cancel_stream-Good id c h
  happen-Good (detached_pulls i) c h = pull_detached-Good i c h
  happen-Good (detached_cancels i) c h = cancel_detached-Good i c h
  happen-Good (ping_called now) c h = ping-Good now c h

  happen_all-Good :
      (events : List Event) (c : H2Connection)
      → Good c
      → Good (happen_all inherited to_lower to_upper events c)
  unfolding happen_all
  happen_all-Good [] c h = h
  happen_all-Good (e ∷ events) c h =
      happen_all-Good events (happen inherited to_lower to_upper e c) (happen-Good e c h)

  -- No byte of the connection's receive window is lost or returned twice. From the constructor on,
  -- whatever happens to the connection and to the readers of its bodies, in any order: until the
  -- connection is closed, the bytes that are free and the bytes that are buffered, by the streams of
  -- the map and by the ones that have left it, make up the window that was asked for.
  pub happen_all_credit :
      (s : LocalSettings) (c : H2Connection) (events : List Event)
      → h2_connection s ≡ ok c
      → ((happen_all inherited to_lower to_upper events c).closed_flag ≡ true)
        ⊎ ((happen_all inherited to_lower to_upper events c).conn_recv_available
              + buffered_in (happen_all inherited to_lower to_upper events c).streams
              + buffered_of (happen_all inherited to_lower to_upper events c).detached
            ≡ (happen_all inherited to_lower to_upper events c).conn_recv_window)
  happen_all_credit s c events e =
      let ((sum, each, all), t) = happen_all-Good events c (h2_connection-Good s c e) in
      ground (arith, sum)
