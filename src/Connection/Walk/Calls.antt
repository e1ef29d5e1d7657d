-- ===== src/Connection/Walk/Calls.antt =====
-- The walk through the calls of the application and of the readers, and over any events.
use grpc_bridge.Prelude.{
  ℕ, refl, Bool, true, false, ◌||◌, Option, List, [], ◌∷◌, ◌==◌, if_case, option_case,
}
use grpc_bridge.Text.{Text}
use grpc_bridge.Errors.{Error, connection_failure, no_error, cancel}
use grpc_bridge.Flow.{wait_positive}
use grpc_bridge.Frames.Types.{Frame}
use grpc_bridge.Stream.State.{pull_body, cancel_body}
use grpc_bridge.Stream.Steps.{pulled_credit}
use grpc_bridge.Connection.Streams.{find_stream}
use grpc_bridge.Connection.State.{H2Connection, send}
use grpc_bridge.Connection.Teardown.{store, finish_close}
use grpc_bridge.Connection.Blocks.{add_stream}
use grpc_bridge.Connection.Heads.{H2RequestInit, body_is_empty}
use grpc_bridge.Connection.Requests.{
  reserved, request_frames, send_all, open_stream, check_request, can_open_stream, RequestStatus,
  request_round, abandon, PumpStatus, send_slice, consumed, grant_of, data_of, pump_round, end_pump,
  close_local, ping, pinged, ping_sent,
}
use grpc_bridge.Connection.Events.{
  Event, bytes_arrive, transport_ends, close_called, close_written, transport_fails, request_goes,
  parked_aborts, abandoned, pump_goes, pump_ends, pump_ended, reader_pulls, reader_cancels,
  detached_pulls, detached_cancels, ping_called, pull_stream, on_cancel, cancel_stream, stream_at,
  pull_detached, cancel_detached, written_close, happen, happen_all,
}
use grpc_bridge.Connection.Receive.{on_bytes}
use grpc_bridge.Connection.Walk.{
  Kept, begin_close-Kept, replenish_recv_window-Kept, reset_stream-Kept,
  retire_if_fully_closed-Kept, destroy-Kept,
}

module _ (P : H2Connection → Type 0) (k : Kept P) where
  send_all-Kept : (c : H2Connection) (frames : List Frame) → P c → P (send_all c frames)
  unfolding send_all
  send_all-Kept c [] h = h
  send_all-Kept c (f ∷ frames) h = send_all-Kept (send c f) frames (k.sends c f h)

  request_round-Kept :
      (to_lower to_upper : Text → Text) (init : H2RequestInit) (aborted : Bool) (c : H2Connection)
      → P c
      → P (request_round to_lower to_upper init aborted c).0
  unfolding request_round open_stream add_stream
  request_round-Kept to_lower to_upper init aborted c h =
      let Q : H2Connection × RequestStatus → Type 0 = λ x. P x.0 in
      option_case Q (check_request c aborted) _ _
        (λ e.
          if_case Q (can_open_stream c) _ _
            (λ e'.
              let h1 : P (reserved c) = k.same c _ refl h in
              let h2 = send_all-Kept (reserved c) (request_frames to_lower to_upper init c) h1 in
              if_case P (body_is_empty init.body) _ _ (λ e2. k.same _ _ refl h2)
                (λ e2. k.same _ _ refl h2))
            (λ e'. k.same c _ refl h))
        (λ reason e. h)

  abandon-Kept : (id : ℕ) (e : Error) (c : H2Connection) → P c → P (abandon id e c)
  unfolding abandon
  abandon-Kept id e c h =
      option_case P (find_stream id c.streams) _ _ (λ e'. h)
        (λ s found. reset_stream-Kept P k id cancel _ (k.same c _ refl h))

  pump_round-Kept : (id : ℕ) (rest : List ℕ) (c : H2Connection) → P c → P (pump_round id rest c).0
  unfolding pump_round send_slice
  pump_round-Kept id rest c h =
      let Q : H2Connection × PumpStatus → Type 0 = λ x. P x.0 in
      option_case Q (find_stream id c.streams) _ _ (λ e. h)
        (λ s found.
          if_case Q (c.closed_flag || s.send_side.closed) _ _ (λ e. h)
            (λ e.
              option_case Q (wait_positive c.conn_send_window).1 _ _
                (λ e'.
                  option_case Q (wait_positive s.send_side).1 _ _
                    (λ e2.
                      if_case Q (grant_of c s rest == 0) _ _ (λ e3. h)
                        (λ e3. k.sends (consumed id (grant_of c s rest) s c) _ (k.same c _ refl h)))
                    (λ ticket e2. k.same c _ refl h))
                (λ ticket e'. k.same c _ refl h)))

  end_pump-Kept : (id : ℕ) (c : H2Connection) → P c → P (end_pump id c)
  unfolding end_pump
  end_pump-Kept id c h =
      option_case P (find_stream id c.streams) _ _ (λ e. h)
        (λ s found.
          if_case P (c.closed_flag || s.send_side.closed) _ _ (λ e. h)
            (λ e. k.sends c (data_of id [] true) h))

  close_local-Kept : (id : ℕ) (c : H2Connection) → P c → P (close_local id c)
  unfolding close_local
  close_local-Kept id c h =
      option_case P (find_stream id c.streams) _ _ (λ e. h)
        (λ s found. retire_if_fully_closed-Kept P k id _ (k.same c _ refl h))

  ping-Kept : (now : ℕ) (c : H2Connection) → P c → P (ping now c)
  unfolding ping
  ping-Kept now c h =
      if_case P c.closed_flag _ _ (λ e. k.same c _ refl h)
        (λ e. k.sends (pinged now c) (ping_sent c) (k.same c _ refl h))

  pull_stream-Kept : (id : ℕ) (c : H2Connection) → P c → P (pull_stream id c)
  unfolding pull_stream
  pull_stream-Kept id c h =
      option_case P (find_stream id c.streams) _ _ (λ e. h)
        (λ s found.
          replenish_recv_window-Kept P k id (pulled_credit (pull_body s).0)
            (store id (pull_body s).1 c) (k.same c _ refl h))

  on_cancel-Kept : (id : ℕ) (live : Bool) (c : H2Connection) → P c → P (on_cancel id live c)
  unfolding on_cancel
  on_cancel-Kept id false c h = h
  on_cancel-Kept id true c h =
      option_case P (find_stream id c.streams) _ _ (λ e. h)
        (λ s found. reset_stream-Kept P k id cancel c h)

  cancel_stream-Kept : (id : ℕ) (c : H2Connection) → P c → P (cancel_stream id c)
  unfolding cancel_stream
  cancel_stream-Kept id c h =
      option_case P (find_stream id c.streams) _ _ (λ e. h)
        (λ s found. on_cancel-Kept id (cancel_body s).1 _ (
          replenish_recv_window-Kept P k id (cancel_body s).0 (store id (cancel_body s).2 c)
            (k.same c _ refl h)))

  pull_detached-Kept : (i : ℕ) (c : H2Connection) → P c → P (pull_detached i c)
  unfolding pull_detached
  pull_detached-Kept i c h =
      option_case P (stream_at i c.detached) _ _ (λ e. h)
        (λ s found.
          replenish_recv_window-Kept P k s.id (pulled_credit (pull_body s).0) _ (k.same c _ refl h))

  cancel_detached-Kept : (i : ℕ) (c : H2Connection) → P c → P (cancel_detached i c)
  unfolding cancel_detached
  cancel_detached-Kept i c h =
      option_case P (stream_at i c.detached) _ _ (λ e. h)
        (λ s found.
          on_cancel-Kept s.id (cancel_body s).1 _
            (replenish_recv_window-Kept P k s.id (cancel_body s).0 _ (k.same c _ refl h)))

  written_close-Kept : (c : H2Connection) → P c → P (written_close c)
  unfolding written_close finish_close
  written_close-Kept c h =
      if_case P (c.closing == 0) _ _ (λ e. h)
        (λ e. destroy-Kept P k (connection_failure no_error) _ (k.same c _ refl h))

  module _ (inherited : Text → Option Text) (to_lower : Text → Text) (to_upper : Text → Text)
      (bytes : (now : ℕ) (chunk : List ℕ) (c : H2Connection)
        → P c
        → P (on_bytes inherited now chunk c)) where
    pub happen-Kept :
        (e : Event) (c : H2Connection) → P c → P (happen inherited to_lower to_upper e c)
    unfolding happen
    happen-Kept (bytes_arrive now chunk) c h = bytes now chunk c h
    happen-Kept transport_ends c h = destroy-Kept P k (connection_failure no_error) c h
    happen-Kept close_called c h = begin_close-Kept P k c h
    happen-Kept close_written c h = written_close-Kept c h
    happen-Kept (transport_fails e) c h = destroy-Kept P k e c h
    happen-Kept (request_goes init aborted) c h =
        request_round-Kept to_lower to_upper init aborted c h
    happen-Kept (parked_aborts ticket) c h = k.same c _ refl h
    happen-Kept (abandoned id e) c h = abandon-Kept id e c h
    happen-Kept (pump_goes id rest) c h = pump_round-Kept id rest c h
    happen-Kept (pump_ends id) c h = end_pump-Kept id c h
    happen-Kept (pump_ended id) c h = close_local-Kept id c h
    happen-Kept (reader_pulls id) c h = pull_stream-Kept id c h
    happen-Kept (reader_cancels id) c h = cancel_stream-Kept id c h
    happen-Kept (detached_pulls i) c h = pull_detached-Kept i c h
    happen-Kept (detached_cancels i) c h = cancel_detached-Kept i c h
    happen-Kept (ping_called now) c h = ping-Kept now c h

    pub happen_all-Kept :
        (events : List Event) (c : H2Connection)
        → P c
        → P (happen_all inherited to_lower to_upper events c)
    unfolding happen_all
    happen_all-Kept [] c h = h
    happen_all-Kept (e ∷ events) c h =
        happen_all-Kept events (happen inherited to_lower to_upper e c) (happen-Kept e c h)
