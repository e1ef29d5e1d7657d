-- ===== src/Connection/Bodies.antt =====
-- The streams of the map whose remote side is open have bodies that take data.
pub mod Arrivals
use grpc_bridge.Prelude.{
  ℕ, suc, ◌+◌, ◌-◌, ◌≤◌, ◌≡◌, refl, sym, ap, ◌∙◌, ◌⊎◌, inl, inr, Bool, true, false, not, ◌&&◌, ◌||◌,
  Option, none, some, List, [], ◌∷◌, ◌++◌, length, All, ltb, ◌==◌, if◌then◌else◌, Bool-cases,
  if_case, option_case, Option-cases, ==_iff, arith,
}
use grpc_bridge.Prelude.Int.{ℤ, pos, ◌+ℤ◌, ◌-ℤ◌, ltb_ℤ}
use grpc_bridge.Text.{Text}
use grpc_bridge.Errors.{Error, ErrorCode, connection_failure, stream_closed, flow_control_error}
use grpc_bridge.Frames.Types.{
  Frame, DataFrame, RstStreamFrame, WindowUpdateFrame, GoawayFrame, SettingsFrame, Settings,
  PingFrame,
}
use grpc_bridge.Hpack.Decoder.{Header}
use grpc_bridge.Stream.State.{
  H2Stream, wake_recv, end_body, fail, discard_buffered, receive_headers, receive_data,
  receive_reset,
}
use grpc_bridge.Connection.Streams.{Streams, find_stream, set_stream, delete_stream}
use grpc_bridge.Connection.Streams.Each.{
  Each, Each-find, Each-set, Each-delete, find_stream-set_stream, delete_stream_missing,
}
use grpc_bridge.Connection.State.{H2Connection, send, window_update}
use grpc_bridge.Connection.Teardown.{
  store, detach, begin_close, wake_stream_slots, replenish_connection_window, replenish_recv_window,
  retire_if_fully_closed, reset_stream, destroy, connection_error, rst_stream, give_window,
  reset_of, retired, closed_by,
}
use grpc_bridge.Connection.Blocks.{
  Outcome, add_stream, pushed_stream, promised, handle_push, deliver_headers,
}
use grpc_bridge.Connection.Receive.{
  flow_bytes, after_data, take_data, on_data, on_rst_stream, on_window_update, on_goaway,
  going_away, goaway_name, adjust_streams, is_idle_inbound_stream,
}
use grpc_bridge.Connection.Credit.Ends.{send-streams, replenish_connection_window-streams}
use grpc_bridge.Connection.Credit.Arrivals.{TakesData, excluded_kept}

pub begin_close-streams : (c : H2Connection) → (begin_close c).streams ≡ c.streams
unfolding begin_close send
begin_close-streams c = ground arith

pub wake_stream_slots-streams : (c : H2Connection) → (wake_stream_slots c).streams ≡ c.streams
unfolding wake_stream_slots
wake_stream_slots-streams c =
    if_case (λ (x : H2Connection). x.streams ≡ c.streams) _ (begin_close c) c
      (λ e. begin_close-streams c) (λ e. refl)

pub reset_stream-streams :
    (id : ℕ) (code : ErrorCode) (c : H2Connection)
    → (reset_stream id code c).streams ≡ delete_stream id c.streams
unfolding reset_stream discard_buffered
reset_stream-streams id code c =
    let c1 = send c (rst_stream id code) in
    option_case (λ (x : H2Connection). x.streams ≡ delete_stream id c.streams)
      (find_stream id c.streams) _ _
      (λ e. send-streams c (rst_stream id code) ∙ sym (delete_stream_missing id c.streams e))
      (λ s found.
        wake_stream_slots-streams
          (detach id (reset_of id code s) (replenish_connection_window s.recv_buffered c1))
        ∙ ap (delete_stream id) (
            replenish_connection_window-streams s.recv_buffered c1
            ∙ send-streams c (rst_stream id code)))

abbrev pub Takes : H2Connection → Type 0
Takes c = Each TakesData c.streams

pub send-Takes : (c : H2Connection) (f : Frame) → Takes c → Takes (send c f)
send-Takes c f h = rw (send-streams c f) h

pub wake_stream_slots-Takes : (c : H2Connection) → Takes c → Takes (wake_stream_slots c)
wake_stream_slots-Takes c h = rw (wake_stream_slots-streams c) h

pub replenish_connection_window-Takes :
    (n : ℕ) (c : H2Connection) → Takes c → Takes (replenish_connection_window n c)
replenish_connection_window-Takes n c h = rw (replenish_connection_window-streams n c) h

pub reset_stream-Takes :
    (id : ℕ) (code : ErrorCode) (c : H2Connection) → Takes c → Takes (reset_stream id code c)
reset_stream-Takes id code c h =
    rw (reset_stream-streams id code c) (Each-delete TakesData id c.streams h)

pub store-Takes :
    (id : ℕ) (s : H2Stream) (c : H2Connection) → TakesData s → Takes c → Takes (store id s c)
store-Takes id s c p h = Each-set TakesData id s c.streams h p

pub replenish_recv_window-Takes :
    (id n : ℕ) (c : H2Connection) → Takes c → Takes (replenish_recv_window id n c)
unfolding replenish_recv_window
replenish_recv_window-Takes id n c h =
    let plain = replenish_connection_window-Takes n c h in
    if_case Takes (c.closed_flag || n == 0) c _ (λ e. h)
      (λ e.
        option_case Takes (find_stream id c.streams) _ _ (λ e'. plain)
          (λ s found.
            if_case Takes s.remote_closed _ _ (λ closed. plain)
              (λ live. replenish_connection_window-Takes n (give_window id n s c) (
                send-Takes (store id (record s { recv_window = s.recv_window +ℤ pos n }) c)
                  (window_update id n)
                  (store-Takes id _ c (Each-find TakesData id s c.streams h found) h)))))

pub retire_if_fully_closed-Takes :
    (id : ℕ) (c : H2Connection) → Takes c → Takes (retire_if_fully_closed id c)
unfolding retire_if_fully_closed
retire_if_fully_closed-Takes id c h =
    option_case Takes (find_stream id c.streams) _ _ (λ e. h)
      (λ s found.
        if_case Takes (s.local_closed && s.remote_closed) _ _
          (λ e.
            wake_stream_slots-Takes (detach id (retired s) c)
              (Each-delete TakesData id c.streams h))
          (λ e. h))

pub destroy-Takes : (e : Error) (c : H2Connection) → Takes c → Takes (destroy e c)
unfolding destroy
destroy-Takes e c h =
    if_case Takes c.closed_flag _ _ (λ e'. h) (λ e'. wake_stream_slots-Takes (closed_by e c) tt)

pub connection_error-Takes : (e : Error) (c : H2Connection) → Takes c → Takes (connection_error e c)
unfolding connection_error
connection_error-Takes e c h = destroy-Takes e _ (send-Takes c _ h)
