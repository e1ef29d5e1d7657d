-- ===== src/Connection/Credit/Frames.antt =====
-- The account and the bodies through whatever the transport delivers.
use grpc_bridge.Prelude.{
  ℕ, ◌+◌, ◌≡◌, refl, ap, ◌||◌, Option, none, some, [], ◌∷◌, ltb, ◌==◌, if_case, option_case, arith,
}
use grpc_bridge.Prelude.Int.{ℤ, sub_ℕ}
use grpc_bridge.Errors.{Error, ErrorCode, protocol_error}
use grpc_bridge.Frames.Types.{Frame, WindowUpdateFrame, SettingsFrame, Settings, PingFrame}
use grpc_bridge.Stream.Credit.{Counted}
use grpc_bridge.Connection.Streams.{Streams, find_stream}
use grpc_bridge.Connection.Streams.Each.{Each, Each-find}
use grpc_bridge.Connection.State.{H2Connection, send}
use grpc_bridge.Connection.Teardown.{reset_stream, wake_stream_slots, connection_error}
use grpc_bridge.Connection.Blocks.{Outcome}
use grpc_bridge.Connection.Receive.{
  on_window_update, adjust_streams, apply_initial_window, apply_max_frame_size,
  apply_other_settings, ◌and_then◌, apply_remote_settings, on_settings, take_ping, hex, on_ping,
}
use grpc_bridge.Connection.Credit.Account.{Credit, update-Credit, buffered_in}
use grpc_bridge.Connection.Credit.Ends.{
  send-Credit, wake_stream_slots-Credit, reset_stream-Credit, connection_error-Credit,
}
use grpc_bridge.Connection.Credit.Arrivals.{TakesData}
use grpc_bridge.Connection.Bodies.{
  Takes, send-Takes, wake_stream_slots-Takes, reset_stream-Takes, connection_error-Takes,
}

abbrev pub Good : H2Connection → Type 0
Good c = Credit 0 0 c × Takes c

abbrev pub GoodOutcome : Outcome → Type 0
GoodOutcome o = Good o.0

pub send-Good : (c : H2Connection) (f : Frame) → Good c → Good (send c f)
send-Good c f (h, t) = (send-Credit 0 0 c f h, send-Takes c f t)

pub reset_stream-Good :
    (id : ℕ) (code : ErrorCode) (c : H2Connection) → Good c → Good (reset_stream id code c)
reset_stream-Good id code c (h, t) =
    (reset_stream-Credit 0 0 id code c h, reset_stream-Takes id code c t)

pub connection_error-Good : (e : Error) (c : H2Connection) → Good c → Good (connection_error e c)
connection_error-Good e c (h, t) = (connection_error-Credit 0 0 e c h, connection_error-Takes e c t)

wake_stream_slots-Good : (c : H2Connection) → Good c → Good (wake_stream_slots c)
wake_stream_slots-Good c (h, t) = (wake_stream_slots-Credit 0 0 c h, wake_stream_slots-Takes c t)

pub on_window_update-Credit :
    (f : WindowUpdateFrame) (c : H2Connection) → Credit 0 0 c → Credit 0 0 (on_window_update f c).0
unfolding on_window_update
on_window_update-Credit f c h =
    let P : Outcome → Type 0 = λ o. Credit 0 0 o.0 in
    if_case P (f.window_size_increment == 0) _ _
      (λ e.
        if_case P (f.stream_id == 0) _ _ (λ e'. h)
          (λ e'. reset_stream-Credit 0 0 f.stream_id protocol_error c h))
      (λ e.
        if_case P (f.stream_id == 0) _ _ (λ e'. h)
          (λ e'.
            option_case P (find_stream f.stream_id c.streams) _ _ (λ none_there. h)
              (λ s found.
                update-Credit 0 0 f.stream_id s _ c found
                  (Each-find Counted f.stream_id s c.streams h.1 found) refl h)))

-- A change of the send windows.
adjust_streams-Each :
    (delta : ℤ) (m : Streams)
    → (Each Counted m → Each Counted (adjust_streams delta m))
      × (Each TakesData m → Each TakesData (adjust_streams delta m))
      × (buffered_in (adjust_streams delta m) ≡ buffered_in m)
unfolding adjust_streams
adjust_streams-Each delta [] = (λ h. tt, λ h. tt, refl)
adjust_streams-Each delta ((id, s) ∷ m) =
    let (counted, takes, same) = adjust_streams-Each delta m in
    (λ h. (h.0, counted h.1), λ h. (h.0, takes h.1), ap (◌+◌ s.recv_buffered) same)

apply_initial_window-Good :
    (o : Option ℕ) (c : H2Connection) → Good c → GoodOutcome (apply_initial_window o c)
unfolding apply_initial_window
apply_initial_window-Good none c h = h
apply_initial_window-Good (some n) c ((sum, each, all), t) =
    let (counted, takes, same) =
      adjust_streams-Each (sub_ℕ n c.remote.initial_window_size) c.streams in
    if_case GoodOutcome (ltb 0x7fffffff n) _ _ (λ e. ((sum, each, all), t))
      (λ e. ((ground (arith, same, sum), counted each, all), takes t))

apply_max_frame_size-Good :
    (o : Option ℕ) (c : H2Connection) → Good c → GoodOutcome (apply_max_frame_size o c)
unfolding apply_max_frame_size
apply_max_frame_size-Good none c h = h
apply_max_frame_size-Good (some n) c h =
    if_case GoodOutcome (ltb n 16384 || ltb 16777215 n) _ _ (λ e. h) (λ e. h)

apply_other_settings-Good :
    (s : Settings) (c : H2Connection) → Good c → Good (apply_other_settings s c)
unfolding apply_other_settings
apply_other_settings-Good s c h =
    option_case Good s.max_concurrent_streams _ _ (λ e. h) (λ n e. wake_stream_slots-Good _ h)

and_then-Good :
    (o : Outcome) (f : H2Connection → Outcome)
    → GoodOutcome o
    → ((c : H2Connection) → Good c → GoodOutcome (f c))
    → GoodOutcome (o and_then f)
and_then-Good (c, none) f h k = k c h
and_then-Good (c, some e) f h k = h

pub on_settings-Good :
    (f : SettingsFrame) (c : H2Connection) → Good c → GoodOutcome (on_settings f c)
unfolding on_settings apply_remote_settings
on_settings-Good f c h =
    let s = f.settings in
    if_case GoodOutcome f.ack _ _ (λ e. h)
      (λ e.
        and_then-Good (apply_remote_settings s c) _
          (and_then-Good
            (apply_initial_window s.initial_window_size c
              and_then apply_max_frame_size s.max_frame_size)
            _
            (and_then-Good (apply_initial_window s.initial_window_size c) _
              (apply_initial_window-Good s.initial_window_size c h)
              (apply_max_frame_size-Good s.max_frame_size))
            (apply_other_settings-Good s))
          (λ c1 h1. send-Good c1 _ h1))

pub on_ping-Good : (now : ℕ) (f : PingFrame) (c : H2Connection) → Good c → Good (on_ping now f c)
unfolding on_ping
on_ping-Good now f c h =
    if_case Good f.ack _ _
      (λ e. option_case Good (take_ping (hex f.opaque_data) c.pings) _ _ (λ e'. h) (λ x e'. h))
      (λ e. send-Good c _ h)
