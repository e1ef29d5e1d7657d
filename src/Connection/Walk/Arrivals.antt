-- ===== src/Connection/Walk/Arrivals.antt =====
-- The walk through the frames that arrive, but for header blocks.
use grpc_bridge.Prelude.{
  ℕ, ◌-◌, refl, ◌||◌, Option, none, some, length, ltb, ◌==◌, if_case, option_case,
}
use grpc_bridge.Prelude.Int.{pos, ◌-ℤ◌, ltb_ℤ}
use grpc_bridge.Errors.{connection_failure, stream_closed, flow_control_error, protocol_error}
use grpc_bridge.Frames.Types.{
  DataFrame, RstStreamFrame, WindowUpdateFrame, GoawayFrame, SettingsFrame, Settings, PingFrame,
}
use grpc_bridge.Stream.State.{H2Stream, discard_buffered}
use grpc_bridge.Connection.Streams.{find_stream}
use grpc_bridge.Connection.State.{H2Connection}
use grpc_bridge.Connection.Teardown.{
  store, replenish_connection_window, replenish_recv_window, rst_stream,
}
use grpc_bridge.Connection.Blocks.{Outcome}
use grpc_bridge.Connection.Receive.{
  flow_bytes, after_data, take_data, on_data, on_rst_stream, on_window_update, on_goaway,
  going_away, goaway_name, is_idle_inbound_stream, apply_initial_window, apply_max_frame_size,
  apply_other_settings, ◌and_then◌, apply_remote_settings, on_settings, take_ping, hex, on_ping,
}
use grpc_bridge.Connection.Walk.{
  Kept, wake_stream_slots-Kept, replenish_connection_window-Kept, replenish_recv_window-Kept,
  reset_stream-Kept, retire_if_fully_closed-Kept, destroy-Kept,
}

module _ (P : H2Connection → Type 0) (k : Kept P) where
  abbrev Out : Outcome → Type 0
  Out o = P o.0

  after_data-Kept : (f : DataFrame) (s : H2Stream) (c : H2Connection) → P c → P (after_data f s c)
  after_data-Kept f s c h =
      if_case P f.end_stream _ _
        (λ e. retire_if_fully_closed-Kept P k f.stream_id _ (k.same c _ refl h))
        (λ e. k.same c _ refl h)

  take_data-Kept : (f : DataFrame) (s : H2Stream) (c : H2Connection) → P c → P (take_data f s c)
  unfolding take_data
  take_data-Kept f s c h =
      let s1 : H2Stream = record s { recv_window = s.recv_window -ℤ pos (flow_bytes f) } in
      let c2 =
        replenish_recv_window f.stream_id (flow_bytes f - length f.bytes)
          (store f.stream_id s1 c) in
      let h2 : P c2 =
        replenish_recv_window-Kept P k f.stream_id (flow_bytes f - length f.bytes)
          (store f.stream_id s1 c) (k.same c _ refl h) in
      option_case P (find_stream f.stream_id c2.streams) _ _ (λ e. h2)
        (λ s2 found. after_data-Kept f s2 c2 h2)

  pub on_data-Kept : (f : DataFrame) (c : H2Connection) → P c → P (on_data f c).0
  unfolding on_data
  on_data-Kept f c h =
      let flow = flow_bytes f in
      let c1 : H2Connection = record c { conn_recv_available = c.conn_recv_available - flow } in
      let c2 = replenish_connection_window flow c1 in
      let h1 : P c1 = k.same c c1 refl h in
      let h2 : P c2 = replenish_connection_window-Kept P k flow c1 h1 in
      if_case Out (ltb c.conn_recv_available flow) _ _ (λ e. h)
        (λ e.
          option_case Out (find_stream f.stream_id c.streams) _ _
            (λ e'.
              if_case Out (is_idle_inbound_stream f.stream_id c2.next_stream_id c2.highest_promised)
                _ _ (λ idle. h2) (λ known. k.sends c2 (rst_stream f.stream_id stream_closed) h2))
            (λ s found.
              if_case Out s.remote_closed _ _
                (λ closed. reset_stream-Kept P k f.stream_id stream_closed c2 h2)
                (λ live.
                  if_case Out (ltb_ℤ s.recv_window (pos flow)) _ _
                    (λ over. reset_stream-Kept P k f.stream_id flow_control_error c2 h2)
                    (λ fits. take_data-Kept f s c1 h1))))

  pub on_rst_stream-Kept : (f : RstStreamFrame) (c : H2Connection) → P c → P (on_rst_stream f c)
  unfolding on_rst_stream
  on_rst_stream-Kept f c h =
      option_case P (find_stream f.stream_id c.streams) _ _ (λ e. h)
        (λ s found.
          wake_stream_slots-Kept P k _
            (k.same _ _ refl (replenish_connection_window-Kept P k (discard_buffered s).0 c h)))

  pub on_window_update-Kept :
      (f : WindowUpdateFrame) (c : H2Connection) → P c → P (on_window_update f c).0
  unfolding on_window_update
  on_window_update-Kept f c h =
      if_case Out (f.window_size_increment == 0) _ _
        (λ e.
          if_case Out (f.stream_id == 0) _ _ (λ e'. h)
            (λ e'. reset_stream-Kept P k f.stream_id protocol_error c h))
        (λ e.
          if_case Out (f.stream_id == 0) _ _ (λ e'. k.same c _ refl h)
            (λ e'.
              option_case Out (find_stream f.stream_id c.streams) _ _ (λ e2. h)
                (λ s found. k.same c _ refl h)))

  apply_initial_window-Kept :
      (o : Option ℕ) (c : H2Connection) → P c → Out (apply_initial_window o c)
  unfolding apply_initial_window
  apply_initial_window-Kept none c h = h
  apply_initial_window-Kept (some n) c h =
      if_case Out (ltb 0x7fffffff n) _ _ (λ e. h) (λ e. k.same c _ refl h)

  apply_max_frame_size-Kept :
      (o : Option ℕ) (c : H2Connection) → P c → Out (apply_max_frame_size o c)
  unfolding apply_max_frame_size
  apply_max_frame_size-Kept none c h = h
  apply_max_frame_size-Kept (some n) c h =
      if_case Out (ltb n 16384 || ltb 16777215 n) _ _ (λ e. h) (λ e. k.same c _ refl h)

  apply_other_settings-Kept : (s : Settings) (c : H2Connection) → P c → P (apply_other_settings s c)
  unfolding apply_other_settings
  apply_other_settings-Kept s c h =
      option_case P s.max_concurrent_streams _ _ (λ e. k.same c _ refl h)
        (λ n e. wake_stream_slots-Kept P k _ (k.same c _ refl h))

  and_then-Kept :
      (o : Outcome) (f : H2Connection → Outcome)
      → Out o
      → ((c : H2Connection) → P c → Out (f c))
      → Out (o and_then f)
  and_then-Kept (c, none) f h j = j c h
  and_then-Kept (c, some e) f h j = h

  pub on_settings-Kept : (f : SettingsFrame) (c : H2Connection) → P c → P (on_settings f c).0
  unfolding on_settings apply_remote_settings
  on_settings-Kept f c h =
      let s = f.settings in
      if_case Out f.ack _ _ (λ e. h)
        (λ e.
          and_then-Kept (apply_remote_settings s c) _
            (and_then-Kept
              (apply_initial_window s.initial_window_size c
                and_then apply_max_frame_size s.max_frame_size)
              _
              (and_then-Kept (apply_initial_window s.initial_window_size c) _
                (apply_initial_window-Kept s.initial_window_size c h)
                (apply_max_frame_size-Kept s.max_frame_size))
              (apply_other_settings-Kept s))
            (λ c1 h1. k.sends c1 _ h1))

  pub on_ping-Kept : (now : ℕ) (f : PingFrame) (c : H2Connection) → P c → P (on_ping now f c)
  unfolding on_ping
  on_ping-Kept now f c h =
      if_case P f.ack _ _
        (λ e.
          option_case P (take_ping (hex f.opaque_data) c.pings) _ _ (λ e'. h)
            (λ x e'. k.same c _ refl h))
        (λ e. k.sends c _ h)

  pub on_goaway-Kept : (f : GoawayFrame) (c : H2Connection) → P c → P (on_goaway f c)
  unfolding on_goaway
  on_goaway-Kept f c h =
      let h1 = wake_stream_slots-Kept P k (going_away f c) (k.same _ _ refl (k.drains c h)) in
      if_case P (f.error_code == 0) _ _ (λ e. h1)
        (λ e. destroy-Kept P k (connection_failure (goaway_name f.error_code)) _ h1)
