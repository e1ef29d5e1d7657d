-- ===== src/Connection/Walk.antt =====
-- What every call keeps that only writes frames and closes: a predicate on the frames sent, on the
-- closing and on the pending header block, shown once for all calls.
pub mod Arrivals
pub mod Bytes
pub mod Calls
use grpc_bridge.Prelude.{
  ℕ, ◌+◌, ◌-◌, ◌≡◌, refl, Bool, true, false, not, ◌&&◌, ◌||◌, Option, none, some, List, [], ◌∷◌,
  length, take, ltb, ◌==◌, if◌then◌else◌, if_case, option_case,
}
use grpc_bridge.Prelude.Int.{ℤ, pos, ◌+ℤ◌, ◌-ℤ◌, ltb_ℤ, sub_ℕ}
use grpc_bridge.Text.{Text}
use grpc_bridge.Errors.{
  Error, ErrorCode, connection_failure, stream_closed, flow_control_error, protocol_error, no_error,
  refused_stream, cancel,
}
use grpc_bridge.Flow.{consume, wait_positive}
use grpc_bridge.Frames.Types.{
  Frame, DataFrame, RstStreamFrame, WindowUpdateFrame, GoawayFrame, SettingsFrame, Settings,
  PingFrame,
}
use grpc_bridge.Hpack.Decoder.{Header}
use grpc_bridge.Hpack.Encoder.{encode}
use grpc_bridge.Stream.State.{H2Stream, discard_buffered, pull_body, cancel_body}
use grpc_bridge.Stream.Steps.{pulled_credit}
use grpc_bridge.Connection.Streams.{find_stream}
use grpc_bridge.Connection.State.{H2Connection, PendingHeaderBlock, send, window_update}
use grpc_bridge.Connection.Teardown.{
  store, detach, begin_close, wake_stream_slots, replenish_connection_window, give_window,
  replenish_recv_window, reset_stream, retire_if_fully_closed, closed_by, destroy, finish_close,
  connection_error, rst_stream,
}
use grpc_bridge.Connection.Blocks.{Outcome, promised, handle_push, add_stream, deliver_headers}

-- What the predicate may look at.
abbrev pub View : Type 0
View = Bool × Option Error × Bool × List Frame × Option PendingHeaderBlock

abbrev pub view : H2Connection → View
view c = (c.closed_flag, c.close_error, c.goaway_received, c.sent, c.pending_header_block)

-- A predicate that the calls keep.
pub record Kept (P : H2Connection → Type 0) : Type 0 where
  pub same : (c c' : H2Connection) → view c ≡ view c' → P c → P c'
  pub sends : (c : H2Connection) (f : Frame) → P c → P (send c f)
  pub drains : (c : H2Connection) → P c → P (record c { goaway_received = true })
  pub closes : (e : Error) (c : H2Connection) → c.closed_flag ≡ false → P c → P (closed_by e c)

module _ (P : H2Connection → Type 0) (k : Kept P) where
  pub begin_close-Kept : (c : H2Connection) → P c → P (begin_close c)
  unfolding begin_close
  begin_close-Kept c h = if_case P c.closed_flag _ _ (λ e. h) (λ e. k.same _ _ refl (k.sends c _ h))

  pub wake_stream_slots-Kept : (c : H2Connection) → P c → P (wake_stream_slots c)
  unfolding wake_stream_slots
  wake_stream_slots-Kept c h =
      k.same _ _ refl (if_case P _ (begin_close c) c (λ e. begin_close-Kept c h) (λ e. h))

  pub replenish_connection_window-Kept :
      (n : ℕ) (c : H2Connection) → P c → P (replenish_connection_window n c)
  unfolding replenish_connection_window
  replenish_connection_window-Kept n c h =
      if_case P (c.closed_flag || n == 0) c _ (λ e. h)
        (λ e. k.sends _ (window_update 0 n) (k.same c _ refl h))

  pub replenish_recv_window-Kept :
      (id n : ℕ) (c : H2Connection) → P c → P (replenish_recv_window id n c)
  unfolding replenish_recv_window
  replenish_recv_window-Kept id n c h =
      let plain = replenish_connection_window-Kept n c h in
      if_case P (c.closed_flag || n == 0) c _ (λ e. h)
        (λ e.
          option_case P (find_stream id c.streams) _ _ (λ e'. plain)
            (λ s found.
              if_case P s.remote_closed _ _ (λ e'. plain)
                (λ e'.
                  replenish_connection_window-Kept n (give_window id n s c)
                    (k.sends _ (window_update id n) (k.same c _ refl h)))))

  pub reset_stream-Kept :
      (id : ℕ) (code : ErrorCode) (c : H2Connection) → P c → P (reset_stream id code c)
  unfolding reset_stream
  reset_stream-Kept id code c h =
      let h1 = k.sends c (rst_stream id code) h in
      option_case P (find_stream id c.streams) _ _ (λ e. h1)
        (λ s found. wake_stream_slots-Kept _ (
          k.same _ _ refl (
            replenish_connection_window-Kept (discard_buffered s).0 (send c (rst_stream id code))
              h1)))

  pub retire_if_fully_closed-Kept :
      (id : ℕ) (c : H2Connection) → P c → P (retire_if_fully_closed id c)
  unfolding retire_if_fully_closed
  retire_if_fully_closed-Kept id c h =
      option_case P (find_stream id c.streams) _ _ (λ e. h)
        (λ s found.
          if_case P (s.local_closed && s.remote_closed) _ _
            (λ e. wake_stream_slots-Kept _ (k.same c _ refl h)) (λ e. h))

  pub destroy-Kept : (e : Error) (c : H2Connection) → P c → P (destroy e c)
  unfolding destroy
  destroy-Kept e c h =
      if_case P c.closed_flag _ _ (λ e'. h)
        (λ e'. k.same _ _ refl (wake_stream_slots-Kept _ (k.closes e c e' h)))

  pub connection_error-Kept : (e : Error) (c : H2Connection) → P c → P (connection_error e c)
  unfolding connection_error
  connection_error-Kept e c h = destroy-Kept e _ (k.sends c _ h)

  pub handle_push-Kept :
      (inherited : Text → Option Text) (promised_id : ℕ) (raw : List Header) (c : H2Connection)
      → P c
      → P (handle_push inherited promised_id raw c)
  unfolding handle_push add_stream
  handle_push-Kept inherited promised_id raw c h =
      let h1 : P (promised promised_id c) =
        if_case P (ltb c.highest_promised promised_id) _ c (λ e. k.same c _ refl h) (λ e. h) in
      if_case P (not (promised promised_id c).on_push) _ _ (λ e. k.sends _ _ h1)
        (λ e. k.same _ _ refl h1)

  pub deliver_headers-Kept :
      (inherited : Text → Option Text) (id : ℕ) (raw : List Header) (end_stream : Bool)
      (c : H2Connection)
      → P c
      → P (deliver_headers inherited id raw end_stream c)
  unfolding deliver_headers
  deliver_headers-Kept inherited id raw end_stream c h =
      option_case P (find_stream id c.streams) _ _ (λ e. h)
        (λ s found.
          if_case P end_stream _ _ (λ e. retire_if_fully_closed-Kept id _ (k.same c _ refl h))
            (λ e. k.same c _ refl h))
