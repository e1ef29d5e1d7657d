-- ===== src/Connection/Bodies/Arrivals.antt =====
-- The bodies through the frames that arrive.
use grpc_bridge.Prelude.{
  ℕ, ◌-◌, ◌≡◌, refl, Bool, false, not, Option, List, length, ltb, ◌==◌, if_case, option_case, arith,
}
use grpc_bridge.Prelude.Int.{pos, ◌-ℤ◌, ltb_ℤ}
use grpc_bridge.Text.{Text}
use grpc_bridge.Errors.{connection_failure, stream_closed, flow_control_error, protocol_error}
use grpc_bridge.Frames.Types.{DataFrame, RstStreamFrame, WindowUpdateFrame, GoawayFrame}
use grpc_bridge.Hpack.Decoder.{Header}
use grpc_bridge.Stream.State.{
  H2Stream, wake_recv, end_body, discard_buffered, receive_headers, receive_data, receive_reset,
}
use grpc_bridge.Connection.Streams.{find_stream}
use grpc_bridge.Connection.Streams.Each.{Each-find, Each-set, Each-delete}
use grpc_bridge.Connection.State.{H2Connection}
use grpc_bridge.Connection.Teardown.{
  store, detach, replenish_connection_window, replenish_recv_window, rst_stream,
}
use grpc_bridge.Connection.Blocks.{
  Outcome, add_stream, pushed_stream, promised, handle_push, deliver_headers,
}
use grpc_bridge.Connection.Receive.{
  flow_bytes, after_data, take_data, on_data, on_rst_stream, on_window_update, on_goaway,
  going_away, goaway_name, is_idle_inbound_stream,
}
use grpc_bridge.Connection.Credit.Arrivals.{TakesData, excluded_kept}
use grpc_bridge.Connection.Bodies.{
  Takes, send-Takes, wake_stream_slots-Takes, replenish_connection_window-Takes, reset_stream-Takes,
  store-Takes, replenish_recv_window-Takes, retire_if_fully_closed-Takes, destroy-Takes,
}

receive_headers-TakesData :
    (inherited : Text → Option Text) (s : H2Stream) (raw : List Header) (end_stream : Bool)
    → end_stream ≡ false
    → TakesData s
    → TakesData (receive_headers inherited s raw end_stream)
unfolding receive_headers end_body wake_recv
receive_headers-TakesData inherited s raw end_stream e h = ground (arith, h)

receive_data-TakesData :
    (s : H2Stream) (bytes : List ℕ) (end_stream : Bool)
    → end_stream ≡ false
    → TakesData s
    → TakesData (receive_data s bytes end_stream)
unfolding receive_data wake_recv
receive_data-TakesData s bytes end_stream e h = ground (arith, h)

pub handle_push-Takes :
    (inherited : Text → Option Text) (promised_id : ℕ) (raw : List Header) (c : H2Connection)
    → Takes c
    → Takes (handle_push inherited promised_id raw c)
unfolding handle_push add_stream
handle_push-Takes inherited promised_id raw c h =
    let c1 = promised promised_id c in
    let h1 : Takes c1 = if_case Takes (ltb c.highest_promised promised_id) _ c (λ e. h) (λ e. h) in
    if_case Takes (not c1.on_push) _ _ (λ e. send-Takes c1 _ h1)
      (λ e. Each-set TakesData promised_id (pushed_stream promised_id c1) c1.streams h1 refl)

pub deliver_headers-Takes :
    (inherited : Text → Option Text) (id : ℕ) (raw : List Header) (end_stream : Bool)
    (c : H2Connection)
    → Takes c
    → Takes (deliver_headers inherited id raw end_stream c)
unfolding deliver_headers
deliver_headers-Takes inherited id raw end_stream c h =
    option_case Takes (find_stream id c.streams) _ _ (λ e. h)
      (λ s found.
        if_case Takes end_stream _ _
          (λ e. retire_if_fully_closed-Takes id _ (store-Takes id _ c refl h))
          (λ e.
            store-Takes id _ c
              (receive_headers-TakesData inherited s raw end_stream e
                (Each-find TakesData id s c.streams h found))
              h))

after_data-Takes :
    (f : DataFrame) (s : H2Stream) (c : H2Connection)
    → TakesData s
    → Takes c
    → Takes (after_data f s c)
after_data-Takes f s c p h =
    if_case Takes f.end_stream _ _
      (λ e. retire_if_fully_closed-Takes f.stream_id _ (store-Takes f.stream_id _ c refl h))
      (λ e. store-Takes f.stream_id _ c (receive_data-TakesData s f.bytes f.end_stream e p) h)

take_data-Takes :
    (f : DataFrame) (s : H2Stream) (c : H2Connection)
    → TakesData s
    → Takes c
    → Takes (take_data f s c)
unfolding take_data
take_data-Takes f s c p h =
    let id = f.stream_id in
    let s1 : H2Stream = record s { recv_window = s.recv_window -ℤ pos (flow_bytes f) } in
    let c2 = replenish_recv_window id (flow_bytes f - length f.bytes) (store id s1 c) in
    let h2 =
      replenish_recv_window-Takes id (flow_bytes f - length f.bytes) (store id s1 c)
        (store-Takes id s1 c p h) in
    option_case Takes (find_stream id c2.streams) _ _ (λ e. h2)
      (λ s2 found. after_data-Takes f s2 c2 (Each-find TakesData id s2 c2.streams h2 found) h2)

pub on_data-Takes : (f : DataFrame) (c : H2Connection) → Takes c → Takes (on_data f c).0
unfolding on_data
on_data-Takes f c h =
    let flow = flow_bytes f in
    let P : Outcome → Type 0 = λ o. Takes o.0 in
    let c1 : H2Connection = record c { conn_recv_available = c.conn_recv_available - flow } in
    let c2 = replenish_connection_window flow c1 in
    let h2 = replenish_connection_window-Takes flow c1 h in
    if_case P (ltb c.conn_recv_available flow) _ _ (λ e. h)
      (λ e.
        option_case P (find_stream f.stream_id c.streams) _ _
          (λ e'.
            if_case P (is_idle_inbound_stream f.stream_id c2.next_stream_id c2.highest_promised) _ _
              (λ idle. h2) (λ known. send-Takes c2 (rst_stream f.stream_id stream_closed) h2))
          (λ s found.
            if_case P s.remote_closed _ _
              (λ closed. reset_stream-Takes f.stream_id stream_closed c2 h2)
              (λ live.
                if_case P (ltb_ℤ s.recv_window (pos flow)) _ _
                  (λ over. reset_stream-Takes f.stream_id flow_control_error c2 h2)
                  (λ fits.
                    take_data-Takes f s c1 (Each-find TakesData f.stream_id s c.streams h found)
                      h))))

pub on_rst_stream-Takes :
    (f : RstStreamFrame) (c : H2Connection) → Takes c → Takes (on_rst_stream f c)
unfolding on_rst_stream
on_rst_stream-Takes f c h =
    option_case Takes (find_stream f.stream_id c.streams) _ _ (λ e. h)
      (λ s found.
        let c1 = replenish_connection_window (discard_buffered s).0 c in
        wake_stream_slots-Takes
          (detach f.stream_id (receive_reset (discard_buffered s).1 f.error_code) c1)
          (Each-delete TakesData f.stream_id c1.streams
            (replenish_connection_window-Takes (discard_buffered s).0 c h)))

pub on_window_update-Takes :
    (f : WindowUpdateFrame) (c : H2Connection) → Takes c → Takes (on_window_update f c).0
unfolding on_window_update
on_window_update-Takes f c h =
    let P : Outcome → Type 0 = λ o. Takes o.0 in
    if_case P (f.window_size_increment == 0) _ _
      (λ e.
        if_case P (f.stream_id == 0) _ _ (λ e'. h)
          (λ e'. reset_stream-Takes f.stream_id protocol_error c h))
      (λ e.
        if_case P (f.stream_id == 0) _ _ (λ e'. h)
          (λ e'.
            option_case P (find_stream f.stream_id c.streams) _ _ (λ none_there. h)
              (λ s found.
                store-Takes f.stream_id _ c (Each-find TakesData f.stream_id s c.streams h found)
                  h)))

pub on_goaway-Takes : (f : GoawayFrame) (c : H2Connection) → Takes c → Takes (on_goaway f c)
unfolding on_goaway
on_goaway-Takes f c h =
    let h1 = wake_stream_slots-Takes (going_away f c) (
      excluded_kept TakesData (goaway_name f.error_code) f.last_stream_id c.streams c.detached h) in
    if_case Takes (f.error_code == 0) _ _ (λ e. h1)
      (λ e. destroy-Takes (connection_failure (goaway_name f.error_code)) _ h1)
