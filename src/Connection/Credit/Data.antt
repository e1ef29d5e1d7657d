-- ===== src/Connection/Credit/Data.antt =====
-- The account through the DATA frames that arrive.
use grpc_bridge.Prelude.{
  ℕ, ◌+◌, ◌-◌, ◌≤◌, ◌≡◌, refl, ap, ◌∙◌, inl, inr, Bool, true, false, ◌||◌, none, some, List, [],
  ◌∷◌, length, ltb, ◌==◌, if_case, option_case, arith,
}
use grpc_bridge.Prelude.Int.{ℤ, pos, ◌+ℤ◌, ◌-ℤ◌, ltb_ℤ}
use grpc_bridge.Errors.{stream_closed, flow_control_error}
use grpc_bridge.Frames.Types.{DataFrame}
use grpc_bridge.Stream.State.{H2Stream, wake_recv, receive_data}
use grpc_bridge.Stream.Credit.{Counted, step-Balanced}
use grpc_bridge.Stream.Steps.{gets_data, step}
use grpc_bridge.Connection.Streams.{find_stream}
use grpc_bridge.Connection.Streams.Each.{Each, Each-find, find_stream-set_stream}
use grpc_bridge.Connection.State.{H2Connection, window_update}
use grpc_bridge.Connection.Teardown.{
  store, replenish_connection_window, replenish_recv_window, rst_stream, give_window,
}
use grpc_bridge.Connection.Blocks.{Outcome}
use grpc_bridge.Connection.Receive.{
  flow_bytes, after_data, take_data, on_data, is_idle_inbound_stream,
}
use grpc_bridge.Connection.Credit.Account.{Credit, Credit-shift, store-Credit, update-Credit}
use grpc_bridge.Connection.Credit.Ends.{
  send-Credit, replenish_connection_window-Credit, replenish_recv_window-Credit,
  reset_stream-Credit, retire_if_fully_closed-Credit, send-streams,
  replenish_connection_window-streams,
}
use grpc_bridge.Connection.Credit.Arrivals.{TakesData}

-- A stream of the map in front of, and behind, a change of its receive window.
abbrev Windowed : ℕ → H2Stream → H2Connection → Type 0
Windowed id s c = (w : ℤ) × (find_stream id c.streams ≡ some (record s { recv_window = w }))

replenish_recv_window-Windowed :
    (id n : ℕ) (s : H2Stream) (c : H2Connection)
    → find_stream id c.streams ≡ some s
    → Windowed id s (replenish_recv_window id n c)
unfolding replenish_recv_window
replenish_recv_window-Windowed id n s c e =
    if_case (Windowed id s) (c.closed_flag || n == 0) c _ (λ e'. (s.recv_window, e))
      (λ e'. rw e (
        if_case (Windowed id s) s.remote_closed _ _
          (λ e'. (s.recv_window, ap (find_stream id) (replenish_connection_window-streams n c) ∙ e))
          (λ e'. (
            s.recv_window +ℤ pos n,
            ap (find_stream id) (
                  replenish_connection_window-streams n (give_window id n s c)
                  ∙ send-streams (store id (record s { recv_window = s.recv_window +ℤ pos n }) c)
                      (window_update id n))
                ∙ find_stream-set_stream id _ c.streams,
          ))))

receive_data_all :
    (s : H2Stream) (bytes : List ℕ) (end_stream : Bool)
    → s.body_done ≡ false
    → (receive_data s bytes end_stream).recv_buffered ≡ s.recv_buffered + length bytes
unfolding receive_data wake_recv
receive_data_all s [] end_stream e = ground arith
receive_data_all s (b ∷ bytes) end_stream e = ground arith

body_open : (s : H2Stream) → TakesData s → s.remote_closed ≡ false → s.body_done ≡ false
body_open s h e = ground (arith, h)

module _ (due ahead : ℕ) where
  stored-Credit :
      (f : DataFrame) (s new : H2Stream) (c : H2Connection)
      → find_stream f.stream_id c.streams ≡ some s
      → Counted new
      → new.recv_buffered ≡ s.recv_buffered + length f.bytes
      → length f.bytes ≤ flow_bytes f
      → Credit (due + flow_bytes f) (ahead + (flow_bytes f - length f.bytes)) c
      → Credit due ahead (store f.stream_id new c)
  stored-Credit f s new c found counted more sized h =
      Credit-shift _ _ due ahead (store f.stream_id new c) (omega (arith, sized, more)) (
        store-Credit (due + flow_bytes f) (ahead + (flow_bytes f - length f.bytes)) f.stream_id s
          new c found counted h)

  after_data-Credit :
      (f : DataFrame) (s : H2Stream) (c : H2Connection)
      → find_stream f.stream_id c.streams ≡ some s
      → s.body_done ≡ false
      → Counted s
      → length f.bytes ≤ flow_bytes f
      → Credit (due + flow_bytes f) (ahead + (flow_bytes f - length f.bytes)) c
      → Credit due ahead (after_data f s c)
  unfolding step
  after_data-Credit f s c found takes counted sized h =
      let s1 = receive_data s f.bytes f.end_stream in
      let counted1 : Counted s1 =
        (step-Balanced (λ name. none) s (gets_data f.bytes f.end_stream) counted).counted in
      let more = receive_data_all s f.bytes f.end_stream takes in
      if_case (Credit due ahead) f.end_stream _ _
        (λ e.
          retire_if_fully_closed-Credit due ahead f.stream_id _
            (stored-Credit f s (record s1 { remote_closed = true }) c found counted1 more sized h))
        (λ e. stored-Credit f s s1 c found counted1 more sized h)

  -- DATA for a live stream: the padding is returned, and the rest is buffered.
  take_data-Credit :
      (f : DataFrame) (s : H2Stream) (c : H2Connection)
      → find_stream f.stream_id c.streams ≡ some s
      → s.body_done ≡ false
      → length f.bytes ≤ flow_bytes f
      → Credit (due + flow_bytes f) ahead c
      → Credit due ahead (take_data f s c)
  unfolding take_data
  take_data-Credit f s c e takes sized h =
      let id = f.stream_id in
      let pad = flow_bytes f - length f.bytes in
      let s1 : H2Stream = record s { recv_window = s.recv_window -ℤ pos (flow_bytes f) } in
      let c1 = store id s1 c in
      let c2 = replenish_recv_window id pad c1 in
      let counted = Each-find Counted id s c.streams h.1 e in
      let h1 = update-Credit (due + flow_bytes f) ahead id s s1 c e counted refl h in
      let h2 = replenish_recv_window-Credit (due + flow_bytes f) ahead id pad c1 h1 in
      let (w, found) =
        replenish_recv_window-Windowed id pad s1 c1 (find_stream-set_stream id s1 c.streams) in
      rw (found, take_data)
        (after_data-Credit f (record s { recv_window = w }) c2 found takes counted sized h2)

  spent-Credit :
      (flow : ℕ) (c : H2Connection)
      → ltb c.conn_recv_available flow ≡ false
      → Credit due ahead c
      → Credit (due + flow) ahead (record c { conn_recv_available = c.conn_recv_available - flow })
  spent-Credit flow c e (inl closed, each, all) = (inl closed, each, all)
  spent-Credit flow c e (inr sum, each, all) = (ground arith, each, all)

  returned-Credit :
      (flow : ℕ) (c : H2Connection)
      → Credit (due + flow) ahead c
      → Credit due ahead (replenish_connection_window flow c)
  returned-Credit flow c h =
      Credit-shift _ _ due ahead (replenish_connection_window flow c) (omega arith)
        (replenish_connection_window-Credit (due + flow) ahead flow c h)

  pub on_data-Credit :
      (f : DataFrame) (c : H2Connection)
      → length f.bytes ≤ flow_bytes f
      → Each TakesData c.streams
      → Credit due ahead c
      → Credit due ahead (on_data f c).0
  unfolding on_data
  on_data-Credit f c sized takes h =
      let flow = flow_bytes f in
      let P : Outcome → Type 0 = λ o. Credit due ahead o.0 in
      let c1 : H2Connection = record c { conn_recv_available = c.conn_recv_available - flow } in
      let c2 = replenish_connection_window flow c1 in
      if_case P (ltb c.conn_recv_available flow) _ _ (λ e. h)
        (λ e.
          let h1 = spent-Credit flow c e h in
          let h2 = returned-Credit flow c1 h1 in
          option_case P (find_stream f.stream_id c.streams) _ _
            (λ e'.
              if_case P (is_idle_inbound_stream f.stream_id c2.next_stream_id c2.highest_promised) _
                _ (λ idle. h2)
                (λ known. send-Credit due ahead c2 (rst_stream f.stream_id stream_closed) h2))
            (λ s found.
              if_case P s.remote_closed _ _
                (λ closed. reset_stream-Credit due ahead f.stream_id stream_closed c2 h2)
                (λ live.
                  if_case P (ltb_ℤ s.recv_window (pos flow)) _ _
                    (λ over. reset_stream-Credit due ahead f.stream_id flow_control_error c2 h2)
                    (λ fits.
                      take_data-Credit f s c1 found
                        (body_open s (Each-find TakesData f.stream_id s c.streams takes found) live)
                        sized h1))))
