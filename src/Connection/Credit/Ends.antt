-- ===== src/Connection/Credit/Ends.antt =====
-- The account through the receive windows, and the ends of streams and of the connection.
use grpc_bridge.Prelude.{
  ℕ, ◌+◌, ◌≡◌, refl, ap, ◌∙◌, inl, inr, true, ◌&&◌, ◌||◌, some, [], ◌∷◌, All, All-append, ◌==◌,
  if_case, option_case, arith,
}
use grpc_bridge.Errors.{Error, ErrorCode}
use grpc_bridge.Frames.Types.{Frame}
use grpc_bridge.Stream.State.{H2Stream, wake_recv, fail, discard_buffered}
use grpc_bridge.Stream.Credit.{Counted}
use grpc_bridge.Connection.Streams.{Streams, find_stream}
use grpc_bridge.Connection.State.{H2Connection, send}
use grpc_bridge.Connection.Teardown.{
  detach, begin_close, wake_stream_slots, replenish_connection_window, replenish_recv_window,
  reset_stream, retire_if_fully_closed, fail_all, destroy, connection_error, rst_stream, reset_of,
  retired, closed_by,
}
use grpc_bridge.Connection.Streams.Each.{Each, Each-find}
use grpc_bridge.Connection.Credit.Account.{
  Credit, Credit-shift, free-Credit, detach-Credit, update-Credit, leave-Credit,
}

pub send-streams : (c : H2Connection) (f : Frame) → (send c f).streams ≡ c.streams
unfolding send
send-streams c f = ground arith

pub replenish_connection_window-streams :
    (n : ℕ) (c : H2Connection) → (replenish_connection_window n c).streams ≡ c.streams
unfolding replenish_connection_window send
replenish_connection_window-streams n c = ground arith

pub fail-Counted : (s : H2Stream) (e : Error) → Counted s → Counted (fail s e)
unfolding fail wake_recv
fail-Counted s e h = h

fail_all-Counted : (e : Error) (m : Streams) → Each Counted m → All Counted (fail_all e m)
fail_all-Counted e [] h = tt
fail_all-Counted e ((id, s) ∷ m) h = (fail-Counted s e h.0, fail_all-Counted e m h.1)

reset_of_empty :
    (id : ℕ) (code : ErrorCode) (s : H2Stream)
    → Counted (reset_of id code s) × ((reset_of id code s).recv_buffered ≡ 0)
unfolding discard_buffered fail wake_recv
reset_of_empty id code s = (refl, refl)

module _ (due ahead : ℕ) where
  pub send-Credit :
      (c : H2Connection) (f : Frame) → Credit due ahead c → Credit due ahead (send c f)
  unfolding send
  send-Credit c f h = if_case (Credit due ahead) c.closed_flag c _ (λ e. h) (λ e. h)

  pub begin_close-Credit :
      (c : H2Connection) → Credit due ahead c → Credit due ahead (begin_close c)
  unfolding begin_close
  begin_close-Credit c h =
      if_case (Credit due ahead) c.closed_flag c _ (λ e. h) (λ e. send-Credit c _ h)

  pub wake_stream_slots-Credit :
      (c : H2Connection) → Credit due ahead c → Credit due ahead (wake_stream_slots c)
  unfolding wake_stream_slots
  wake_stream_slots-Credit c h =
      if_case (Credit due ahead) _ (begin_close c) c (λ e. begin_close-Credit c h) (λ e. h)

  unreplenished :
      (n : ℕ) (c : H2Connection)
      → c.closed_flag || n == 0 ≡ true
      → Credit due ahead c
      → Credit due (ahead + n) c
  unreplenished n c e (inl closed, each, all) = (inl closed, each, all)
  unreplenished n c e (inr sum, each, all) = (ground arith, each, all)

  pub replenish_connection_window-Credit :
      (n : ℕ) (c : H2Connection)
      → Credit due ahead c
      → Credit due (ahead + n) (replenish_connection_window n c)
  unfolding replenish_connection_window
  replenish_connection_window-Credit n c h =
      if_case (Credit due (ahead + n)) (c.closed_flag || n == 0) c _ (λ e. unreplenished n c e h)
        (λ e.
          if_case (Credit due (ahead + n)) c.closed_flag _ _ (λ e. free-Credit due ahead n c h)
            (λ e. free-Credit due ahead n c h))

  -- The stream's own window, and with it the connection's.
  pub replenish_recv_window-Credit :
      (id n : ℕ) (c : H2Connection)
      → Credit due ahead c
      → Credit due (ahead + n) (replenish_recv_window id n c)
  unfolding replenish_recv_window
  replenish_recv_window-Credit id n c h =
      if_case (Credit due (ahead + n)) (c.closed_flag || n == 0) c _ (λ e. unreplenished n c e h)
        (λ e.
          option_case (Credit due (ahead + n)) (find_stream id c.streams) _ _
            (λ e. replenish_connection_window-Credit n c h)
            (λ s found.
              if_case (Credit due (ahead + n)) s.remote_closed _ _
                (λ e. replenish_connection_window-Credit n c h)
                (λ e. replenish_connection_window-Credit n _ (
                  send-Credit _ _ (
                    update-Credit due ahead id s _ c found
                      (Each-find Counted id s c.streams h.1 found) refl h)))))

  -- The buffered bytes are returned before the stream leaves.
  pub discard-Credit :
      (id : ℕ) (s new : H2Stream) (c : H2Connection)
      → find_stream id c.streams ≡ some s
      → Counted new
      → new.recv_buffered ≡ 0
      → Credit due ahead c
      → Credit due ahead (detach id new (replenish_connection_window s.recv_buffered c))
  discard-Credit id s new c found counted zero h =
      let c1 = replenish_connection_window s.recv_buffered c in
      Credit-shift _ _ due ahead (detach id new c1) (omega (arith, zero)) (
        detach-Credit due (ahead + s.recv_buffered) id s new c1
          (ap (find_stream id) (replenish_connection_window-streams s.recv_buffered c) ∙ found)
          counted (replenish_connection_window-Credit s.recv_buffered c h))

  pub reset_stream-Credit :
      (id : ℕ) (code : ErrorCode) (c : H2Connection)
      → Credit due ahead c
      → Credit due ahead (reset_stream id code c)
  unfolding reset_stream discard_buffered
  reset_stream-Credit id code c h =
      let c1 = send c (rst_stream id code) in
      let h1 = send-Credit c (rst_stream id code) h in
      option_case (Credit due ahead) (find_stream id c.streams) _ _ (λ e. h1)
        (λ s found. wake_stream_slots-Credit _ (
          discard-Credit id s (reset_of id code s) c1
            (ap (find_stream id) (send-streams c (rst_stream id code)) ∙ found)
            (reset_of_empty id code s).0 (reset_of_empty id code s).1 h1))

  pub retire_if_fully_closed-Credit :
      (id : ℕ) (c : H2Connection)
      → Credit due ahead c
      → Credit due ahead (retire_if_fully_closed id c)
  unfolding retire_if_fully_closed
  retire_if_fully_closed-Credit id c h =
      option_case (Credit due ahead) (find_stream id c.streams) _ _ (λ e. h)
        (λ s found.
          if_case (Credit due ahead) (s.local_closed && s.remote_closed) _ _
            (λ e. wake_stream_slots-Credit _ (
              leave-Credit due ahead id s (retired s) c found
                (Each-find Counted id s c.streams h.1 found) refl h))
            (λ e. h))

  pub destroy-Credit :
      (e : Error) (c : H2Connection) → Credit due ahead c → Credit due ahead (destroy e c)
  unfolding destroy
  destroy-Credit e c h =
      if_case (Credit due ahead) c.closed_flag _ _ (λ e'. h)
        (λ e'. wake_stream_slots-Credit (closed_by e c) (
          inl refl,
          tt,
          All-append Counted (fail_all e c.streams) c.detached (fail_all-Counted e c.streams h.1)
              h.2,
        ))

  pub connection_error-Credit :
      (e : Error) (c : H2Connection) → Credit due ahead c → Credit due ahead (connection_error e c)
  unfolding connection_error
  connection_error-Credit e c h = destroy-Credit e _ (send-Credit c _ h)
