-- ===== src/Connection/Credit/Arrivals.antt =====
-- The account through the frames that arrive.
use grpc_bridge.Prelude.{
  ℕ, ◌+◌, ◌≡◌, refl, inl, inr, Bool, true, not, ◌&&◌, ◌||◌, Option, none, some, List, [], ◌∷◌, All,
  ltb, ◌==◌, Bool-cases, if_case, option_case, arith,
}
use grpc_bridge.Text.{Text}
use grpc_bridge.Errors.{ErrorCode, connection_failure}
use grpc_bridge.Frames.Types.{RstStreamFrame, GoawayFrame}
use grpc_bridge.Hpack.Decoder.{Header}
use grpc_bridge.Stream.State.{
  H2Stream, is_some, wake_recv, fail, discard_buffered, receive_headers, receive_reset,
}
use grpc_bridge.Stream.Credit.{Counted, receive_headers_queue, step-Balanced}
use grpc_bridge.Stream.Steps.{gets_headers, step}
use grpc_bridge.Connection.Streams.{Streams, find_stream, set_stream}
use grpc_bridge.Connection.Streams.Each.{Each, Each-find, Each-set}
use grpc_bridge.Connection.State.{H2Connection}
use grpc_bridge.Connection.Teardown.{detach, replenish_connection_window}
use grpc_bridge.Connection.Blocks.{
  replaced, add_stream, pushed_stream, promised, handle_push, deliver_headers,
}
use grpc_bridge.Connection.Receive.{
  on_rst_stream, on_goaway, exclude_streams, excluded, going_away, goaway_name,
}
use grpc_bridge.Connection.Credit.Account.{
  Credit, update-Credit, buffered_in, buffered_of, buffered_in-set_stream,
  buffered_in-set_stream_new,
}
use grpc_bridge.Connection.Credit.Ends.{
  send-Credit, wake_stream_slots-Credit, discard-Credit, retire_if_fully_closed-Credit,
  fail-Counted, destroy-Credit,
}

-- A stream whose remote side is open has a body that takes data.
abbrev pub TakesData : H2Stream → Type 0
TakesData s =
    (s.remote_closed || (not s.body_done && not s.recv_ended && not (is_some s.recv_error))) ≡ true

reset_empty :
    (s : H2Stream) (error_code : ℕ)
    → Counted (receive_reset (discard_buffered s).1 error_code)
      × ((receive_reset (discard_buffered s).1 error_code).recv_buffered ≡ 0)
unfolding receive_reset discard_buffered fail wake_recv
reset_empty s error_code = (refl, refl)

excluded_sum :
    (code : ErrorCode) (last : ℕ) (m : Streams) (out : List H2Stream)
    → (buffered_in (exclude_streams code last m out).0
          + buffered_of (exclude_streams code last m out).1
        ≡ buffered_in m + buffered_of out)
unfolding exclude_streams fail wake_recv
excluded_sum code last [] out = omega arith
excluded_sum code last ((id, s) ∷ m) out = elim (Bool-cases (ltb last id)) [
  | inl out_of_range ↦
      rw out_of_range (omega (arith, excluded_sum code last m (fail s (excluded code id) ∷ out)))
  | inr kept ↦ rw kept (omega (arith, excluded_sum code last m out))
]

pub excluded_kept :
    (P : H2Stream → Type 0) (code : ErrorCode) (last : ℕ) (m : Streams) (out : List H2Stream)
    → Each P m
    → Each P (exclude_streams code last m out).0
unfolding exclude_streams
excluded_kept P code last [] out h = tt
excluded_kept P code last ((id, s) ∷ m) out h = elim (Bool-cases (ltb last id)) [
  | inl gone ↦ rw gone (excluded_kept P code last m _ h.1)
  | inr kept ↦ rw kept (h.0, excluded_kept P code last m out h.1)
]

excluded_out :
    (code : ErrorCode) (last : ℕ) (m : Streams) (out : List H2Stream)
    → Each Counted m
    → All Counted out
    → All Counted (exclude_streams code last m out).1
unfolding exclude_streams
excluded_out code last [] out h k = k
excluded_out code last ((id, s) ∷ m) out h k = elim (Bool-cases (ltb last id)) [
  | inl gone ↦ rw gone (excluded_out code last m _ h.1 (fail-Counted s _ h.0, k))
  | inr kept ↦ rw kept (excluded_out code last m out h.1 k)
]

module _ (due ahead : ℕ) where
  replaced-Credit :
      (id : ℕ) (new : H2Stream) (c : H2Connection) (o : Option H2Stream)
      → find_stream id c.streams ≡ o
      → Counted new
      → new.recv_buffered ≡ 0
      → Credit due ahead c
      → Credit due ahead
          (record c { streams = set_stream id new c.streams; detached = replaced o c.detached })
  replaced-Credit id new c none e counted zero (sum, each, all) = (
    (ground (arith, buffered_in-set_stream_new id new c.streams e)),
    Each-set Counted id new c.streams each counted,
    all,
  )
  replaced-Credit id new c (some old) e counted zero (sum, each, all) = (
    (ground (arith, buffered_in-set_stream id old new c.streams e)),
    Each-set Counted id new c.streams each counted,
    (Each-find Counted id old c.streams each e, all),
  )

  pub add_stream-Credit :
      (id : ℕ) (new : H2Stream) (c : H2Connection)
      → Counted new
      → new.recv_buffered ≡ 0
      → Credit due ahead c
      → Credit due ahead (add_stream id new c)
  unfolding add_stream
  add_stream-Credit id new c counted zero h =
      replaced-Credit id new c (find_stream id c.streams) refl counted zero h

  pub handle_push-Credit :
      (inherited : Text → Option Text) (promised_id : ℕ) (raw : List Header) (c : H2Connection)
      → Credit due ahead c
      → Credit due ahead (handle_push inherited promised_id raw c)
  unfolding handle_push
  handle_push-Credit inherited promised_id raw c h =
      let c1 = promised promised_id c in
      let h1 : Credit due ahead c1 =
        if_case (Credit due ahead) (ltb c.highest_promised promised_id) _ c (λ e. h) (λ e. h) in
      if_case (Credit due ahead) (not c1.on_push) _ _ (λ e. send-Credit due ahead c1 _ h1)
        (λ e. add_stream-Credit promised_id (pushed_stream promised_id c1) c1 refl refl h1)

  pub deliver_headers-Credit :
      (inherited : Text → Option Text) (id : ℕ) (raw : List Header) (end_stream : Bool)
      (c : H2Connection)
      → Credit due ahead c
      → Credit due ahead (deliver_headers inherited id raw end_stream c)
  unfolding deliver_headers step
  deliver_headers-Credit inherited id raw end_stream c h =
      option_case (Credit due ahead) (find_stream id c.streams) _ _ (λ e. h)
        (λ s found.
          let counted : Counted (receive_headers inherited s raw end_stream) =
            (step-Balanced inherited s (gets_headers raw end_stream)
              (Each-find Counted id s c.streams h.1 found)).counted in
          let same = (receive_headers_queue inherited s raw end_stream).1 in
          if_case (Credit due ahead) end_stream _ _
            (λ e.
              retire_if_fully_closed-Credit due ahead id _
                (update-Credit due ahead id s _ c found counted same h))
            (λ e. update-Credit due ahead id s _ c found counted same h))

  pub on_rst_stream-Credit :
      (f : RstStreamFrame) (c : H2Connection)
      → Credit due ahead c
      → Credit due ahead (on_rst_stream f c)
  unfolding on_rst_stream
  on_rst_stream-Credit f c h =
      option_case (Credit due ahead) (find_stream f.stream_id c.streams) _ _ (λ e. h)
        (λ s found.
          wake_stream_slots-Credit due ahead
            (detach f.stream_id (receive_reset (discard_buffered s).1 f.error_code)
              (replenish_connection_window s.recv_buffered c))
            (discard-Credit due ahead f.stream_id s
              (receive_reset (discard_buffered s).1 f.error_code) c found
              (reset_empty s f.error_code).0 (reset_empty s f.error_code).1 h))

  pub on_goaway-Credit :
      (f : GoawayFrame) (c : H2Connection) → Credit due ahead c → Credit due ahead (on_goaway f c)
  unfolding on_goaway
  on_goaway-Credit f c (sum, each, all) =
      let code = goaway_name f.error_code in
      let balance = excluded_sum code f.last_stream_id c.streams c.detached in
      let h1 : Credit due ahead (going_away f c) = (
        ground (arith, balance),
        excluded_kept Counted code f.last_stream_id c.streams c.detached each,
        excluded_out code f.last_stream_id c.streams c.detached each all,
      ) in
      let h2 = wake_stream_slots-Credit due ahead (going_away f c) h1 in
      if_case (Credit due ahead) (f.error_code == 0) _ _ (λ e. h2)
        (λ e. destroy-Credit due ahead (connection_failure code) _ h2)
