-- ===== src/Connection/Credit/Calls.antt =====
-- The account and the bodies through the calls of the application.
use grpc_bridge.Prelude.{
  ℕ, ◌+◌, ◌≡◌, refl, ap, ◌∙◌, Bool, true, false, ◌||◌, some, List, [], ◌∷◌, take, ◌==◌, if_case,
  option_case,
}
use grpc_bridge.Text.{Text}
use grpc_bridge.Errors.{Error, cancel}
use grpc_bridge.Flow.{consume, wait_positive}
use grpc_bridge.Frames.Types.{Frame}
use grpc_bridge.Stream.State.{H2Stream, half_closed_local, wake_recv, fail}
use grpc_bridge.Stream.Credit.{Counted}
use grpc_bridge.Connection.Streams.{find_stream}
use grpc_bridge.Connection.Streams.Each.{
  Each-find, Each-set, Each-delete, find_stream-set_stream, delete_stream-set_stream,
}
use grpc_bridge.Connection.State.{H2Connection, send}
use grpc_bridge.Connection.Teardown.{store}
use grpc_bridge.Connection.Blocks.{add_stream}
use grpc_bridge.Connection.Heads.{H2RequestInit, body_is_empty}
use grpc_bridge.Connection.Requests.{
  request_stream, reserved, request_frames, send_all, open_stream, check_request, can_open_stream,
  RequestStatus, request_round, abandon, PumpStatus, send_slice, consumed, grant_of, data_of,
  pump_round, end_pump, close_local, ping, pinged, ping_sent,
}
use grpc_bridge.Connection.Credit.Account.{update-Credit}
use grpc_bridge.Connection.Credit.Ends.{
  send-streams, reset_stream-Credit, retire_if_fully_closed-Credit, fail-Counted,
}
use grpc_bridge.Connection.Credit.Arrivals.{TakesData, add_stream-Credit}
use grpc_bridge.Connection.Bodies.{reset_stream-streams, retire_if_fully_closed-Takes, store-Takes}
use grpc_bridge.Connection.Credit.Frames.{Good, send-Good}

update-Good :
    (id : ℕ) (s new : H2Stream) (c : H2Connection)
    → find_stream id c.streams ≡ some s
    → (Counted s → Counted new)
    → (TakesData s → TakesData new)
    → new.recv_buffered ≡ s.recv_buffered
    → Good c
    → Good (store id new c)
update-Good id s new c found counted takes same (h, t) = (
  update-Credit 0 0 id s new c found (counted (Each-find Counted id s c.streams h.1 found)) same h,
  store-Takes id new c (takes (Each-find TakesData id s c.streams t found)) t,
)

pub send_all-streams :
    (c : H2Connection) (frames : List Frame) → (send_all c frames).streams ≡ c.streams
unfolding send_all
send_all-streams c [] = refl
send_all-streams c (f ∷ frames) = send_all-streams (send c f) frames ∙ send-streams c f

send_all-Good : (c : H2Connection) (frames : List Frame) → Good c → Good (send_all c frames)
unfolding send_all
send_all-Good c [] h = h
send_all-Good c (f ∷ frames) h = send_all-Good (send c f) frames (send-Good c f h)

module _ (to_lower : Text → Text) (to_upper : Text → Text) where
  open_stream-Good :
      (init : H2RequestInit) (c : H2Connection)
      → Good c
      → Good (open_stream to_lower to_upper init c)
  unfolding open_stream add_stream
  open_stream-Good init c (h, t) =
      let id = c.next_stream_id in
      let s = request_stream c in
      let frames = request_frames to_lower to_upper init c in
      let h1 : Good (reserved c) = (
        add_stream-Credit 0 0 id s (record c { next_stream_id = id + 2 }) refl refl h,
        Each-set TakesData id s c.streams t refl,
      ) in
      let c2 = send_all (reserved c) frames in
      let h2 = send_all-Good (reserved c) frames h1 in
      let found : find_stream id c2.streams ≡ some s =
        ap (find_stream id) (send_all-streams (reserved c) frames)
        ∙ find_stream-set_stream id s c.streams in
      if_case Good (body_is_empty init.body) _ _
        (λ e. update-Good id s _ c2 found (λ p. p) (λ p. p) refl h2)
        (λ e. update-Good id s _ c2 found (λ p. p) (λ p. p) refl h2)

  pub request_round-Good :
      (init : H2RequestInit) (aborted : Bool) (c : H2Connection)
      → Good c
      → Good (request_round to_lower to_upper init aborted c).0
  unfolding request_round
  request_round-Good init aborted c h =
      let P : H2Connection × RequestStatus → Type 0 = λ x. Good x.0 in
      option_case P (check_request c aborted) _ _
        (λ e. if_case P (can_open_stream c) _ _ (λ e'. open_stream-Good init c h) (λ e'. h))
        (λ reason e. h)

pub abandon-Good : (id : ℕ) (e : Error) (c : H2Connection) → Good c → Good (abandon id e c)
unfolding abandon
abandon-Good id e c (h, t) =
    option_case Good (find_stream id c.streams) _ _ (λ e'. (h, t))
      (λ s found. (
        reset_stream-Credit 0 0 id cancel (store id (fail s e) c) (
            update-Credit 0 0 id s (fail s e) c found
              (fail-Counted s e (Each-find Counted id s c.streams h.1 found))
              (unfold fail wake_recv in refl) h),
        rw
            (
              reset_stream-streams id cancel (store id (fail s e) c),
              delete_stream-set_stream id (fail s e) c.streams,
            )
            (Each-delete TakesData id c.streams t),
      ))

send_slice-Good :
    (id : ℕ) (rest : List ℕ) (s : H2Stream) (c : H2Connection)
    → find_stream id c.streams ≡ some s
    → Good c
    → Good (send_slice id rest s c).0
unfolding send_slice consume
send_slice-Good id rest s c found h =
    if_case (λ (x : H2Connection × PumpStatus). Good x.0) (grant_of c s rest == 0) _ _ (λ e. h)
      (λ e.
        send-Good (consumed id (grant_of c s rest) s c)
          (data_of id (take (grant_of c s rest) rest) false)
          (update-Good id s _
            (record c { conn_send_window = consume c.conn_send_window (grant_of c s rest) }) found
            (λ p. p) (λ p. p) refl h))

pub pump_round-Good :
    (id : ℕ) (rest : List ℕ) (c : H2Connection) → Good c → Good (pump_round id rest c).0
unfolding pump_round
pump_round-Good id rest c h =
    let P : H2Connection × PumpStatus → Type 0 = λ x. Good x.0 in
    option_case P (find_stream id c.streams) _ _ (λ e. h)
      (λ s found.
        if_case P (c.closed_flag || s.send_side.closed) _ _ (λ e. h)
          (λ e.
            option_case P (wait_positive c.conn_send_window).1 _ _
              (λ e'.
                option_case P (wait_positive s.send_side).1 _ _
                  (λ e2. send_slice-Good id rest s c found h)
                  (λ ticket e2. update-Good id s _ c found (λ p. p) (λ p. p) refl h))
              (λ ticket e'. h)))

pub end_pump-Good : (id : ℕ) (c : H2Connection) → Good c → Good (end_pump id c)
unfolding end_pump
end_pump-Good id c h =
    option_case Good (find_stream id c.streams) _ _ (λ e. h)
      (λ s found.
        if_case Good (c.closed_flag || s.send_side.closed) c (send c (data_of id [] true)) (λ e. h)
          (λ e. send-Good c (data_of id [] true) h))

pub close_local-Good : (id : ℕ) (c : H2Connection) → Good c → Good (close_local id c)
unfolding close_local
close_local-Good id c h =
    option_case Good (find_stream id c.streams) _ _ (λ e. h)
      (λ s found.
        let new : H2Stream = record s { state = half_closed_local; local_closed = true } in
        let h1 = update-Good id s new c found (λ p. p) (λ p. p) refl h in
        (
          retire_if_fully_closed-Credit 0 0 id (store id new c) h1.0,
          retire_if_fully_closed-Takes id (store id new c) h1.1,
        ))

pub ping-Good : (now : ℕ) (c : H2Connection) → Good c → Good (ping now c)
unfolding ping
ping-Good now c h =
    if_case Good c.closed_flag _ _ (λ e. h) (λ e. send-Good (pinged now c) (ping_sent c) h)
