-- ===== src/Connection/Requests/Slots.antt =====
-- The peer's limit on concurrent streams.
use grpc_bridge.Prelude.{
  ℕ, suc, ◌+◌, ◌≤◌, ◌≡◌, refl, sym, ap, ◌∙◌, Bool, true, false, Option, none, some, List, [], ◌∷◌,
  ltb, if_case, option_case, arith,
}
use grpc_bridge.Text.{Text}
use grpc_bridge.Frames.Types.{Frame}
use grpc_bridge.Stream.State.{H2Stream, half_closed_local}
use grpc_bridge.Connection.Streams.{Streams, find_stream, set_stream, count_active}
use grpc_bridge.Connection.Streams.Each.{find_stream-set_stream}
use grpc_bridge.Connection.State.{H2Connection, send}
use grpc_bridge.Connection.Heads.{H2RequestInit, body_is_empty}
use grpc_bridge.Connection.Blocks.{add_stream}
use grpc_bridge.Connection.Requests.{
  RequestStatus, throws, parked, opened, can_open_stream, check_request, reserved, request_stream,
  request_frames, send_all, open_stream, request_round,
}
use grpc_bridge.Connection.Credit.Calls.{send_all-streams}

count_active-set_stream :
    (id : ℕ) (s : H2Stream) (m : Streams) → count_active (set_stream id s m) ≤ suc (count_active m)
unfolding count_active set_stream
count_active-set_stream id s [] = ground arith
count_active-set_stream id s ((k, old) ∷ m) = grind (arith, count_active-set_stream id s m)

count_active-set_stream_again :
    (id : ℕ) (s old : H2Stream) (m : Streams)
    → find_stream id m ≡ some old
    → count_active (set_stream id s m) ≡ count_active m
unfolding count_active set_stream find_stream
count_active-set_stream_again id s old [] e = absurd (ground arith)
count_active-set_stream_again id s old ((k, x) ∷ m) e =
    grind (arith, count_active-set_stream_again id s old m)

-- What a round of a request does, by how it ends, where the peer allows `limit` streams.
abbrev pub Admitted : H2Connection → ℕ → H2Connection × RequestStatus → Type 0
Admitted c limit (c', throws e) = c' ≡ c
Admitted c limit (c', parked ticket) = (limit ≤ count_active c.streams) × (c'.streams ≡ c.streams)
Admitted c limit (c', opened id) =
    (count_active c'.streams ≤ limit) × (id ≡ c.next_stream_id) × (c'.next_stream_id ≡ id + 2)

can_open :
    (c : H2Connection) (limit : ℕ) (b : Bool)
    → c.remote.max_concurrent_streams ≡ some limit
    → can_open_stream c ≡ b
    → ltb (count_active c.streams) limit ≡ b
unfolding can_open_stream
can_open c limit b e h =
    sym (ap (λ (o : Option ℕ). elim o [ none ↦ true | some n ↦ ltb (count_active c.streams) n ]) e)
    ∙ h

send_next : (c : H2Connection) (f : Frame) → (send c f).next_stream_id ≡ c.next_stream_id
unfolding send
send_next c f = ground arith

module _ (to_lower : Text → Text) (to_upper : Text → Text) (init : H2RequestInit)
    (c : H2Connection) where
  send_all_next :
      (c1 : H2Connection) (frames : List Frame)
      → (send_all c1 frames).next_stream_id ≡ c1.next_stream_id
  unfolding send_all
  send_all_next c1 [] = refl
  send_all_next c1 (f ∷ frames) = send_all_next (send c1 f) frames ∙ send_next c1 f

  stored_count :
      (s : H2Stream)
      → count_active (
          set_stream c.next_stream_id s
            (send_all (reserved c) (request_frames to_lower to_upper init c)).streams)
        ≤ suc (count_active c.streams)
  unfolding add_stream
  stored_count s =
      let id = c.next_stream_id in
      let m1 = set_stream id (request_stream c) c.streams in
      let same =
        ap (λ (m : Streams). count_active (set_stream id s m))
          (send_all-streams (reserved c) (request_frames to_lower to_upper init c)) in
      let again =
        count_active-set_stream_again id s (request_stream c) m1
          (find_stream-set_stream id (request_stream c) c.streams) in
      omega (arith, same ∙ again, count_active-set_stream id (request_stream c) c.streams)

  open_stream-Admitted :
      (limit : ℕ)
      → suc (count_active c.streams) ≤ limit
      → Admitted c limit (open_stream to_lower to_upper init c, opened c.next_stream_id)
  unfolding open_stream add_stream
  open_stream-Admitted limit h =
      let next : (send_all (reserved c) (request_frames to_lower to_upper init c)).next_stream_id
          ≡ c.next_stream_id + 2 =
        send_all_next (reserved c) (request_frames to_lower to_upper init c) in
      let P : H2Connection → Type 0 = λ x. Admitted c limit (x, opened c.next_stream_id) in
      if_case P (body_is_empty init.body) _ _
        (λ e. (
          omega (
            arith,
            stored_count
                (record (request_stream c) { state = half_closed_local; local_closed = true }),
          ),
          refl,
          next,
        ))
        (λ e. (omega (arith, stored_count (request_stream c)), refl, next))

-- A request opens a stream only where that stays within the peer's limit on concurrent streams, and
-- under the next of our ids; it is parked only where the limit is reached, and a request that
-- throws changes nothing.
pub request_round-Admitted :
    (to_lower to_upper : Text → Text) (init : H2RequestInit) (aborted : Bool) (c : H2Connection)
    (limit : ℕ)
    → c.remote.max_concurrent_streams ≡ some limit
    → Admitted c limit (request_round to_lower to_upper init aborted c)
unfolding request_round
request_round-Admitted to_lower to_upper init aborted c limit e =
    let P : H2Connection × RequestStatus → Type 0 = Admitted c limit in
    option_case P (check_request c aborted) _ _
      (λ e1.
        if_case P (can_open_stream c) _ _
          (λ e2.
            let below = can_open c limit true e e2 in
            open_stream-Admitted to_lower to_upper init c limit (ground arith))
          (λ e2. let full = can_open c limit false e e2 in (ground arith, refl)))
      (λ reason e1. refl)
