-- ===== src/Connection/Credit/Readers.antt =====
-- The account and the bodies through the readers of the bodies.
use grpc_bridge.Prelude.{
  ℕ, zero, suc, ◌+◌, ◌≡◌, refl, ap, ◌∙◌, Bool, true, false, ◌||◌, none, some, List, [], ◌∷◌, All,
  ◌==◌, if_case, option_case, arith,
}
use mathlib.Core.Path.{subst}
use mathlib.Core.Option.{some-injective}
use grpc_bridge.Prelude.Int.{pos, ◌+ℤ◌}
use grpc_bridge.Errors.{cancel}
use grpc_bridge.Stream.State.{H2Stream, pull_body, cancel_body}
use grpc_bridge.Stream.Steps.{pulled_credit, step, pulls, cancels}
use grpc_bridge.Stream.Credit.{Counted, step-Balanced}
use grpc_bridge.Connection.Streams.{find_stream, delete_stream}
use grpc_bridge.Connection.Streams.Each.{
  Each, Each-find, Each-delete, delete_stream_missing, delete_stream-set_stream,
}
use grpc_bridge.Connection.State.{H2Connection, window_update}
use grpc_bridge.Connection.Teardown.{
  store, replenish_connection_window, replenish_recv_window, give_window,
}
use grpc_bridge.Connection.Events.{
  pull_stream, on_cancel, cancel_stream, stream_at, put_at, pull_detached, cancel_detached,
}
use grpc_bridge.Connection.Credit.Account.{Credit, Credit-shift, store-Credit, buffered_of}
use grpc_bridge.Connection.Credit.Ends.{
  send-streams, replenish_connection_window-streams, reset_stream-Credit,
  replenish_recv_window-Credit,
}
use grpc_bridge.Connection.Credit.Arrivals.{TakesData}
use grpc_bridge.Connection.Bodies.{
  Takes, reset_stream-streams, replenish_recv_window-Takes, store-Takes,
}
use grpc_bridge.Connection.Credit.Frames.{Good, reset_stream-Good}

pull_body-TakesData : (s : H2Stream) → TakesData s → TakesData (pull_body s).1
unfolding pull_body
pull_body-TakesData s h = ground (arith, h)

pub pull_stream-Good : (id : ℕ) (c : H2Connection) → Good c → Good (pull_stream id c)
unfolding pull_stream step
pull_stream-Good id c (h, t) =
    option_case Good (find_stream id c.streams) _ _ (λ e. (h, t))
      (λ s found.
        let s1 = (pull_body s).1 in
        let n = pulled_credit (pull_body s).0 in
        let b = step-Balanced (λ name. none) s pulls (Each-find Counted id s c.streams h.1 found) in
        let c1 = store id s1 c in
        (
          Credit-shift _ _ 0 0 (replenish_recv_window id n c1) (omega (arith, b.balance)) (
              replenish_recv_window-Credit (0 + s.recv_buffered) (0 + s1.recv_buffered) id n c1
                (store-Credit 0 0 id s s1 c found b.counted h)),
          replenish_recv_window-Takes id n c1 (
              store-Takes id s1 c
                (pull_body-TakesData s (Each-find TakesData id s c.streams t found)) t),
        ))

on_cancel-Good : (id : ℕ) (live : Bool) (c : H2Connection) → Good c → Good (on_cancel id live c)
unfolding on_cancel
on_cancel-Good id false c h = h
on_cancel-Good id true c h =
    option_case Good (find_stream id c.streams) _ _ (λ e. h)
      (λ s found. reset_stream-Good id cancel c h)

-- What a cancelled body leaves, by whether its stream is live.
replenish_recv_window-delete :
    (id n : ℕ) (c : H2Connection)
    → delete_stream id (replenish_recv_window id n c).streams ≡ delete_stream id c.streams
unfolding replenish_recv_window
replenish_recv_window-delete id n c =
    let P : H2Connection → Type 0 = λ x. delete_stream id x.streams ≡ delete_stream id c.streams in
    let plain : P (replenish_connection_window n c) =
      ap (delete_stream id) (replenish_connection_window-streams n c) in
    if_case P (c.closed_flag || n == 0) c _ (λ e. refl)
      (λ e.
        option_case P (find_stream id c.streams) _ _ (λ e'. plain)
          (λ s found.
            if_case P s.remote_closed _ _ (λ e'. plain)
              (λ e'.
                ap (delete_stream id) (
                  replenish_connection_window-streams n (give_window id n s c)
                  ∙ send-streams (store id (record s { recv_window = s.recv_window +ℤ pos n }) c)
                      (window_update id n))
                ∙ delete_stream-set_stream id _ c.streams)))

on_cancel-Credit :
    (id : ℕ) (live : Bool) (c : H2Connection) → Credit 0 0 c → Credit 0 0 (on_cancel id live c)
unfolding on_cancel
on_cancel-Credit id false c h = h
on_cancel-Credit id true c h =
    option_case (Credit 0 0) (find_stream id c.streams) _ _ (λ e. h)
      (λ s found. reset_stream-Credit 0 0 id cancel c h)

on_cancel-Takes :
    (id : ℕ) (c : H2Connection)
    → Each TakesData (delete_stream id c.streams)
    → Takes (on_cancel id true c)
unfolding on_cancel
on_cancel-Takes id c t =
    option_case Takes (find_stream id c.streams) _ _
      (λ e. rw⁻¹ (delete_stream_missing id c.streams e) t)
      (λ s found. rw (reset_stream-streams id cancel c) t)

on_cancel_by :
    (id : ℕ) (live : Bool) (c : H2Connection)
    → (live ≡ true → Takes (on_cancel id true c))
    → (live ≡ false → Takes c)
    → Takes (on_cancel id live c)
on_cancel_by id true c h k = h refl
on_cancel_by id false c h k = unfold on_cancel in k refl

cancel_body-TakesData :
    (s : H2Stream) → TakesData s → (cancel_body s).1 ≡ false → TakesData (cancel_body s).2
unfolding cancel_body
cancel_body-TakesData s h e = ground (arith, h)

pub cancel_stream-Good : (id : ℕ) (c : H2Connection) → Good c → Good (cancel_stream id c)
unfolding cancel_stream step
cancel_stream-Good id c (h, t) =
    option_case Good (find_stream id c.streams) _ _ (λ e. (h, t))
      (λ s found.
        let n = (cancel_body s).0 in
        let live = (cancel_body s).1 in
        let s1 = (cancel_body s).2 in
        let b =
          step-Balanced (λ name. none) s cancels (Each-find Counted id s c.streams h.1 found) in
        let c2 = replenish_recv_window id n (store id s1 c) in
        let h2 : Credit 0 0 c2 = Credit-shift _ _ 0 0 c2 (omega (arith, b.balance)) (
          replenish_recv_window-Credit (0 + s.recv_buffered) (0 + s1.recv_buffered) id n
            (store id s1 c) (store-Credit 0 0 id s s1 c found b.counted h)) in
        (
          on_cancel-Credit id live c2 h2,
          on_cancel_by id live c2
              (λ is_live. on_cancel-Takes id c2 (
                rw
                  (
                    replenish_recv_window-delete id n (store id s1 c),
                    delete_stream-set_stream id s1 c.streams,
                  )
                  (Each-delete TakesData id c.streams t)))
              (λ over. replenish_recv_window-Takes id n (store id s1 c) (
                store-Takes id s1 c
                  (cancel_body-TakesData s (Each-find TakesData id s c.streams t found) over) t)),
        ))

-- The same for a stream that has left the map.
put_at-Counted :
    (i : ℕ) (s new : H2Stream) (streams : List H2Stream)
    → stream_at i streams ≡ some s
    → Counted new
    → All Counted streams
    → All Counted (put_at i new streams)
      × (buffered_of (put_at i new streams) + s.recv_buffered
          ≡ buffered_of streams + new.recv_buffered)
unfolding stream_at put_at
put_at-Counted i s new [] e p h = absurd (ground arith)
put_at-Counted zero s new (x ∷ streams) e p h =
    ((p, h.1), omega (arith, ap (λ (y : H2Stream). y.recv_buffered) (some-injective x s e)))
put_at-Counted (suc i) s new (x ∷ streams) e p h =
    let (all, sum) = put_at-Counted i s new streams e p h.1 in ((h.0, all), omega (arith, sum))

stream_at-Counted :
    (i : ℕ) (s : H2Stream) (streams : List H2Stream)
    → stream_at i streams ≡ some s
    → All Counted streams
    → Counted s
unfolding stream_at
stream_at-Counted i s [] e h = absurd (ground arith)
stream_at-Counted zero s (x ∷ streams) e h = subst Counted (some-injective _ _ e) h.0
stream_at-Counted (suc i) s (x ∷ streams) e h = stream_at-Counted i s streams e h.1

replaced_at :
    (i id n : ℕ) (s new : H2Stream) (c : H2Connection)
    → stream_at i c.detached ≡ some s
    → Counted new
    → n + new.recv_buffered ≡ s.recv_buffered
    → Good c
    → Good (replenish_recv_window id n (record c { detached = put_at i new c.detached }))
replaced_at i id n s new c e p balance ((sum, each, all), t) =
    let (all1, sum1) = put_at-Counted i s new c.detached e p all in
    let c1 : H2Connection = record c { detached = put_at i new c.detached } in
    let h1 : Credit s.recv_buffered new.recv_buffered c1 =
      (ground (arith, sum, sum1), each, all1) in
    (
      Credit-shift _ _ 0 0 (replenish_recv_window id n c1) (omega (arith, balance))
          (replenish_recv_window-Credit s.recv_buffered new.recv_buffered id n c1 h1),
      replenish_recv_window-Takes id n c1 t,
    )

pub pull_detached-Good : (i : ℕ) (c : H2Connection) → Good c → Good (pull_detached i c)
unfolding pull_detached step
pull_detached-Good i c h =
    option_case Good (stream_at i c.detached) _ _ (λ e. h)
      (λ s e.
        let b = step-Balanced (λ name. none) s pulls (stream_at-Counted i s c.detached e h.0.2) in
        replaced_at i s.id (pulled_credit (pull_body s).0) s (pull_body s).1 c e b.counted
          (omega (arith, b.balance)) h)

pub cancel_detached-Good : (i : ℕ) (c : H2Connection) → Good c → Good (cancel_detached i c)
unfolding cancel_detached step
cancel_detached-Good i c h =
    option_case Good (stream_at i c.detached) _ _ (λ e. h)
      (λ s e.
        let b = step-Balanced (λ name. none) s cancels (stream_at-Counted i s c.detached e h.0.2) in
        let h1 =
          replaced_at i s.id (cancel_body s).0 s (cancel_body s).2 c e b.counted
            (omega (arith, b.balance)) h in
        on_cancel-Good s.id (cancel_body s).1 _ h1)
