-- ===== src/Recovery/Rest/Events.antt =====
-- web/src/recovery.ts: each event leaves the channel as the next one expects it.
use mathlib.Core.Path.{subst}
use grpc_bridge.Prelude.{
  ℕ, ◌-◌, ◌≤◌, ◌≡◌, ◌≢◌, refl, inl, inr, Bool, true, false, not, ◌||◌, Option, none, some, List, [],
  ◌∷◌, ◌++◌, ◌==◌, if_case, option_case, Bool-cases, arith,
}
use grpc_bridge.Recovery.State.{
  Reason, RecoveringConnection, recovering, canceled, error_reason, first_failure,
}
use grpc_bridge.Recovery.Steps.{
  settle_initial, start, dial_succeeds, dial_fails, is_session, lost, session_closes,
  session_drains, timer_fires, close_ends, Happening, take_place, take_all, starts, timer_goes_off,
  dialed, dial_failed, session_closed, session_draining, selects, call_aborts, call_expires,
  call_goes_on, closes_channel, close_settles,
}
use grpc_bridge.Recovery.Rest.{
  under_way, Shape, Rests, few, trying, in_session, in_backoff, still_closed, idle, last_attempt,
  fewer, unstarted_fewer,
}
use grpc_bridge.Recovery.Rest.Checks.{
  close_channel-Rests, reject_call-Held, expire-Held, select-Rests, go_on-Rests,
}
use grpc_bridge.Recovery.Rest.Changes.{connect-Rests, retry-Rests, adopted-Rests}

-- Each event.
module _ (c : RecoveringConnection) (rests : Rests c) where
  shape : Shape c.state c.session c.timer (under_way c.unstarted c.dialing) c.stopped
  shape = rests.0

  at_most_one : under_way c.unstarted c.dialing ≤ 1
  at_most_one = few c.state c.session c.timer _ c.stopped shape

  start-Rests : (closes : Bool) → Rests (start closes c)
  unfolding start
  start-Rests closes = elim (Bool-cases c.unstarted) [
    | inl first ↦
        let (no_session, no_timer, one) =
          trying c.state c.session c.timer _ c.stopped shape (rw first (omega arith)) in
        if_case Rests (not c.unstarted || c.stopped) _ _
          (λ e. (
            still_closed c.state c.session c.timer _ c.dialing c.stopped shape (ground arith)
                (unstarted_fewer c.unstarted c.dialing),
            rests.1,
          ))
          (λ e.
            connect-Rests (record c { unstarted = false }) (ground arith) refl
              (ground (arith, subst (λ (b : Bool). under_way b c.dialing ≡ 1) first one)) closes
              no_session no_timer)
    | inr later ↦
        if_case Rests (not c.unstarted || c.stopped) _ _
          (λ e. (
            subst (λ (b : Bool). Shape c.state c.session c.timer (under_way b c.dialing) c.stopped)
                later shape,
            rests.1,
          ))
          (λ e. absurd (ground arith))
  ]

  timer_fires-Rests : (closes : Bool) → Rests (timer_fires closes c)
  unfolding timer_fires
  timer_fires-Rests closes =
      option_case Rests c.timer _ _ (λ e. rests)
        (λ t e.
          let (no_session, none_tried, live) =
            in_backoff c.state c.session c.timer _ c.stopped t shape e in
          let (no_start, no_dial) = idle c.unstarted c.dialing none_tried in
          connect-Rests (record c { timer = none }) live no_start no_dial closes no_session refl)

  -- The session goes, and a change follows.
  module _ (id : ℕ) (current : c.stopped || not (is_session id c.session) ≡ false) where
    used : (o : Option ℕ) → is_session id o ≡ true → (k : ℕ) × (o ≡ some k)
    used none e = absurd (ground arith)
    used (some k) e = (k, refl)

    live_session : c.stopped ≡ false
    live_session = ground arith

    alone : (c.timer ≡ none) × (c.unstarted ≡ false) × (c.dialing ≡ 0)
    alone =
        let (k, e) = used c.session (ground arith) in
        let (no_timer, none_tried) = in_session c.state c.session c.timer _ c.stopped k shape e in
        let (no_start, no_dial) = idle c.unstarted c.dialing none_tried in
        (no_timer, no_start, no_dial)

  lost-Rests :
      (closes : Bool) (random id : ℕ) (reason : Reason) → Rests (lost closes random id reason c)
  unfolding lost
  lost-Rests closes random id reason =
      if_case Rests (c.stopped || not (is_session id c.session)) _ _ (λ e. rests)
        (λ e.
          let (no_timer, no_start, no_dial) = alone id e in
          retry-Rests (record c { session = none }) (live_session id e) no_start no_dial closes
            random reason refl)

  session_drains-Rests : (closes : Bool) (id : ℕ) → Rests (session_drains closes id c)
  unfolding session_drains
  session_drains-Rests closes id =
      if_case Rests (c.stopped || not (is_session id c.session)) _ _ (λ e. rests)
        (λ e.
          let (no_timer, no_start, no_dial) = alone id e in
          connect-Rests (record c { session = none; draining = c.draining ++ id ∷ [] })
            (live_session id e) no_start no_dial closes refl no_timer)

  -- A dial that ends.
  module _ (dials : (c.dialing == 0) ≡ false) where
    last_dial : (c.unstarted ≡ false) × (c.dialing - 1 ≡ 0)
    last_dial =
        let (no_start, one) = last_attempt c.unstarted c.dialing at_most_one (ground arith) in
        (no_start, omega (arith, one))

    pub unused : (c.session ≡ none) × (c.timer ≡ none) × (under_way c.unstarted c.dialing ≡ 1)
    unused =
        let some_dial : c.dialing ≢ 0 = ground arith in
        trying c.state c.session c.timer _ c.stopped shape
          (omega (arith, unstarted_fewer c.unstarted c.dialing, some_dial))

    stopped-Shape :
        c.stopped ≡ true
        → Shape c.state c.session c.timer (under_way c.unstarted (c.dialing - 1)) c.stopped
    stopped-Shape e =
        still_closed c.state c.session c.timer _ _ c.stopped shape e (fewer c.unstarted c.dialing)

  dial_succeeds-Rests : (closes : Bool) → Rests (dial_succeeds closes c)
  unfolding dial_succeeds
  dial_succeeds-Rests closes =
      if_case Rests (c.dialing == 0) _ _ (λ e. rests)
        (λ e.
          if_case Rests c.stopped _ _ (λ e'. (stopped-Shape e e', rests.1))
            (λ e'.
              let (no_start, no_dial) = last_dial e in
              adopted-Rests (record c { dialing = c.dialing - 1 }) e' no_start no_dial closes
                (unused e).1))

  dial_fails-Rests : (closes : Bool) (random : ℕ) → Rests (dial_fails closes random c)
  unfolding dial_fails
  dial_fails-Rests closes random =
      if_case Rests (c.dialing == 0) _ _ (λ e. rests)
        (λ e.
          if_case Rests c.stopped _ _ (λ e'. (stopped-Shape e e', rests.1))
            (λ e'.
              let (no_start, no_dial) = last_dial e in
              retry-Rests
                (record c {
                  dialing = c.dialing - 1;
                  initial = settle_initial c.initial first_failure;
                })
                e' no_start no_dial closes random error_reason (unused e).0))

  close_ends-Rests : (thrown : Bool) → Rests (close_ends thrown c)
  unfolding close_ends
  close_ends-Rests thrown =
      if_case Rests (not c.stopped) _ _ (λ e. rests)
        (λ e. if_case Rests thrown _ _ (λ e'. rests) (λ e'. rests))

  pub take_place-Rests : (h : Happening) → Rests (take_place h c)
  unfolding take_place session_closes
  take_place-Rests (starts closes) = start-Rests closes
  take_place-Rests (timer_goes_off closes) = timer_fires-Rests closes
  take_place-Rests (dialed closes) = dial_succeeds-Rests closes
  take_place-Rests (dial_failed closes random) = dial_fails-Rests closes random
  take_place-Rests (session_closed closes random id reason) = lost-Rests closes random id reason
  take_place-Rests (session_draining closes id) = session_drains-Rests closes id
  take_place-Rests (selects call aborted) = select-Rests call aborted c rests
  take_place-Rests (call_aborts ticket) =
      (shape, reject_call-Held c.state ticket canceled c.calls rests.1)
  take_place-Rests (call_expires ticket) = (shape, expire-Held c.state ticket c.calls rests.1)
  take_place-Rests (call_goes_on ticket now aborted) = go_on-Rests ticket now aborted c rests
  take_place-Rests closes_channel = close_channel-Rests c rests
  take_place-Rests (close_settles thrown) = close_ends-Rests thrown

-- Between two events, whatever has happened and whichever listeners have closed the channel, from a
-- channel of which this is true, as it is of the constructor's: the channel has a session just while
-- it is open, a timer just while it backs off, one attempt while it connects and otherwise none, and
-- is stopped just while it is closed (where one dial may still be under way); and no call waits on an
-- open or a closed channel, and in a backoff only those that asked to wait do.
pub take_all-Rests :
    (hs : List Happening) (c : RecoveringConnection) → Rests c → Rests (take_all hs c)
unfolding take_all
take_all-Rests [] c h = h
take_all-Rests (x ∷ hs) c h = take_all-Rests hs (take_place x c) (take_place-Rests c h x)

pub recovering-Rests : Rests recovering
recovering-Rests = ((refl, refl, refl, refl), tt)
