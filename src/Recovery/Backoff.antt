-- ===== src/Recovery/Backoff.antt =====
-- web/src/recovery.ts: how long the channel waits before it connects again.
use native.Mathlib.Nat.{mul-le-mul_right}
use grpc_bridge.Prelude.{
  ℕ, ◌-◌, ◌<◌, ◌≤◌, Bool, true, false, not, ◌||◌, Option, none, some, List, [], ◌∷◌, ◌++◌, ◌==◌,
  if_case, option_case, arith, All,
}
use grpc_bridge.Recovery.State.{
  RecoveringConnection, ChannelState, Reason, connecting, open_state, transient_failure,
  error_reason, first_failure, go_on, take_call, select,
}
use grpc_bridge.Recovery.Steps.{
  tell, close_channel, emit, connect, armed, retry, start, adopted, settle_initial, dial_succeeds,
  dial_fails, is_session, lost, session_closes, session_drains, timer_fires, close_ends, Happening,
  take_place, take_all, starts, timer_goes_off, dialed, dial_failed, session_closed,
  session_draining, selects, call_aborts, call_expires, call_goes_on, closes_channel, close_settles,
  random_scale, jittered, next_delay,
}

jittered_low : (delay random : ℕ) → 10000000 ≤ delay → 8000000 ≤ jittered delay random
jittered_low delay random h = omega arith

jittered_high :
    (delay random : ℕ)
    → delay ≤ 300000000
    → random < random_scale
    → jittered delay random < 360000000
jittered_high delay random h hr = omega (arith, mul-le-mul_right random h)

next_delay_low : (delay : ℕ) → 10000000 ≤ delay → 10000000 ≤ next_delay delay
next_delay_low delay h = omega arith

-- The delay lies between a second and thirty, and a timer that is set between 0.8 seconds and 36.
abbrev TimerFits : Option ℕ → Type 0
TimerFits none = Unit
TimerFits (some t) = (8000000 ≤ t) × (t < 360000000)

abbrev pub Paced : RecoveringConnection → Type 0
Paced c = (10000000 ≤ c.delay) × (c.delay ≤ 300000000) × TimerFits c.timer

-- `Math.random()` stays below one.
abbrev pub IsRandom : Happening → Type 0
IsRandom (dial_failed closes random) = random < random_scale
IsRandom (session_closed closes random id reason) = random < random_scale
IsRandom h = Unit

close_channel-Paced : (c : RecoveringConnection) → Paced c → Paced (close_channel c)
unfolding close_channel tell
close_channel-Paced c (low, high, fits) =
    if_case Paced c.stopped c _ (λ e. (low, high, fits)) (λ e. (low, high, tt))

emit-Paced :
    (closes : Bool) (state : ChannelState) (reason : Option Reason) (c : RecoveringConnection)
    → Paced c
    → Paced (emit closes state reason c)
unfolding emit tell
emit-Paced false state reason c h = h
emit-Paced true state reason c h = close_channel-Paced (tell state reason c) h

connect-Paced : (closes : Bool) (c : RecoveringConnection) → Paced c → Paced (connect closes c)
unfolding connect
connect-Paced closes c h =
    let h1 = emit-Paced closes connecting none c h in
    if_case Paced (emit closes connecting none c).stopped _ _ (λ e. h1) (λ e. h1)

armed-Paced :
    (random : ℕ) (c : RecoveringConnection)
    → random < random_scale
    → Paced c
    → Paced (armed random c)
armed-Paced random c hr (low, high, fits) = (
  next_delay_low c.delay low,
  omega arith,
  (jittered_low c.delay random low, jittered_high c.delay random high hr),
)

retry-Paced :
    (closes : Bool) (random : ℕ) (reason : Reason) (c : RecoveringConnection)
    → random < random_scale
    → Paced c
    → Paced (retry closes random reason c)
unfolding retry
retry-Paced closes random reason c hr h =
    let h1 = emit-Paced closes transient_failure (some reason) c h in
    if_case Paced (emit closes transient_failure (some reason) c).stopped _ _ (λ e. h1)
      (λ e. armed-Paced random (emit closes transient_failure (some reason) c) hr h1)

dial_succeeds-Paced :
    (closes : Bool) (c : RecoveringConnection) → Paced c → Paced (dial_succeeds closes c)
unfolding dial_succeeds
dial_succeeds-Paced closes c (low, high, fits) =
    if_case Paced (c.dialing == 0) _ _ (λ e. (low, high, fits))
      (λ e.
        if_case Paced c.stopped _ _ (λ e'. (low, high, fits))
          (λ e'.
            emit-Paced closes open_state none (adopted (record c { dialing = c.dialing - 1 }))
              (omega arith, omega arith, fits)))

dial_fails-Paced :
    (closes : Bool) (random : ℕ) (c : RecoveringConnection)
    → random < random_scale
    → Paced c
    → Paced (dial_fails closes random c)
unfolding dial_fails
dial_fails-Paced closes random c hr h =
    if_case Paced (c.dialing == 0) _ _ (λ e. h)
      (λ e.
        if_case Paced c.stopped _ _ (λ e'. h)
          (λ e'.
            retry-Paced closes random error_reason
              (record c {
                dialing = c.dialing - 1;
                initial = settle_initial c.initial first_failure;
              })
              hr h))

lost-Paced :
    (closes : Bool) (random id : ℕ) (reason : Reason) (c : RecoveringConnection)
    → random < random_scale
    → Paced c
    → Paced (lost closes random id reason c)
unfolding lost
lost-Paced closes random id reason c hr h =
    if_case Paced (c.stopped || not (is_session id c.session)) _ _ (λ e. h)
      (λ e. retry-Paced closes random reason (record c { session = none }) hr h)

take_place-Paced :
    (h : Happening) (c : RecoveringConnection) → IsRandom h → Paced c → Paced (take_place h c)
unfolding take_place start timer_fires session_closes session_drains select go_on close_ends
take_place-Paced (starts closes) c r h =
    if_case Paced (not c.unstarted || c.stopped) _ _ (λ e. h)
      (λ e. connect-Paced closes (record c { unstarted = false }) h)
take_place-Paced (timer_goes_off closes) c r (low, high, fits) =
    option_case Paced c.timer _ _ (λ e. (low, high, fits))
      (λ t e. connect-Paced closes (record c { timer = none }) (low, high, tt))
take_place-Paced (dialed closes) c r h = dial_succeeds-Paced closes c h
take_place-Paced (dial_failed closes random) c r h = dial_fails-Paced closes random c r h
take_place-Paced (session_closed closes random id reason) c r h =
    lost-Paced closes random id reason c r h
take_place-Paced (session_draining closes id) c r h =
    if_case Paced (c.stopped || not (is_session id c.session)) _ _ (λ e. h)
      (λ e. connect-Paced closes (record c { session = none; draining = c.draining ++ id ∷ [] }) h)
take_place-Paced (selects call aborted) c r h = if_case Paced aborted _ _ (λ e. h) (λ e. h)
take_place-Paced (call_aborts ticket) c r h = h
take_place-Paced (call_expires ticket) c r h = h
take_place-Paced (call_goes_on ticket now aborted) c r h =
    option_case Paced (take_call ticket c.calls.passed) _ _ (λ e. h) (λ (call, left) e. h)
take_place-Paced closes_channel c r h = close_channel-Paced c h
take_place-Paced (close_settles thrown) c r h =
    if_case Paced (not c.stopped) _ _ (λ e. h) (λ e. if_case Paced thrown _ _ (λ e'. h) (λ e'. h))

-- However often a dial fails or a session is lost, the delay stays between one second and thirty,
-- and the timer for the next attempt is set between 0.8 and 36 seconds: for random numbers below one,
-- from a channel of which this is true, as it is of the constructor's.
pub take_all-Paced :
    (hs : List Happening) (c : RecoveringConnection)
    → All IsRandom hs
    → Paced c
    → Paced (take_all hs c)
unfolding take_all
take_all-Paced [] c r h = h
take_all-Paced (x ∷ hs) c (rx, r) h =
    take_all-Paced hs (take_place x c) r (take_place-Paced x c rx h)
