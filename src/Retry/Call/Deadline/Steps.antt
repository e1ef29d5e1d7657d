-- ===== src/Retry/Call/Deadline/Steps.antt =====
-- What happens to a call keeps to its deadline.
use mathlib.Core.Path.{subst}
use grpc_bridge.Prelude.{
  ℕ, ◌-◌, ◌≤◌, ◌<◌, ◌≡◌, refl, Bool, true, false, Option, none, some, List, All-append, ltb, leb,
  ◌⊎◌, if_case, option_case, arith,
}
use grpc_bridge.Retry.Policy.{RetryPolicy, Throttling}
use grpc_bridge.Retry.Decide.{Failure, Decision, throws, pauses, decide}
use grpc_bridge.Retry.Call.Phases.{call_event_cases, call_steps_keep}
use grpc_bridge.Retry.Call.{
  AbortReason, call_canceled, channel_stopped, deadline_passed, Timer, max_timeout, returns,
  aborts_with, fails_with, CallPhase, selecting, invoking, pausing, ended, Attempt, Selection,
  RetryCall, Surroundings, end_call, deadline_exceeded_failure, remaining_time, until_deadline,
  begin_pause, caught, begin_round, invoke, tick, abort_call, CallEvent, call_event, call_steps,
  begin_call, already_aborted, new_call,
}
use grpc_bridge.Retry.Call.Deadline.{
  EndsAt, PauseFits, RingsAt, InTime, SaysWhy, Timely, later-Timely, at_phase-Timely,
  signalled-Timely, no_timer-Timely, end_call-Timely, begin_pause-Timely, aborted-Timely,
}

module _ (deadline : ℕ) (one : ℕ) (policy : Option RetryPolicy) (throttle : Option Throttling)
    (timeout : Option ℕ) where
  decided-Timely :
      (decision : Decision) (f : Failure) (c : RetryCall)
      → Timely deadline c
      → Timely deadline (elim decision [
        | throws tokens ↦ end_call (fails_with f) c
        | pauses delay locals ↦ begin_pause (until_deadline delay c) (record c { locals = locals })
      ])
  decided-Timely (throws tokens) f c h = end_call-Timely deadline (fails_with f) c tt h
  decided-Timely (pauses delay locals) f c h = begin_pause-Timely deadline delay locals c h

  caught-Timely :
      (w : Surroundings) (f : Failure) (c : RetryCall)
      → Timely deadline c
      → Timely deadline (caught one policy throttle timeout w f c)
  unfolding caught
  caught-Timely w f c h = aborted-Timely deadline _ c h (λ _.
      decided-Timely
        (decide one w.jitter policy throttle w.committed f (record c.locals { tokens = w.tokens }))
        f c h)

  -- `remaining` throws, or gives what is left.
  with_time-Timely :
      (w : Surroundings) (next : Option ℕ → RetryCall) (c : RetryCall)
      → Timely deadline c
      → ((left : Option ℕ) → EndsAt deadline c.now left → Timely deadline (next left))
      → Timely deadline (elim (remaining_time timeout c) [
        | none ↦ caught one policy throttle timeout w deadline_exceeded_failure c
        | some left ↦ next left
      ])
  with_time-Timely w next c h k = rw h.kept (
      if_case
        (λ (o : Option (Option ℕ)). Timely deadline (elim o [
          | none ↦ caught one policy throttle timeout w deadline_exceeded_failure c
          | some left ↦ next left
        ]))
        (leb deadline c.now) _ _ (λ e. caught-Timely w deadline_exceeded_failure c h)
        (λ e. k (some (deadline - c.now)) (ground arith)))

  begin_round-Timely :
      (w : Surroundings) (c : RetryCall)
      → Timely deadline c
      → Timely deadline (begin_round one policy throttle timeout w c)
  unfolding begin_round
  begin_round-Timely w c h = aborted-Timely deadline _ c h (λ _.
      with_time-Timely w _ c h (λ left fits. record {
        kept = h.kept;
        selected =
            All-append (λ (s : Selection). EndsAt deadline s.at s.timeout) c.selections _ h.selected
              (fits, tt);
        invoked = h.invoked;
        pause_fits = tt;
        rings = h.rings;
        in_time = h.in_time;
        says_why = tt;
      }))

  invoke-Timely :
      (w : Surroundings) (c : RetryCall)
      → Timely deadline c
      → Timely deadline (invoke one policy throttle timeout w c)
  unfolding invoke
  invoke-Timely w c h = aborted-Timely deadline _ c h (λ _. with_time-Timely w _ c h (λ left fits.
      record {
        kept = h.kept;
        selected = h.selected;
        invoked =
            All-append (λ (a : Attempt). EndsAt deadline a.at a.timeout) c.invocations _ h.invoked
              (fits, tt);
        pause_fits = tt;
        rings = h.rings;
        in_time = h.in_time;
        says_why = tt;
      }))

  tick-Timely :
      (w : Surroundings) (end : ℕ) (t : Timer) (c : RetryCall)
      → Timely deadline c
      → PauseFits deadline c.now (pausing end t)
      → Timely deadline (tick one policy throttle timeout w end c)
  unfolding tick
  tick-Timely w end t c h (low, fires, set) = aborted-Timely deadline _ c h (λ _.
      if_case (Timely deadline) (ltb c.now end) _ _
        (λ early.
          at_phase-Timely deadline c.locals _ c (ground arith, ground arith, omega arith) tt h)
        (λ _. begin_round-Timely w c h))

  pausing_or :
      (reason : AbortReason) (phase : CallPhase) (paused other : RetryCall)
      → SaysWhy none phase
      → Timely deadline paused
      → (SaysWhy (some reason) phase → Timely deadline other)
      → Timely deadline (elim phase [ pausing end t ↦ paused | _ ↦ other ])
  pausing_or reason selecting paused other why h k = k tt
  pausing_or reason invoking paused other why h k = k tt
  pausing_or reason (pausing end t) paused other why h k = h
  pausing_or reason (ended (returns stream)) paused other why h k = k tt
  pausing_or reason (ended (aborts_with r)) paused other why h k = absurd (ground arith)
  pausing_or reason (ended (fails_with f)) paused other why h k = k tt

  abort_call-Timely :
      (reason : AbortReason) (c : RetryCall)
      → InTime deadline c.now (some reason)
      → Timely deadline c
      → Timely deadline (abort_call one policy throttle timeout reason c)
  unfolding abort_call
  abort_call-Timely reason c on_time h =
      option_case (Timely deadline) c.abort _ _
        (λ fresh.
          pausing_or reason c.phase
            (end_call (aborts_with reason) (record c { abort = some reason }))
            (record c { abort = some reason })
            (subst (λ (a : Option AbortReason). SaysWhy a c.phase) fresh h.says_why)
            (end_call-Timely deadline (aborts_with reason)
              (record c { abort = some reason; phase = selecting }) refl
              (signalled-Timely deadline (some reason) (record c { phase = selecting }) on_time tt
                (at_phase-Timely deadline c.locals selecting c tt tt h)))
            (λ why. signalled-Timely deadline (some reason) c on_time why h))
        (λ first e. h)

  call_event-Timely :
      (w : Surroundings) (e : CallEvent) (c : RetryCall)
      → Timely deadline c
      → Timely deadline (call_event one policy throttle timeout w e c)
  call_event-Timely w e c h =
      call_event_cases one policy throttle timeout (Timely deadline) w e c (record {
        same = h;
        selected = λ _. invoke-Timely w c h;
        not_selected = λ f _. caught-Timely w f c h;
        streams = λ _. at_phase-Timely deadline c.locals (ended (returns true)) c tt tt h;
        answered = λ _. end_call-Timely deadline (returns false) c tt h;
        refused = λ f _. caught-Timely w f c h;
        ticked =
            λ end t e. tick-Timely w end t c h (subst (PauseFits deadline c.now) e h.pause_fits);
        aborted = λ reason r. abort_call-Timely reason c (in_time_of c.now reason r) h;
        rung = λ t e due.
            let rings : RingsAt deadline (some t) = subst (RingsAt deadline) e h.rings in
            abort_call-Timely deadline_passed (record c { deadline_timer = none }) (ground arith)
              (no_timer-Timely deadline c.listening c h);
        streamed = λ _. no_timer-Timely deadline false c h;
      })
    where
      in_time_of :
          (now : ℕ) (reason : AbortReason)
          → (reason ≡ call_canceled) ⊎ (reason ≡ channel_stopped)
          → InTime deadline now (some reason)
      in_time_of now call_canceled r = tt
      in_time_of now channel_stopped r = tt
      in_time_of now deadline_passed r = absurd (ground arith)

-- A call that is given a timeout, of 2147483647 milliseconds at most, keeps to the deadline whatever
-- happens to it: each attempt begins before the deadline with a timeout that ends at it, and so does
-- each wait for a transport; no pause is to end behind it, or it is to end at once; the signal is
-- not aborted with "Deadline exceeded" before it has passed, and a call that ends as aborted tells the
-- reason that its signal was aborted with first.
pub call_steps-begin_call :
    (one : ℕ) (policy : Option RetryPolicy) (throttle : Option Throttling) (ms : ℕ)
    (w : Surroundings) (signal_aborted stopped_aborted : Bool)
    (es : List (Surroundings × CallEvent))
    → 0 < ms
    → ms ≤ max_timeout
    → Timely ms (
        call_steps one policy throttle
          (some ms)
          es
          (begin_call one policy throttle (some ms) w signal_aborted stopped_aborted))
unfolding begin_call
call_steps-begin_call one policy throttle ms w signal_aborted stopped_aborted es positive fits =
    let given : ltb 0 ms ≡ true = ground arith in
    call_steps_keep one policy throttle (some ms) (Timely ms)
      (call_event-Timely ms one policy throttle (some ms)) (later-Timely ms) es _
      (begin_round-Timely ms one policy throttle (some ms) w
        (new_call one policy throttle (some ms) w signal_aborted stopped_aborted)
        (rw given (record {
          kept = refl;
          selected = tt;
          invoked = tt;
          pause_fits = tt;
          rings = (omega arith, fits);
          in_time = not_yet signal_aborted stopped_aborted;
          says_why = tt;
        })))
  where
    not_yet : (a b : Bool) → InTime ms 0 (already_aborted one policy throttle (some ms) a b)
    not_yet true b = tt
    not_yet false true = tt
    not_yet false false = tt
