-- ===== src/Retry/Call/Tidy.antt =====
-- What a call leaves behind.
use mathlib.Core.Path.{subst}
use grpc_bridge.Prelude.{
  ℕ, ◌≡◌, refl, sym, Bool, true, false, Option, none, some, List, ltb, if_case, option_case,
}
use grpc_bridge.Retry.Policy.{RetryPolicy, Throttling}
use grpc_bridge.Retry.Decide.{Failure, Decision, throws, pauses, decide}
use grpc_bridge.Retry.Call.Phases.{call_event_cases, call_steps_keep}
use grpc_bridge.Retry.Call.{
  AbortReason, deadline_passed, Timer, CallOutcome, returns, aborts_with, fails_with, CallPhase,
  selecting, invoking, pausing, ended, RetryCall, Surroundings, end_call, deadline_exceeded_failure,
  remaining_time, until_deadline, begin_pause, caught, begin_round, invoke, tick, abort_call,
  CallEvent, call_event, call_steps, begin_call, new_call,
}

-- The listeners are there as long as the call is under way, and they and the timer are gone when it
-- has ended, unless its result is a stream.
abbrev pub TidyAt : CallPhase → Bool → Option Timer → Type 0
TidyAt (ended (returns true)) listening timer = Unit
TidyAt (ended _) listening timer = (listening ≡ false) × (timer ≡ none)
TidyAt _ listening timer = listening ≡ true

abbrev pub Tidy : RetryCall → Type 0
Tidy c = TidyAt c.phase c.listening c.deadline_timer

end_call-Tidy : (outcome : CallOutcome) (c : RetryCall) → Tidy (end_call outcome c)
end_call-Tidy (returns true) c = tt
end_call-Tidy (returns false) c = (refl, refl)
end_call-Tidy (aborts_with reason) c = (refl, refl)
end_call-Tidy (fails_with f) c = (refl, refl)

aborted-Tidy :
    (next c : RetryCall)
    → Tidy next
    → Tidy (elim c.abort [ some reason ↦ end_call (aborts_with reason) c | none ↦ next ])
aborted-Tidy next c h =
    option_case Tidy c.abort _ _ (λ _. h) (λ reason _. end_call-Tidy (aborts_with reason) c)

at_phase :
    (c : RetryCall) (p : CallPhase) → c.phase ≡ p → Tidy c → TidyAt p c.listening c.deadline_timer
at_phase c p e h = subst (λ (x : CallPhase). TidyAt x c.listening c.deadline_timer) e h

module _ (one : ℕ) (policy : Option RetryPolicy) (throttle : Option Throttling)
    (timeout : Option ℕ) where
  decided-Tidy :
      (decision : Decision) (f : Failure) (c : RetryCall)
      → c.listening ≡ true
      → Tidy (elim decision [
        | throws tokens ↦ end_call (fails_with f) c
        | pauses delay locals ↦ begin_pause (until_deadline delay c) (record c { locals = locals })
      ])
  decided-Tidy (throws tokens) f c l = (refl, refl)
  decided-Tidy (pauses delay locals) f c l = l

  caught-Tidy :
      (w : Surroundings) (f : Failure) (c : RetryCall)
      → c.listening ≡ true
      → Tidy (caught one policy throttle timeout w f c)
  unfolding caught
  caught-Tidy w f c l = aborted-Tidy _ c (
      decided-Tidy
        (decide one w.jitter policy throttle w.committed f (record c.locals { tokens = w.tokens }))
        f c l)

  with_time-Tidy :
      (w : Surroundings) (next : Option ℕ → RetryCall) (c : RetryCall)
      → c.listening ≡ true
      → ((left : Option ℕ) → Tidy (next left))
      → Tidy (elim (remaining_time timeout c) [
        | none ↦ caught one policy throttle timeout w deadline_exceeded_failure c
        | some left ↦ next left
      ])
  with_time-Tidy w next c l k =
      option_case Tidy (remaining_time timeout c) _ _
        (λ _. caught-Tidy w deadline_exceeded_failure c l) (λ left _. k left)

  begin_round-Tidy :
      (w : Surroundings) (c : RetryCall)
      → c.listening ≡ true
      → Tidy (begin_round one policy throttle timeout w c)
  unfolding begin_round
  begin_round-Tidy w c l = aborted-Tidy _ c (with_time-Tidy w _ c l (λ left. l))

  invoke-Tidy :
      (w : Surroundings) (c : RetryCall)
      → c.listening ≡ true
      → Tidy (invoke one policy throttle timeout w c)
  unfolding invoke
  invoke-Tidy w c l = aborted-Tidy _ c (with_time-Tidy w _ c l (λ left. l))

  tick-Tidy :
      (w : Surroundings) (end : ℕ) (c : RetryCall)
      → c.listening ≡ true
      → Tidy (tick one policy throttle timeout w end c)
  unfolding tick
  tick-Tidy w end c l =
      aborted-Tidy _ c (if_case Tidy (ltb c.now end) _ _ (λ _. l) (λ _. begin_round-Tidy w c l))

  pausing_or :
      (p : CallPhase) (paused other : RetryCall)
      → Tidy paused
      → Tidy other
      → Tidy (elim p [ pausing end t ↦ paused | _ ↦ other ])
  pausing_or selecting paused other h k = k
  pausing_or invoking paused other h k = k
  pausing_or (pausing end t) paused other h k = h
  pausing_or (ended outcome) paused other h k = k

  abort_call-Tidy :
      (reason : AbortReason) (c : RetryCall)
      → Tidy c
      → Tidy (abort_call one policy throttle timeout reason c)
  unfolding abort_call
  abort_call-Tidy reason c h =
      option_case Tidy c.abort _ _
        (λ _.
          pausing_or c.phase (end_call (aborts_with reason) (record c { abort = some reason }))
            (record c { abort = some reason }) (refl, refl) h)
        (λ first _. h)

  no_timer :
      (p : CallPhase) (listening : Bool) (timer : Option Timer)
      → TidyAt p listening timer
      → TidyAt p listening none
  no_timer selecting l t h = h
  no_timer invoking l t h = h
  no_timer (pausing end timer) l t h = h
  no_timer (ended (returns true)) l t h = tt
  no_timer (ended (returns false)) l t h = (h.0, refl)
  no_timer (ended (aborts_with reason)) l t h = (h.0, refl)
  no_timer (ended (fails_with f)) l t h = (h.0, refl)

  call_event-Tidy :
      (w : Surroundings) (e : CallEvent) (c : RetryCall)
      → Tidy c
      → Tidy (call_event one policy throttle timeout w e c)
  call_event-Tidy w e c h = call_event_cases one policy throttle timeout Tidy w e c (record {
    same = h;
    selected = λ e. invoke-Tidy w c (at_phase c selecting e h);
    not_selected = λ f e. caught-Tidy w f c (at_phase c selecting e h);
    streams = λ _. tt;
    answered = λ _. (refl, refl);
    refused = λ f e. caught-Tidy w f c (at_phase c invoking e h);
    ticked = λ end t e. tick-Tidy w end c (at_phase c (pausing end t) e h);
    aborted = λ reason _. abort_call-Tidy reason c h;
    rung = λ t _ _.
        abort_call-Tidy deadline_passed (record c { deadline_timer = none })
          (no_timer c.phase c.listening c.deadline_timer h);
    streamed = λ e. subst (λ (p : CallPhase). TidyAt p false none) (sym e) tt;
  })

  -- Whatever happens to a call, it listens for aborts as long as it is under way, and when it has
  -- ended neither its listeners nor its deadline's timer are left, unless its result is a stream,
  -- however it ended.
  pub call_steps-Tidy :
      (w : Surroundings) (signal_aborted stopped_aborted : Bool)
      (es : List (Surroundings × CallEvent))
      → Tidy (
          call_steps one policy throttle timeout es
            (begin_call one policy throttle timeout w signal_aborted stopped_aborted))
  unfolding begin_call
  call_steps-Tidy w signal_aborted stopped_aborted es =
      call_steps_keep one policy throttle timeout Tidy call_event-Tidy (λ n c h. h) es _
        (begin_round-Tidy w (new_call one policy throttle timeout w signal_aborted stopped_aborted)
          refl)
