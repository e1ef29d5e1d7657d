-- ===== src/Retry/Call/Waits.antt =====
-- How long a pause lasts.
use mathlib.Core.Path.{subst}
use grpc_bridge.Prelude.{
  ℕ, ◌+◌, ◌≤◌, ◌≡◌, ◌⊎◌, inl, inr, refl, ap, Option, none, some, List, true, ltb, if_case,
  option_case, arith,
}
use grpc_bridge.Retry.Policy.{RetryPolicy, Throttling}
use grpc_bridge.Retry.Decide.{Failure, Attempts, Decision, throws, pauses, decide}
use grpc_bridge.Retry.Call.Phases.{call_event_cases, call_steps_keep}
use grpc_bridge.Retry.Call.{
  AbortReason, deadline_passed, returns, aborts_with, fails_with, CallPhase, selecting, invoking,
  pausing, ended, Attempt, Selection, RetryCall, Surroundings, end_call, deadline_exceeded_failure,
  remaining_time, until_deadline, begin_pause, caught, begin_round, invoke, tick, abort_call,
  CallEvent, call_event, call_steps,
}

-- The pause goes on, or an abort has ended the call.
abbrev pub HoldsOn : ℕ → CallPhase → Type 0
HoldsOn end (pausing e t) = e ≡ end
HoldsOn end (ended (aborts_with reason)) = Unit
HoldsOn end _ = ⊥

module _ (end : ℕ) (selections : List Selection) (invocations : List Attempt) where
  abbrev pub Waits : RetryCall → Type 0
  Waits c = (c.selections ≡ selections) × (c.invocations ≡ invocations) × HoldsOn end c.phase

  abbrev pub Patient : RetryCall → Type 0
  Patient c = (end ≤ c.now) ⊎ Waits c

  module _ (one : ℕ) (policy : Option RetryPolicy) (throttle : Option Throttling)
      (timeout : Option ℕ) where
    abbrev Late : RetryCall → Type 0
    Late c = end ≤ c.now

    aborted-Late :
        (next c : RetryCall)
        → Late c
        → Late next
        → Late (elim c.abort [ some reason ↦ end_call (aborts_with reason) c | none ↦ next ])
    aborted-Late next c h k = option_case Late c.abort _ _ (λ _. k) (λ reason _. h)

    decided-Late :
        (decision : Decision) (f : Failure) (c : RetryCall)
        → Late c
        → Late (elim decision [
          | throws tokens ↦ end_call (fails_with f) c
          | pauses delay locals ↦
              begin_pause (until_deadline delay c) (record c { locals = locals })
        ])
    decided-Late (throws tokens) f c h = h
    decided-Late (pauses delay locals) f c h = h

    caught-Late :
        (w : Surroundings) (f : Failure) (c : RetryCall)
        → Late c
        → Late (caught one policy throttle timeout w f c)
    unfolding caught
    caught-Late w f c h = aborted-Late _ c h (
        decided-Late
          (decide one w.jitter policy throttle w.committed f
            (record c.locals { tokens = w.tokens }))
          f c h)

    with_time-Late :
        (w : Surroundings) (next : Option ℕ → RetryCall) (c : RetryCall)
        → Late c
        → ((left : Option ℕ) → Late (next left))
        → Late (elim (remaining_time timeout c) [
          | none ↦ caught one policy throttle timeout w deadline_exceeded_failure c
          | some left ↦ next left
        ])
    with_time-Late w next c h k =
        option_case Late (remaining_time timeout c) _ _
          (λ _. caught-Late w deadline_exceeded_failure c h) (λ left _. k left)

    begin_round-Late :
        (w : Surroundings) (c : RetryCall)
        → Late c
        → Late (begin_round one policy throttle timeout w c)
    unfolding begin_round
    begin_round-Late w c h = aborted-Late _ c h (with_time-Late w _ c h (λ left. h))

    invoke-Late :
        (w : Surroundings) (c : RetryCall) → Late c → Late (invoke one policy throttle timeout w c)
    unfolding invoke
    invoke-Late w c h = aborted-Late _ c h (with_time-Late w _ c h (λ left. h))

    tick-Late :
        (w : Surroundings) (e : ℕ) (c : RetryCall)
        → Late c
        → Late (tick one policy throttle timeout w e c)
    unfolding tick
    tick-Late w e c h =
        aborted-Late _ c h (if_case Late (ltb c.now e) _ _ (λ _. h) (λ _. begin_round-Late w c h))

    pausing_or :
        (p : CallPhase) (paused other : RetryCall)
        → Late paused
        → Late other
        → Late (elim p [ pausing e t ↦ paused | _ ↦ other ])
    pausing_or selecting paused other h k = k
    pausing_or invoking paused other h k = k
    pausing_or (pausing e t) paused other h k = h
    pausing_or (ended outcome) paused other h k = k

    abort_call-Late :
        (reason : AbortReason) (c : RetryCall)
        → Late c
        → Late (abort_call one policy throttle timeout reason c)
    unfolding abort_call
    abort_call-Late reason c h =
        option_case Late c.abort _ _ (λ _. pausing_or c.phase _ _ h h) (λ first _. h)

    call_event-Late :
        (w : Surroundings) (e : CallEvent) (c : RetryCall)
        → Late c
        → Late (call_event one policy throttle timeout w e c)
    call_event-Late w e c h = call_event_cases one policy throttle timeout Late w e c (record {
      same = h;
      selected = λ _. invoke-Late w c h;
      not_selected = λ f _. caught-Late w f c h;
      streams = λ _. h;
      answered = λ _. h;
      refused = λ f _. caught-Late w f c h;
      ticked = λ e _ _. tick-Late w e c h;
      aborted = λ reason _. abort_call-Late reason c h;
      rung = λ _ _ _. abort_call-Late deadline_passed (record c { deadline_timer = none }) h;
      streamed = λ _. h;
    })

    held : (c : RetryCall) (p : CallPhase) → Waits c → c.phase ≡ p → HoldsOn end p
    held c p h e = subst (HoldsOn end) e h.2

    tick-Patient :
        (w : Surroundings) (e : ℕ) (c : RetryCall)
        → e ≡ end
        → Waits c
        → Patient (tick one policy throttle timeout w e c)
    unfolding tick
    tick-Patient w e c same (selected, invoked, holds) =
        option_case Patient c.abort _ _
          (λ _.
            if_case Patient (ltb c.now e) _ _ (λ _. inr (selected, invoked, same))
              (λ over. inl (begin_round-Late w c (ground arith))))
          (λ reason _. inr (selected, invoked, tt))

    abort_phase :
        (reason : AbortReason) (c : RetryCall) (p : CallPhase)
        → Waits c
        → HoldsOn end p
        → c.phase ≡ p
        → Waits (elim p [
          | pausing e t ↦ end_call (aborts_with reason) (record c { abort = some reason })
          | _ ↦ record c { abort = some reason }
        ])
    abort_phase reason c (pausing e t) h holds at = (h.0, h.1, tt)
    abort_phase reason c (ended (aborts_with r)) h holds at = h
    abort_phase reason c (ended (returns stream)) h holds at = h
    abort_phase reason c (ended (fails_with f)) h holds at = h
    abort_phase reason c selecting h holds at = h
    abort_phase reason c invoking h holds at = h

    abort_call-Waits :
        (reason : AbortReason) (c : RetryCall)
        → Waits c
        → Waits (abort_call one policy throttle timeout reason c)
    unfolding abort_call
    abort_call-Waits reason c h =
        option_case Waits c.abort _ _ (λ _. abort_phase reason c c.phase h h.2 refl) (λ first _. h)

    call_event-Patient :
        (w : Surroundings) (e : CallEvent) (c : RetryCall)
        → Patient c
        → Patient (call_event one policy throttle timeout w e c)
    call_event-Patient w e c (inl late) = inl (call_event-Late w e c late)
    call_event-Patient w e c (inr h) =
        call_event_cases one policy throttle timeout Patient w e c (record {
          same = inr h;
          selected = λ at. absurd (held c selecting h at);
          not_selected = λ f at. absurd (held c selecting h at);
          streams = λ at. absurd (held c invoking h at);
          answered = λ at. absurd (held c invoking h at);
          refused = λ f at. absurd (held c invoking h at);
          ticked = λ e t at. tick-Patient w e c (held c (pausing e t) h at) h;
          aborted = λ reason _. inr (abort_call-Waits reason c h);
          rung = λ _ _ _.
              inr (abort_call-Waits deadline_passed (record c { deadline_timer = none }) h);
          streamed = λ at. absurd (held c (ended (returns true)) h at);
        })

    later-Patient : (n : ℕ) (c : RetryCall) → Patient c → Patient (record c { now = c.now + n })
    later-Patient n c (inl late) = inl (omega (arith, late))
    later-Patient n c (inr h) = inr h

decided-Patient :
    (decision : Decision) (f : Failure) (c : RetryCall) (delay : ℕ) (locals : Attempts)
    → decision ≡ pauses delay locals
    → Patient (c.now + until_deadline delay c) c.selections c.invocations (elim decision [
      | throws tokens ↦ end_call (fails_with f) c
      | pauses d s ↦ begin_pause (until_deadline d c) (record c { locals = s })
    ])
decided-Patient (throws tokens) f c delay locals e = absurd (ground arith)
decided-Patient (pauses d s) f c delay locals e =
    let same : d ≡ delay = ground arith in
    inr (refl, refl, ap (λ (x : ℕ). c.now + until_deadline x c) same)

-- What the loop decides about a failure that it goes on behind is kept: until the delay that was
-- decided on is over, or the deadline has come, the call makes no attempt and does not wait for a
-- transport, whatever happens meanwhile and however early its timers fire; it is pausing, or an abort
-- has ended it.
pub call_steps-caught :
    (one : ℕ) (policy : Option RetryPolicy) (throttle : Option Throttling) (timeout : Option ℕ)
    (w : Surroundings) (f : Failure) (c : RetryCall) (delay : ℕ) (locals : Attempts)
    (es : List (Surroundings × CallEvent))
    → c.abort ≡ none
    → decide one w.jitter policy throttle w.committed f (record c.locals { tokens = w.tokens })
      ≡ pauses delay locals
    → Patient
        (c.now + until_deadline delay c)
        c.selections
        c.invocations
        (call_steps one policy throttle timeout es (caught one policy throttle timeout w f c))
unfolding caught
call_steps-caught one policy throttle timeout w f c delay locals es fresh decision =
    let end = c.now + until_deadline delay c in
    call_steps_keep one policy throttle timeout (Patient end c.selections c.invocations)
      (call_event-Patient end c.selections c.invocations one policy throttle timeout)
      (later-Patient end c.selections c.invocations one policy throttle timeout) es _
      (option_case (Patient end c.selections c.invocations) c.abort _ _
        (λ _. decided-Patient _ f c delay locals decision)
        (λ reason aborted. absurd (ground (arith, fresh, aborted))))
