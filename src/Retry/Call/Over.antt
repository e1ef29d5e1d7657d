-- ===== src/Retry/Call/Over.antt =====
-- What is over when the signal of a call is aborted, and when the call has ended.
use mathlib.Core.Path.{subst}
use grpc_bridge.Prelude.{
  ℕ, ◌≡◌, refl, Bool, true, false, Option, none, some, List, ◌⊎◌, inl, inr, Bool-cases, option_case,
  arith,
}
use grpc_bridge.Retry.Policy.{RetryPolicy, Throttling}
use grpc_bridge.Retry.Decide.{Failure}
use grpc_bridge.Retry.Call.Phases.{call_event_cases, call_steps_keep}
use grpc_bridge.Retry.Call.{
  AbortReason, deadline_passed, Timer, returns, aborts_with, fails_with, CallPhase, selecting,
  invoking, pausing, ended, Attempt, Selection, RetryCall, Surroundings, end_call, caught, invoke,
  abort_call, CallEvent, select_resolves, select_rejects, invoke_resolves, invoke_rejects,
  call_event, call_steps,
}

-- A call that is under way.
abbrev pub IsWaiting : CallPhase → Type 0
IsWaiting (ended outcome) = ⊥
IsWaiting _ = Unit

-- The answer that the call waits for.
abbrev pub is_answer : CallPhase → CallEvent → Bool
is_answer selecting select_resolves = true
is_answer selecting (select_rejects f) = true
is_answer invoking (invoke_resolves stream) = true
is_answer invoking (invoke_rejects f) = true
is_answer _ _ = false

module _ (reason : AbortReason) where
  -- It waits for an answer, or has ended: with the reason, or with the result of its last attempt.
  abbrev pub Halts : CallPhase → Type 0
  Halts selecting = Unit
  Halts invoking = Unit
  Halts (pausing end t) = ⊥
  Halts (ended (returns stream)) = Unit
  Halts (ended (aborts_with r)) = r ≡ reason
  Halts (ended (fails_with f)) = ⊥

  abbrev pub IsOver : CallPhase → Type 0
  IsOver (ended (returns stream)) = Unit
  IsOver (ended (aborts_with r)) = r ≡ reason
  IsOver _ = ⊥

module _ (one : ℕ) (policy : Option RetryPolicy) (throttle : Option Throttling)
    (timeout : Option ℕ) where
  -- The signal is aborted, and the call has begun nothing since.
  module _ (reason : AbortReason) (selections : List Selection) (invocations : List Attempt) where
    abbrev pub Halted : RetryCall → Type 0
    Halted c =
        (c.abort ≡ some reason)
        × (c.selections ≡ selections)
        × (c.invocations ≡ invocations)
        × Halts reason c.phase

    aborted-Halted :
        (next c : RetryCall)
        → Halted c
        → Halted (elim c.abort [ some first ↦ end_call (aborts_with first) c | none ↦ next ])
    aborted-Halted next c (abort, selected, invoked, halts) =
        option_case Halted c.abort _ _ (λ fresh. absurd (ground arith))
          (λ first e. (abort, selected, invoked, ground arith))

    caught-Halted :
        (w : Surroundings) (f : Failure) (c : RetryCall)
        → Halted c
        → Halted (caught one policy throttle timeout w f c)
    unfolding caught
    caught-Halted w f c h = aborted-Halted _ c h

    invoke-Halted :
        (w : Surroundings) (c : RetryCall)
        → Halted c
        → Halted (invoke one policy throttle timeout w c)
    unfolding invoke
    invoke-Halted w c h = aborted-Halted _ c h

    abort_call-Halted :
        (r : AbortReason) (c : RetryCall)
        → Halted c
        → Halted (abort_call one policy throttle timeout r c)
    unfolding abort_call
    abort_call-Halted r c h =
        option_case Halted c.abort _ _ (λ fresh. absurd (ground (arith, h.0))) (λ first e. h)

    no_pause : (end : ℕ) (t : Timer) (p : CallPhase) → Halts reason p → p ≡ pausing end t → ⊥
    no_pause end t p h e = subst (Halts reason) e h

    call_event-Halted :
        (w : Surroundings) (e : CallEvent) (c : RetryCall)
        → Halted c
        → Halted (call_event one policy throttle timeout w e c)
    call_event-Halted w e c h = call_event_cases one policy throttle timeout Halted w e c (record {
      same = h;
      selected = λ _. invoke-Halted w c h;
      not_selected = λ f _. caught-Halted w f c h;
      streams = λ _. (h.0, h.1, h.2, tt);
      answered = λ _. (h.0, h.1, h.2, tt);
      refused = λ f _. caught-Halted w f c h;
      ticked = λ end t e. absurd (no_pause end t c.phase h.3 e);
      aborted = λ r _. abort_call-Halted r c h;
      rung = λ t _ _. abort_call-Halted deadline_passed (record c { deadline_timer = none }) h;
      streamed = λ _. h;
    })

    answer_ends :
        (w : Surroundings) (e : CallEvent) (c : RetryCall) (p : CallPhase)
        → c.phase ≡ p
        → Halted c
        → is_answer p e ≡ true
        → IsOver reason (call_event one policy throttle timeout w e c).phase
    unfolding call_event caught invoke
    answer_ends w select_resolves c selecting at h a = rw (at, h.0) refl
    answer_ends w (select_rejects f) c selecting at h a = rw (at, h.0) refl
    answer_ends w (invoke_resolves true) c invoking at h a = rw at tt
    answer_ends w (invoke_resolves false) c invoking at h a = rw at tt
    answer_ends w (invoke_rejects f) c invoking at h a = rw (at, h.0) refl
    answer_ends w e c p at h a = absurd (ground arith)

  halt_from :
      (reason : AbortReason) (c : RetryCall) (p : CallPhase)
      → c.phase ≡ p
      → c.abort ≡ none
      → IsWaiting p
      → Halted reason c.selections c.invocations (abort_call one policy throttle timeout reason c)
  unfolding abort_call
  halt_from reason c selecting at fresh w = rw (fresh, at) (refl, refl, refl, tt)
  halt_from reason c invoking at fresh w = rw (fresh, at) (refl, refl, refl, tt)
  halt_from reason c (pausing end t) at fresh w = rw (fresh, at) (refl, refl, refl, refl)
  halt_from reason c (ended outcome) at fresh w = absurd w

  -- Once the signal of a call under way is aborted, whatever the reason and whatever happens from then
  -- on, the call neither waits for a transport again nor makes another attempt, and keeps the first
  -- reason; a pause ends at once, and the answer that the call waits for ends it: with that reason,
  -- unless the answer is the result of the attempt.
  pub call_steps-abort_call :
      (reason : AbortReason) (c : RetryCall) (es : List (Surroundings × CallEvent))
      (w : Surroundings) (e : CallEvent)
      → c.abort ≡ none
      → IsWaiting c.phase
      → Halted reason c.selections c.invocations (
          call_steps one policy throttle timeout es
            (abort_call one policy throttle timeout reason c))
        × ((is_answer
                (call_steps one policy throttle timeout es
                  (abort_call one policy throttle timeout reason c)).phase
                e
              ≡ false)
            ⊎ IsOver reason
                (call_event one policy throttle timeout w e (
                  call_steps one policy throttle timeout es
                    (abort_call one policy throttle timeout reason c))).phase)
  call_steps-abort_call reason c es w e fresh waiting =
      let c1 =
        call_steps one policy throttle timeout es
          (abort_call one policy throttle timeout reason c) in
      let h : Halted reason c.selections c.invocations c1 =
        call_steps_keep one policy throttle timeout (Halted reason c.selections c.invocations)
          (call_event-Halted reason c.selections c.invocations) (λ n c0 k. k) es _
          (halt_from reason c c.phase refl fresh waiting) in
      (
        h,
        elim (Bool-cases (is_answer c1.phase e)) [
          | inl a ↦ inr (answer_ends reason c.selections c.invocations w e c1 _ refl h a)
          | inr other ↦ inl other
        ],
      )
