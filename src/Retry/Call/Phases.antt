-- ===== src/Retry/Call/Phases.antt =====
-- Case distinctions on what a call waits for, and on what happens to it.
use grpc_bridge.Prelude.{
  ℕ, ◌+◌, ◌≡◌, refl, ◌⊎◌, inl, inr, true, false, Option, some, none, List, [], ◌∷◌, if_case,
  option_case,
}
use grpc_bridge.Retry.Policy.{RetryPolicy, Throttling}
use grpc_bridge.Retry.Decide.{Failure}
use grpc_bridge.Retry.Call.{
  AbortReason, call_canceled, channel_stopped, deadline_passed, Timer, is_due, returns, aborts_with,
  fails_with, CallPhase, selecting, invoking, pausing, ended, RetryCall, Surroundings, cleanup,
  end_call, caught, invoke, tick, abort_call, CallEvent, select_resolves, select_rejects,
  invoke_resolves, invoke_rejects, pause_ticks, signal_aborts, transport_stops, deadline_rings,
  stream_ends, call_event, call_steps,
}

module _ (P : RetryCall → Type 0) where
  if_selecting :
      (phase : CallPhase) (next same : RetryCall)
      → (phase ≡ selecting → P next)
      → P same
      → P (elim phase [ selecting ↦ next | _ ↦ same ])
  if_selecting selecting next same h k = h refl
  if_selecting invoking next same h k = k
  if_selecting (pausing end t) next same h k = k
  if_selecting (ended outcome) next same h k = k

  if_invoking :
      (phase : CallPhase) (next same : RetryCall)
      → (phase ≡ invoking → P next)
      → P same
      → P (elim phase [ invoking ↦ next | _ ↦ same ])
  if_invoking selecting next same h k = k
  if_invoking invoking next same h k = h refl
  if_invoking (pausing end t) next same h k = k
  if_invoking (ended outcome) next same h k = k

  if_streaming :
      (phase : CallPhase) (next same : RetryCall)
      → (phase ≡ ended (returns true) → P next)
      → P same
      → P (elim phase [ ended (returns true) ↦ next | _ ↦ same ])
  if_streaming selecting next same h k = k
  if_streaming invoking next same h k = k
  if_streaming (pausing end t) next same h k = k
  if_streaming (ended (returns true)) next same h k = h refl
  if_streaming (ended (returns false)) next same h k = k
  if_streaming (ended (aborts_with reason)) next same h k = k
  if_streaming (ended (fails_with f)) next same h k = k

  if_pausing :
      (phase : CallPhase) (next : ℕ → Timer → RetryCall) (same : RetryCall)
      → ((end : ℕ) (t : Timer) → phase ≡ pausing end t → P (next end t))
      → P same
      → P (elim phase [ pausing end t ↦ next end t | _ ↦ same ])
  if_pausing selecting next same h k = k
  if_pausing invoking next same h k = k
  if_pausing (pausing end t) next same h k = h end t refl
  if_pausing (ended outcome) next same h k = k

module _ (one : ℕ) (policy : Option RetryPolicy) (throttle : Option Throttling) (timeout : Option ℕ)
    (P : RetryCall → Type 0) where
  -- What an event may do, with what the call waited for.
  pub record EventCases (w : Surroundings) (c : RetryCall) : Type 0 where
    pub same : P c
    pub selected : c.phase ≡ selecting → P (invoke one policy throttle timeout w c)
    pub not_selected :
        (f : Failure) → c.phase ≡ selecting → P (caught one policy throttle timeout w f c)
    pub streams : c.phase ≡ invoking → P (record c { phase = ended (returns true) })
    pub answered : c.phase ≡ invoking → P (end_call (returns false) c)
    pub refused : (f : Failure) → c.phase ≡ invoking → P (caught one policy throttle timeout w f c)
    pub ticked :
        (end : ℕ) (t : Timer)
        → c.phase ≡ pausing end t
        → P (tick one policy throttle timeout w end c)
    pub aborted :
        (reason : AbortReason)
        → (reason ≡ call_canceled) ⊎ (reason ≡ channel_stopped)
        → P (abort_call one policy throttle timeout reason c)
    pub rung :
        (t : Timer)
        → c.deadline_timer ≡ some t
        → is_due c.now t ≡ true
        → P (
            abort_call one policy throttle timeout deadline_passed
              (record c { deadline_timer = none }))
    pub streamed : c.phase ≡ ended (returns true) → P (cleanup c)

  pub call_event_cases :
      (w : Surroundings) (e : CallEvent) (c : RetryCall)
      → EventCases w c
      → P (call_event one policy throttle timeout w e c)
  unfolding call_event
  call_event_cases w select_resolves c h = if_selecting P c.phase _ c h.selected h.same
  call_event_cases w (select_rejects f) c h = if_selecting P c.phase _ c (h.not_selected f) h.same
  call_event_cases w (invoke_resolves true) c h = if_invoking P c.phase _ c h.streams h.same
  call_event_cases w (invoke_resolves false) c h = if_invoking P c.phase _ c h.answered h.same
  call_event_cases w (invoke_rejects f) c h = if_invoking P c.phase _ c (h.refused f) h.same
  call_event_cases w pause_ticks c h =
      if_pausing P c.phase _ c
        (λ end t e. if_case P (is_due c.now t) _ _ (λ _. h.ticked end t e) (λ _. h.same)) h.same
  call_event_cases w signal_aborts c h =
      if_case P c.listening _ _ (λ _. h.aborted call_canceled (inl refl)) (λ _. h.same)
  call_event_cases w transport_stops c h =
      if_case P c.listening _ _ (λ _. h.aborted channel_stopped (inr refl)) (λ _. h.same)
  call_event_cases w deadline_rings c h =
      option_case P c.deadline_timer _ _ (λ _. h.same)
        (λ t e. if_case P (is_due c.now t) _ _ (λ due. h.rung t e due) (λ _. h.same))
  call_event_cases w stream_ends c h = if_streaming P c.phase _ c h.streamed h.same

  -- What each event and the clock keep is kept by any sequence of events.
  pub call_steps_keep :
      ((w : Surroundings) (e : CallEvent) (c : RetryCall)
        → P c
        → P (call_event one policy throttle timeout w e c))
      → ((n : ℕ) (c : RetryCall) → P c → P (record c { now = c.now + n }))
      → (es : List (Surroundings × CallEvent)) (c : RetryCall) → P c
      → P (call_steps one policy throttle timeout es c)
  unfolding call_steps
  call_steps_keep step later [] c h = h
  call_steps_keep step later ((w, e) ∷ es) c h =
      call_steps_keep step later es _
        (step w e (record c { now = c.now + w.elapsed }) (later w.elapsed c h))
