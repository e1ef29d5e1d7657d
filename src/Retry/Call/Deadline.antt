-- ===== src/Retry/Call/Deadline.antt =====
-- What the deadline of a call bounds: the predicate, and the changes of a call that keep it.
pub mod Steps
use mathlib.Core.Path.{subst}
use grpc_bridge.Prelude.{
  ℕ, ◌+◌, ◌-◌, ◌≤◌, ◌<◌, ◌≡◌, refl, max, Bool, true, false, Option, none, some, List, All,
  All-append, ltb, leb, ◌⊎◌, if_case, option_case, arith,
}
use grpc_bridge.Retry.Policy.{RetryPolicy, Throttling}
use grpc_bridge.Retry.Decide.{Failure, Attempts, Decision, throws, pauses, decide}
use grpc_bridge.Retry.Call.Phases.{call_event_cases, call_steps_keep}
use grpc_bridge.Retry.Call.{
  AbortReason, call_canceled, channel_stopped, deadline_passed, Timer, max_timeout, CallOutcome,
  returns, aborts_with, fails_with, CallPhase, selecting, invoking, pausing, ended, Attempt,
  Selection, RetryCall, Surroundings, cleanup, end_call, deadline_exceeded_failure, remaining_time,
  until_deadline, begin_pause, caught, begin_round, invoke, tick, abort_call, CallEvent, call_event,
  call_steps, begin_call, already_aborted, new_call,
}

-- A call that ended because it was aborted tells the reason of its signal.
abbrev pub SaysWhy : Option AbortReason → CallPhase → Type 0
SaysWhy abort (ended (aborts_with reason)) = abort ≡ some reason
SaysWhy abort _ = Unit

module _ (deadline : ℕ) where
  -- A timeout that was given at some time, and ends at the deadline.
  abbrev pub EndsAt : ℕ → Option ℕ → Type 0
  EndsAt at none = ⊥
  EndsAt at (some left) = (0 < left) × (at + left ≡ deadline)

  -- A pause, and the timer within it, end by the deadline, or at once if it has passed.
  abbrev pub PauseFits : ℕ → CallPhase → Type 0
  PauseFits now (pausing end t) =
      (end ≤ max deadline t.set_at) × (t.set_at + t.delay ≤ end) × (t.set_at ≤ now)
  PauseFits now _ = Unit

  abbrev pub RingsAt : Option Timer → Type 0
  RingsAt none = Unit
  RingsAt (some t) = t.set_at + t.delay ≡ deadline × (t.delay ≤ max_timeout)

  -- The deadline is not given as the reason before it has passed.
  abbrev pub InTime : ℕ → Option AbortReason → Type 0
  InTime now (some deadline_passed) = deadline ≤ now
  InTime now _ = Unit

  pub record Timely (c : RetryCall) : Type 0 where
    pub kept : c.deadline ≡ some deadline
    pub selected : All (λ (s : Selection). EndsAt s.at s.timeout) c.selections
    pub invoked : All (λ (a : Attempt). EndsAt a.at a.timeout) c.invocations
    pub pause_fits : PauseFits c.now c.phase
    pub rings : RingsAt c.deadline_timer
    pub in_time : InTime c.now c.abort
    pub says_why : SaysWhy c.abort c.phase

  InTime-later :
      (now n : ℕ) (abort : Option AbortReason) → InTime now abort → InTime (now + n) abort
  InTime-later now n none h = tt
  InTime-later now n (some call_canceled) h = tt
  InTime-later now n (some channel_stopped) h = tt
  InTime-later now n (some deadline_passed) h = omega (arith, h)

  PauseFits-later :
      (now n : ℕ) (phase : CallPhase) → PauseFits now phase → PauseFits (now + n) phase
  PauseFits-later now n selecting h = tt
  PauseFits-later now n invoking h = tt
  PauseFits-later now n (pausing end t) (a, b, c) = (a, b, omega (arith, c))
  PauseFits-later now n (ended outcome) h = tt

  pub later-Timely : (n : ℕ) (c : RetryCall) → Timely c → Timely (record c { now = c.now + n })
  later-Timely n c h = record {
    kept = h.kept;
    selected = h.selected;
    invoked = h.invoked;
    rings = h.rings;
    says_why = h.says_why;
    pause_fits = PauseFits-later c.now n c.phase h.pause_fits;
    in_time = InTime-later c.now n c.abort h.in_time;
  }

  -- Another phase and other locals.
  pub at_phase-Timely :
      (locals : Attempts) (phase : CallPhase) (c : RetryCall)
      → PauseFits c.now phase
      → SaysWhy c.abort phase
      → Timely c
      → Timely (record c { phase = phase; locals = locals })
  at_phase-Timely locals phase c fits why h = record {
    kept = h.kept;
    selected = h.selected;
    invoked = h.invoked;
    pause_fits = fits;
    rings = h.rings;
    in_time = h.in_time;
    says_why = why;
  }

  -- Another abort.
  pub signalled-Timely :
      (abort : Option AbortReason) (c : RetryCall)
      → InTime c.now abort
      → SaysWhy abort c.phase
      → Timely c
      → Timely (record c { abort = abort })
  signalled-Timely abort c on_time why h = record {
    kept = h.kept;
    selected = h.selected;
    invoked = h.invoked;
    pause_fits = h.pause_fits;
    rings = h.rings;
    in_time = on_time;
    says_why = why;
  }

  pub no_timer-Timely :
      (listening : Bool) (c : RetryCall)
      → Timely c
      → Timely (record c { deadline_timer = none; listening = listening })
  no_timer-Timely listening c h = record {
    kept = h.kept;
    selected = h.selected;
    invoked = h.invoked;
    pause_fits = h.pause_fits;
    rings = tt;
    in_time = h.in_time;
    says_why = h.says_why;
  }

  pub end_call-Timely :
      (outcome : CallOutcome) (c : RetryCall)
      → SaysWhy c.abort (ended outcome)
      → Timely c
      → Timely (end_call outcome c)
  end_call-Timely outcome c why h =
      no_timer-Timely false (record c { phase = ended outcome })
        (at_phase-Timely c.locals (ended outcome) c tt why h)

  pub begin_pause-Timely :
      (delay : ℕ) (locals : Attempts) (c : RetryCall)
      → Timely c
      → Timely (begin_pause (until_deadline delay c) (record c { locals = locals }))
  begin_pause-Timely delay locals c h =
      at_phase-Timely locals _ c (rw h.kept (omega arith, omega arith, omega arith)) tt h

  -- The abort is seen before anything else.
  pub aborted-Timely :
      (next c : RetryCall)
      → Timely c
      → (c.abort ≡ none → Timely next)
      → Timely (elim c.abort [ some reason ↦ end_call (aborts_with reason) c | none ↦ next ])
  aborted-Timely next c h k =
      option_case Timely c.abort _ _ (λ e. k e)
        (λ reason e. end_call-Timely (aborts_with reason) c e h)
