-- ===== src/Retry/Call/Runs.antt =====
-- Runs of calls with retries on concrete events.
use grpc_bridge.Prelude.{
  ℕ, ◌+◌, ◌≡◌, ◌⊎◌, refl, true, false, Option, none, some, List, [], ◌∷◌, arith,
}
use grpc_bridge.Retry.Policy.{includes, failure}
use grpc_bridge.Retry.Decide.{Attempts, decide}
use grpc_bridge.Retry.Runs.{policy, unavailable}
use grpc_bridge.Retry.Call.{
  call_canceled, deadline_passed, RetryCall, Surroundings, returns, ended, until_deadline, caught,
  begin_round, invoke, tick, abort_call, CallEvent, select_resolves, invoke_resolves,
  invoke_rejects, pause_ticks, deadline_rings, call_event, call_steps, begin_call,
}
use grpc_bridge.Retry.Call.Deadline.{Timely}
use grpc_bridge.Retry.Call.Deadline.Steps.{call_steps-begin_call}
use grpc_bridge.Retry.Call.Over.{Halted, IsOver, is_answer, call_steps-abort_call}
use grpc_bridge.Retry.Call.Waits.{Patient, call_steps-caught}
use grpc_bridge.Retry.Call.Tidy.{Tidy, call_steps-Tidy}

abbrev after : ℕ → Surroundings
after ms = record { elapsed = ms; committed = false; tokens = 0; jitter = λ backoff. backoff }

-- A call with a timeout of 50 ms whose first attempt fails, and whose second gives a result; the
-- timer of the pause between them fires early, and again when it is over.
abbrev first_part : List (Surroundings × CallEvent)
first_part =
    (after 1, select_resolves) ∷ (after 2, invoke_rejects unavailable) ∷ (after 4, pause_ticks) ∷ []

abbrev events : List (Surroundings × CallEvent)
events =
    (after 1, select_resolves)
    ∷ (after 2, invoke_rejects unavailable)
    ∷ (after 4, pause_ticks)
    ∷ (after 6, pause_ticks)
    ∷ (after 1, select_resolves)
    ∷ (after 5, invoke_resolves false)
    ∷ []

abbrev begun : Option ℕ → RetryCall
begun timeout = begin_call 1000 (some policy) none timeout (after 0) false false

abbrev behind_events : RetryCall
behind_events = call_steps 1000 (some policy) none (some 50) events (begun (some 50))

runs_through :
    (behind_events.phase ≡ ended (returns false))
    × (behind_events.invocations
        ≡ record { at = 1; timeout = some 49; header = none }
          ∷ record { at = 14; timeout = some 36; header = some 1 }
          ∷ [])
unfolding call_steps call_event begin_call begin_round caught invoke tick decide includes failure
runs_through = (refl, refl)

call_steps-begin_call_example : Timely 50 behind_events
call_steps-begin_call_example =
    call_steps-begin_call 1000 (some policy) none 50 (after 0) false false events (omega arith)
      (omega arith)

call_steps-Tidy_example : Tidy behind_events
call_steps-Tidy_example =
    call_steps-Tidy 1000 (some policy) none (some 50) (after 0) false false events

-- A timeout that does not fit into 32 bits: the call may be aborted after a millisecond.
overlong_timeout :
    (call_steps 1000
      (some policy)
      none
      (some 2147483648)
      ((after 1, deadline_rings) ∷ [])
      (begun (some 2147483648))).abort
    ≡ some deadline_passed
unfolding call_steps call_event begin_call begin_round abort_call
overlong_timeout = refl

-- The call is canceled while it pauses.
abbrev paused : RetryCall
paused = call_steps 1000 (some policy) none (some 50) first_part (begun (some 50))

abbrev canceled_call : RetryCall
canceled_call =
    call_steps 1000 (some policy) none (some 50) ((after 6, pause_ticks) ∷ [])
      (abort_call 1000 (some policy) none (some 50) call_canceled paused)

call_steps-abort_call_example :
    Halted 1000
      (some policy)
      none
      (some 50)
      call_canceled
      paused.selections
      paused.invocations
      canceled_call
    × ((is_answer canceled_call.phase select_resolves ≡ false)
        ⊎ IsOver call_canceled
            (call_event 1000
              (some policy)
              none
              (some 50)
              (after 1)
              select_resolves
              canceled_call).phase)
unfolding call_steps call_event begin_call begin_round caught invoke tick decide includes failure
call_steps-abort_call_example =
    call_steps-abort_call 1000 (some policy) none (some 50) call_canceled paused
      ((after 6, pause_ticks) ∷ []) (after 1) select_resolves refl tt

abbrev second : Attempts
second = record { previous = 1; refused_before = false; retrying = true; backoff = 20; tokens = 0 }

call_steps-caught_example :
    Patient
      ((begun (some 50)).now + until_deadline 10 (begun (some 50)))
      (begun (some 50)).selections
      (begun (some 50)).invocations
      (call_steps 1000
        (some policy)
        none
        (some 50)
        ((after 4, pause_ticks) ∷ [])
        (caught 1000 (some policy) none (some 50) (after 2) unavailable (begun (some 50))))
unfolding begin_call begin_round decide includes failure
call_steps-caught_example =
    call_steps-caught 1000 (some policy) none (some 50) (after 2) unavailable (begun (some 50)) 10
      second ((after 4, pause_ticks) ∷ []) refl refl
