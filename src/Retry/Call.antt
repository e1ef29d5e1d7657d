-- ===== src/Retry/Call.antt =====
-- web/src/retry.ts: `RetryingTransport.run` and `pause`, one event after the other: the deadline, the
-- combined abort signal, the calls of `select` and `invoke` and the pauses between them. An event is
-- what runs between two `await`s, and the clock stands still meanwhile. Times are milliseconds since
-- the call began, and timeouts are not negative.
pub mod Deadline
pub mod Over
pub mod Tidy
pub mod Waits
pub mod Phases
pub mod Runs
use grpc_bridge.Prelude.{
  ℕ, ◌+◌, ◌-◌, min, Bool, true, false, Option, none, some, List, [], ◌∷◌, ◌++◌, ltb, leb, ◌==◌,
  ◌||◌, if◌then◌else◌,
}
use grpc_bridge.Retry.Policy.{RetryPolicy, Throttling}
use grpc_bridge.Retry.Decide.{Failure, Attempts, throws, pauses, decide, first_attempt}

-- The reasons that `abort` is given.
pub data AbortReason : Type 0 where
  call_canceled channel_stopped deadline_passed : AbortReason

-- A pending `setTimeout(..., delay)`.
pub record Timer : Type 0 where
  pub set_at : ℕ
  pub delay : ℕ

abbrev pub max_timeout : ℕ
max_timeout = 2147483647

-- Whether the platform may fire the timer: not before its delay is over, unless the delay does not
-- fit into 32 bits.
abbrev pub is_due : ℕ → Timer → Bool
is_due now t = ltb max_timeout t.delay || leb (t.set_at + t.delay) now

pub data CallOutcome : Type 0 where
  returns : Bool → CallOutcome  -- whether the result is a stream
  aborts_with : AbortReason → CallOutcome
  fails_with : Failure → CallOutcome

-- The `await` that the loop is at; `ended` is behind its last one.
pub data CallPhase : Type 0 where
  selecting invoking : CallPhase
  pausing : ℕ → Timer → CallPhase
  ended : CallOutcome → CallPhase

-- A call of `select` or `invoke`: when, with what timeout; `header` is what
-- "grpc-previous-rpc-attempts" says, and `wait` that of `select`.
pub record Attempt : Type 0 where
  pub at : ℕ
  pub timeout : Option ℕ
  pub header : Option ℕ

pub record Selection : Type 0 where
  pub at : ℕ
  pub timeout : Option ℕ
  pub wait : Bool

-- `deadline` is `none` where it is Infinity, `listening` says whether the listeners for aborts are
-- there. `selections` and `invocations` are all calls of `select` and `invoke` so far.
pub record RetryCall : Type 0 where
  pub now : ℕ
  pub deadline : Option ℕ
  pub abort : Option AbortReason
  pub deadline_timer : Option Timer
  pub listening : Bool
  pub phase : CallPhase
  pub locals : Attempts
  pub selections : List Selection
  pub invocations : List Attempt

-- What an event finds around the call: the time since the last one, `replay.committed`, the
-- tokens that all calls share, and what `Math.random()` makes of a backoff.
pub record Surroundings : Type 0 where
  pub elapsed : ℕ
  pub committed : Bool
  pub tokens : ℕ
  pub jitter : ℕ → ℕ

-- `cleanup`, as the call is left.
abbrev pub cleanup : RetryCall → RetryCall
cleanup c = record c { deadline_timer = none; listening = false }

abbrev pub end_call : CallOutcome → RetryCall → RetryCall
end_call outcome c = record c { deadline_timer = none; listening = false; phase = ended outcome }

-- `new ConnectError("Deadline exceeded", Code.DeadlineExceeded)`.
abbrev pub deadline_exceeded_failure : Failure
deadline_exceeded_failure = record {
  evidence = none;
  committed = false;
  code = some 4;
  pushback = none;
}

-- `remaining`; `none` is the ConnectError.
abbrev pub remaining_time : Option ℕ → RetryCall → Option (Option ℕ)
remaining_time timeout c = elim c.deadline [
  | none ↦ some timeout
  | some deadline ↦ if leb deadline c.now then none else some (some (deadline - c.now))
]

-- `Math.min(delay, Math.max(0, deadline - performance.now()))`.
abbrev pub until_deadline : ℕ → RetryCall → ℕ
until_deadline delay c = elim c.deadline [
  | none ↦ delay
  | some deadline ↦ min delay (deadline - c.now)
]

-- `pause`, up to its timer.
abbrev pub begin_pause : ℕ → RetryCall → RetryCall
begin_pause ms c = record c {
  phase = pausing (c.now + ms) (record { set_at = c.now; delay = min ms max_timeout });
}

-- `if (previous) headers.set("grpc-previous-rpc-attempts", String(previous))`.
abbrev pub previous_header : ℕ → Option ℕ
previous_header previous = if previous == 0 then none else some previous

-- `select` and `invoke` settle in their own time; the call's signal and the transport's may abort,
-- and a streaming result ends.
pub data CallEvent : Type 0 where
  select_resolves : CallEvent
  select_rejects : Failure → CallEvent
  invoke_resolves : Bool → CallEvent  -- whether the result is a stream
  invoke_rejects : Failure → CallEvent
  pause_ticks : CallEvent
  signal_aborts transport_stops deadline_rings stream_ends : CallEvent

module _ (one : ℕ) (policy : Option RetryPolicy) (throttle : Option Throttling)
    (timeout : Option ℕ) where
  -- The `catch` of an attempt.
  unfoldable pub caught : Surroundings → Failure → RetryCall → RetryCall
  caught w f c = elim c.abort [
    | some reason ↦ end_call (aborts_with reason) c
    | none ↦
        elim (decide one w.jitter policy throttle w.committed f
          (record c.locals { tokens = w.tokens })) [
            | throws tokens ↦ end_call (fails_with f) c
            | pauses delay locals ↦
                begin_pause (until_deadline delay c) (record c { locals = locals })
          ]
  ]

  -- A round of the loop, up to `await select(...)`.
  unfoldable pub begin_round : Surroundings → RetryCall → RetryCall
  unfolding caught
  begin_round w c = elim c.abort [
    | some reason ↦ end_call (aborts_with reason) c
    | none ↦ elim (remaining_time timeout c) [
      | none ↦ caught w deadline_exceeded_failure c
      | some left ↦ record c {
        phase = selecting;
        selections =
            c.selections ++ record { at = c.now; timeout = left; wait = c.locals.retrying } ∷ [];
      }
    ]
  ]

  -- Behind `await select(...)`, up to `await invoke(...)`.
  unfoldable pub invoke : Surroundings → RetryCall → RetryCall
  unfolding caught
  invoke w c = elim c.abort [
    | some reason ↦ end_call (aborts_with reason) c
    | none ↦ elim (remaining_time timeout c) [
      | none ↦ caught w deadline_exceeded_failure c
      | some left ↦ record c {
        phase = invoking;
        invocations =
            c.invocations
            ++ record { at = c.now; timeout = left; header = previous_header c.locals.previous }
              ∷ [];
      }
    ]
  ]

  -- `tick` of `pause`, when its timer fires, and the round behind the pause.
  unfoldable pub tick : Surroundings → ℕ → RetryCall → RetryCall
  unfolding begin_round
  tick w end c = elim c.abort [
    | some reason ↦ end_call (aborts_with reason) c
    | none ↦
        if ltb c.now end
        then record c {
          phase = pausing end (record { set_at = c.now; delay = min (end - c.now) max_timeout });
        }
        else begin_round w c
  ]

  -- `abort.abort(reason)`: the first one counts, and a pause rejects at once.
  unfoldable pub abort_call : AbortReason → RetryCall → RetryCall
  abort_call reason c = elim c.abort [
    | some first ↦ c
    | none ↦ elim c.phase [
      | pausing end t ↦ end_call (aborts_with reason) (record c { abort = some reason })
      | _ ↦ record c { abort = some reason }
    ]
  ]

  -- The event, which is skipped where it cannot happen.
  unfoldable pub call_event : Surroundings → CallEvent → RetryCall → RetryCall
  unfolding caught invoke tick abort_call
  call_event w select_resolves c = elim c.phase [ selecting ↦ invoke w c | _ ↦ c ]
  call_event w (select_rejects f) c = elim c.phase [ selecting ↦ caught w f c | _ ↦ c ]
  call_event w (invoke_resolves true) c = elim c.phase [
    | invoking ↦ record c { phase = ended (returns true) }
    | _ ↦ c
  ]
  call_event w (invoke_resolves false) c = elim c.phase [
    | invoking ↦ end_call (returns false) c
    | _ ↦ c
  ]
  call_event w (invoke_rejects f) c = elim c.phase [ invoking ↦ caught w f c | _ ↦ c ]
  call_event w pause_ticks c = elim c.phase [
    | pausing end t ↦ if is_due c.now t then tick w end c else c
    | _ ↦ c
  ]
  call_event w signal_aborts c = if c.listening then abort_call call_canceled c else c
  call_event w transport_stops c = if c.listening then abort_call channel_stopped c else c
  call_event w deadline_rings c = elim c.deadline_timer [
    | none ↦ c
    | some t ↦
        if is_due c.now t
        then abort_call deadline_passed (record c { deadline_timer = none })
        else c
  ]
  call_event w stream_ends c = elim c.phase [ ended (returns true) ↦ cleanup c | _ ↦ c ]

  -- The clock goes on, then the event happens.
  abbrev pub call_step : Surroundings → CallEvent → RetryCall → RetryCall
  call_step w e c = call_event w e (record c { now = c.now + w.elapsed })

  unfoldable pub call_steps : List (Surroundings × CallEvent) → RetryCall → RetryCall
  unfolding call_event
  call_steps [] c = c
  call_steps ((w, e) ∷ es) c = call_steps es (call_step w e c)

  -- `timeout !== undefined && timeout > 0 ? performance.now() + timeout : Infinity`.
  abbrev pub call_deadline : Option ℕ
  call_deadline = elim timeout [ none ↦ none | some ms ↦ if ltb 0 ms then some ms else none ]

  -- `if (signal?.aborted) cancel(); if (stopped.aborted) shutdown();`.
  abbrev pub already_aborted : Bool → Bool → Option AbortReason
  already_aborted signal_aborted stopped_aborted =
      if signal_aborted
      then some call_canceled
      else if stopped_aborted
      then some channel_stopped
      else none

  -- `run`, before its first round.
  abbrev pub new_call : Surroundings → Bool → Bool → RetryCall
  new_call w signal_aborted stopped_aborted = record {
    now = 0;
    deadline = call_deadline;
    abort = already_aborted signal_aborted stopped_aborted;
    deadline_timer = (elim call_deadline [
      | none ↦ none
      | some deadline ↦ some (record { set_at = 0; delay = deadline })
    ]);
    listening = true;
    phase = selecting;
    locals = first_attempt one w.jitter policy throttle w.tokens;
    selections = [];
    invocations = [];
  }

  -- `run`, up to its first `await`.
  unfoldable pub begin_call : Surroundings → Bool → Bool → RetryCall
  unfolding begin_round
  begin_call w signal_aborted stopped_aborted =
      begin_round w (new_call w signal_aborted stopped_aborted)
