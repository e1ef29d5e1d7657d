-- ===== src/Recovery/State.antt =====
-- web/src/recovery.ts: the state of `RecoveringConnection`, and the calls that wait in `select`.
use grpc_bridge.Prelude.{
  ℕ, ◌-◌, Bool, true, false, Option, none, some, List, [], ◌∷◌, ◌++◌, leb, ◌==◌, if◌then◌else◌,
}
use grpc_bridge.Errors.{Error, connect_failure}

-- `BridgeConnectionState`.
pub data ChannelState : Type 0 where
  connecting open_state transient_failure closed_state : ChannelState

-- `BridgeConnectionEvent.reason`.
pub data Reason : Type 0 where
  remote error_reason local : Reason

-- A call of `select`, under a number.
pub record Call : Type 0 where
  pub ticket : ℕ
  pub timeout_ms : Option ℕ
  pub started : ℕ
  pub wait : Bool

-- What `select` comes to: a session with what is left of the timeout, or an error.
pub data Selected : Type 0 where
  transport_of : ℕ → Option ℕ → Selected
  rejected : Error → Selected

-- The calls: the ones that wait for a change, the ones whose wait is over but which have not gone
-- on yet, and the outcomes.
pub record Calls : Type 0 where
  pub changes : List Call
  pub passed : List Call
  pub results : List (ℕ × Selected)

-- The promise `initial`.
pub data Initial : Type 0 where
  undecided first_ready first_failure : Initial

-- A session is a number, the sessions are numbered in the order in which they are dialed. `delay` and
-- `timer` are in ten thousandths of a millisecond, in which the delays of the backoff are whole. The
-- fields from `unstarted` on are the model's own: whether the task that the constructor queues has
-- not run, the dials that have not ended, what the listeners were told, the number of sessions that
-- were dialed, the ones that have ended, and the ones that were told to close.
pub record RecoveringConnection : Type 0 where
  pub session : Option ℕ
  pub draining : List ℕ
  pub state : ChannelState
  pub calls : Calls
  pub stopped : Bool
  pub timer : Option ℕ
  pub delay : ℕ
  pub initial : Initial
  pub finished : Bool
  pub unstarted : Bool
  pub dialing : ℕ
  pub emitted : List (ChannelState × Option Reason)
  pub next_session : ℕ
  pub ended : List ℕ
  pub told_to_close : List ℕ

abbrev pub initial_delay : ℕ
initial_delay = 10000000

abbrev pub delay_cap : ℕ
delay_cap = 300000000

-- The constructor.
abbrev pub recovering : RecoveringConnection
recovering = record {
  session = none;
  draining = [];
  state = connecting;
  calls = record { changes = []; passed = []; results = [] };
  stopped = false;
  timer = none;
  delay = initial_delay;
  initial = undecided;
  finished = false;
  unstarted = true;
  dialing = 0;
  emitted = [];
  next_session = 0;
  ended = [];
  told_to_close = [];
}

-- The codes Canceled, DeadlineExceeded and Unavailable.
abbrev pub canceled : Error
canceled = connect_failure 1

abbrev pub deadline_exceeded : Error
deadline_exceeded = connect_failure 4

abbrev pub unavailable : Error
unavailable = connect_failure 14

-- What `check` decides about a call.
pub data Verdict : Type 0 where
  waits passes fails : Verdict

-- `check`. An aborted call has left `changes` already.
unfoldable pub verdict : ChannelState → Option ℕ → Bool → Verdict
verdict closed_state session wait = fails
verdict connecting (some id) wait = passes
verdict connecting none wait = waits
verdict open_state (some id) wait = passes
verdict open_state none wait = waits
verdict transient_failure (some id) wait = passes
verdict transient_failure none true = waits
verdict transient_failure none false = fails

abbrev pub settle : Verdict → Call → Calls → Calls
settle waits call calls = record calls { changes = calls.changes ++ call ∷ [] }
settle passes call calls = record calls { passed = calls.passed ++ call ∷ [] }
settle fails call calls = record calls {
  results = calls.results ++ (call.ticket, rejected unavailable) ∷ [];
}

unfoldable pub check_call : ChannelState → Option ℕ → Call → Calls → Calls
unfolding verdict
check_call state session call calls = settle (verdict state session call.wait) call calls

unfoldable pub check_calls : ChannelState → Option ℕ → List Call → Calls → Calls
unfolding check_call
check_calls state session [] calls = calls
check_calls state session (call ∷ waiting) calls =
    check_calls state session waiting (check_call state session call calls)

-- The checks of a change, in the order of the calls.
unfoldable pub run_checks : ChannelState → Option ℕ → Calls → Calls
unfolding check_calls
run_checks state session calls =
    check_calls state session calls.changes (record calls { changes = [] })

-- `select` of a call, up to its wait.
unfoldable pub select : Call → Bool → RecoveringConnection → RecoveringConnection
unfolding check_call
select call aborted c =
    if aborted
    then record c {
      calls = record c.calls { results = c.calls.results ++ (call.ticket, rejected canceled) ∷ [] };
    }
    else record c { calls = check_call c.state c.session call c.calls }

-- A call taken out of a list.
unfoldable pub take_call : ℕ → List Call → Option (Call × List Call)
take_call ticket [] = none
take_call ticket (x ∷ xs) =
    let behind = take_call ticket xs in
    if x.ticket == ticket
    then some (x, xs)
    else (elim behind [ none ↦ none | some (y, ys) ↦ some (y, x ∷ ys) ])

-- `done` with an error, for a call that waits: `cancel`, or its timer.
unfoldable pub reject_call : ℕ → Error → Calls → Calls
unfolding take_call
reject_call ticket e calls = elim (take_call ticket calls.changes) [
  | none ↦ calls
  | some (call, left) ↦ record calls {
    changes = left;
    results = calls.results ++ (ticket, rejected e) ∷ [];
  }
]

-- What is left of the timeout; none when it has run out.
unfoldable pub remaining : Call → ℕ → Option (Option ℕ)
remaining call now = elim call.timeout_ms [
  | none ↦ some none
  | some timeout ↦
      if timeout == 0
      then some (some timeout)
      else if leb timeout (now - call.started)
      then none
      else some (some (timeout - (now - call.started)))
]

-- `select` behind its wait.
unfoldable pub outcome : Call → ℕ → Bool → Option ℕ → Selected
unfolding remaining
outcome call now aborted session =
    if aborted then rejected canceled else (elim (remaining call now) [
      | none ↦ rejected deadline_exceeded
      | some left ↦ elim session [ none ↦ rejected unavailable | some id ↦ transport_of id left ]
    ])

unfoldable pub go_on : ℕ → ℕ → Bool → RecoveringConnection → RecoveringConnection
unfolding take_call outcome
go_on ticket now aborted c = elim (take_call ticket c.calls.passed) [
  | none ↦ c
  | some (call, left) ↦ record c {
    calls = record c.calls {
      passed = left;
      results = c.calls.results ++ (ticket, outcome call now aborted c.session) ∷ [];
    };
  }
]
