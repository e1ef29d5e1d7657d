-- ===== src/Recovery/Steps.antt =====
-- web/src/recovery.ts: what may happen to a `RecoveringConnection`, one event after the other. An
-- event is what runs between two `await`s; its Boolean says whether a listener that it tells calls
-- `close()`.
use grpc_bridge.Prelude.{
  ℕ, suc, ◌+◌, ◌-◌, ◌*◌, ◌/◌, min, Bool, true, false, not, ◌||◌, Option, none, some, List, [], ◌∷◌,
  ◌++◌, ◌==◌, if◌then◌else◌,
}
use grpc_bridge.Recovery.State.{
  RecoveringConnection, ChannelState, connecting, open_state, transient_failure, closed_state,
  Reason, error_reason, local, Initial, undecided, first_ready, first_failure, initial_delay,
  delay_cap, run_checks, Call, Calls, canceled, deadline_exceeded, select, take_call, reject_call,
  go_on,
}

-- The first settlement of a promise counts.
abbrev pub settle_initial : Initial → Initial → Initial
settle_initial undecided new = new
settle_initial old new = old

-- `emit`, with listeners that only look on.
unfoldable pub tell : ChannelState → Option Reason → RecoveringConnection → RecoveringConnection
unfolding run_checks
tell state reason c = record c {
  state = state;
  calls = run_checks state c.session c.calls;
  emitted = c.emitted ++ (state, reason) ∷ [];
}

abbrev pub session_list : Option ℕ → List ℕ
session_list none = []
session_list (some id) = id ∷ []

abbrev pub stopped_by_close : RecoveringConnection → RecoveringConnection
stopped_by_close c = record c {
  stopped = true;
  timer = none;
  session = none;
  initial = settle_initial c.initial first_failure;
  told_to_close = c.told_to_close ++ session_list c.session ++ c.draining;
}

-- `close`, up to its `await`.
unfoldable pub close_channel : RecoveringConnection → RecoveringConnection
unfolding tell
close_channel c = if c.stopped then c else tell closed_state (some local) (stopped_by_close c)

-- `emit`; the listeners run last, and it is the last of them that may close the channel.
unfoldable pub emit :
    Bool → ChannelState → Option Reason → RecoveringConnection → RecoveringConnection
unfolding tell close_channel
emit closes state reason c = let c1 = tell state reason c in if closes then close_channel c1 else c1

-- `connect`, up to its `await`.
unfoldable pub connect : Bool → RecoveringConnection → RecoveringConnection
unfolding emit
connect closes c =
    let c1 = emit closes connecting none c in
    if c1.stopped
    then record c1 { initial = settle_initial c1.initial first_failure }
    else record c1 { dialing = suc c1.dialing }

-- The scale of `Math.random()`.
abbrev pub random_scale : ℕ
random_scale = 9007199254740992

-- `delay * (0.8 + random * 0.4)`, rounded down.
abbrev pub jittered : ℕ → ℕ → ℕ
jittered delay random = delay * (8 * random_scale + 4 * random) / (10 * random_scale)

-- `Math.min(delay * 1.6, 30000)`.
abbrev pub next_delay : ℕ → ℕ
next_delay delay = min (delay * 8 / 5) delay_cap

abbrev pub armed : ℕ → RecoveringConnection → RecoveringConnection
armed random c = record c { timer = some (jittered c.delay random); delay = next_delay c.delay }

unfoldable pub retry : Bool → ℕ → Reason → RecoveringConnection → RecoveringConnection
unfolding emit
retry closes random reason c =
    let c1 = emit closes transient_failure (some reason) c in
    if c1.stopped then c1 else armed random c1

-- The task that the constructor queues.
unfoldable pub start : Bool → RecoveringConnection → RecoveringConnection
unfolding connect
start closes c =
    let c1 : RecoveringConnection = record c { unstarted = false } in
    if not c.unstarted || c.stopped then c1 else connect closes c1

-- A session that is used.
abbrev pub adopted : RecoveringConnection → RecoveringConnection
adopted c = record c {
  session = some c.next_session;
  delay = initial_delay;
  next_session = suc c.next_session;
}

abbrev pub refused_session : RecoveringConnection → RecoveringConnection
refused_session c = record c {
  told_to_close = c.told_to_close ++ c.next_session ∷ [];
  next_session = suc c.next_session;
}

abbrev pub first_is_ready : RecoveringConnection → RecoveringConnection
first_is_ready c = record c { initial = settle_initial c.initial first_ready }

-- `connect`, behind its `await`: the dial gave a session.
unfoldable pub dial_succeeds : Bool → RecoveringConnection → RecoveringConnection
unfolding emit
dial_succeeds closes c =
    let c1 : RecoveringConnection = record c { dialing = c.dialing - 1 } in
    if c.dialing == 0
    then c
    else if c.stopped
    then refused_session c1
    else first_is_ready (emit closes open_state none (adopted c1))

-- The same for a dial that failed.
unfoldable pub dial_fails : Bool → ℕ → RecoveringConnection → RecoveringConnection
unfolding retry
dial_fails closes random c =
    let c1 : RecoveringConnection = record c {
      dialing = c.dialing - 1;
      initial = settle_initial c.initial first_failure;
    } in
    if c.dialing == 0 then c else if c.stopped then c1 else retry closes random error_reason c1

abbrev pub is_session : ℕ → Option ℕ → Bool
is_session id none = false
is_session id (some k) = k == id

unfoldable pub lost : Bool → ℕ → ℕ → Reason → RecoveringConnection → RecoveringConnection
unfolding retry
lost closes random id reason c =
    if c.stopped || not (is_session id c.session)
    then c
    else retry closes random reason (record c { session = none })

-- `draining.delete(session)`.
unfoldable pub remove_session : ℕ → List ℕ → List ℕ
remove_session id [] = []
remove_session id (k ∷ ks) =
    let behind = remove_session id ks in if k == id then behind else k ∷ behind

-- The promise `closed` of a session is settled.
unfoldable pub session_closes : Bool → ℕ → ℕ → Reason → RecoveringConnection → RecoveringConnection
unfolding lost remove_session
session_closes closes random id reason c =
    let c1 = lost closes random id reason c in
    record c1 { draining = remove_session id c1.draining; ended = c1.ended ++ id ∷ [] }

-- The promise `draining` of a session is settled.
unfoldable pub session_drains : Bool → ℕ → RecoveringConnection → RecoveringConnection
unfolding connect
session_drains closes id c =
    if c.stopped || not (is_session id c.session)
    then c
    else connect closes (record c { session = none; draining = c.draining ++ id ∷ [] })

unfoldable pub timer_fires : Bool → RecoveringConnection → RecoveringConnection
unfolding connect
timer_fires closes c = elim c.timer [
  | none ↦ c
  | some t ↦ connect closes (record c { timer = none })
]

-- A call's timer is set for a timeout that is not zero.
abbrev pub has_timer : Option ℕ → Bool
has_timer none = false
has_timer (some timeout) = not (timeout == 0)

unfoldable pub expire : ℕ → Calls → Calls
unfolding reject_call take_call
expire ticket calls = elim (take_call ticket calls.changes) [
  | none ↦ calls
  | some (call, left) ↦
      if has_timer call.timeout_ms then reject_call ticket deadline_exceeded calls else calls
]

-- `close`, behind its `await`; the sessions' own closing may have thrown.
unfoldable pub close_ends : Bool → RecoveringConnection → RecoveringConnection
close_ends thrown c =
    if not c.stopped
    then c
    else if thrown
    then record c { finished = true }
    else record c { finished = true; draining = [] }

pub data Happening : Type 0 where
  starts timer_goes_off dialed : Bool → Happening
  dial_failed : Bool → ℕ → Happening
  session_closed : Bool → ℕ → ℕ → Reason → Happening
  session_draining : Bool → ℕ → Happening
  selects : Call → Bool → Happening
  call_aborts call_expires : ℕ → Happening
  call_goes_on : ℕ → ℕ → Bool → Happening
  closes_channel : Happening
  close_settles : Bool → Happening

unfoldable pub take_place : Happening → RecoveringConnection → RecoveringConnection
unfolding start timer_fires dial_succeeds dial_fails session_closes session_drains select
    reject_call expire go_on close_channel close_ends
take_place (starts closes) c = start closes c
take_place (timer_goes_off closes) c = timer_fires closes c
take_place (dialed closes) c = dial_succeeds closes c
take_place (dial_failed closes random) c = dial_fails closes random c
take_place (session_closed closes random id reason) c = session_closes closes random id reason c
take_place (session_draining closes id) c = session_drains closes id c
take_place (selects call aborted) c = select call aborted c
take_place (call_aborts ticket) c = record c { calls = reject_call ticket canceled c.calls }
take_place (call_expires ticket) c = record c { calls = expire ticket c.calls }
take_place (call_goes_on ticket now aborted) c = go_on ticket now aborted c
take_place closes_channel c = close_channel c
take_place (close_settles thrown) c = close_ends thrown c

unfoldable pub take_all : List Happening → RecoveringConnection → RecoveringConnection
unfolding take_place
take_all [] c = c
take_all (h ∷ hs) c = take_all hs (take_place h c)
