-- ===== src/Recovery/Rest.antt =====
-- web/src/recovery.ts: what is true of the channel between two events.
mod Checks
mod Changes
pub mod Events
use mathlib.Core.Path.{subst}
use grpc_bridge.Prelude.{
  ℕ, zero, suc, ◌+◌, ◌-◌, ◌≤◌, ◌<◌, ◌≡◌, ◌≢◌, refl, sym, ap, ◌∙◌, ◌⊎◌, inl, inr, Bool, true, false,
  not, ◌&&◌, ◌||◌, Option, none, some, List, [], ◌∷◌, ◌++◌, ◌==◌, if◌then◌else◌, if_case,
  option_case, Bool-cases, arith, All,
}
use grpc_bridge.Errors.{Error}
use grpc_bridge.Recovery.State.{
  ChannelState, Reason, Call, Selected, Calls, Initial, RecoveringConnection, initial_delay,
  delay_cap, recovering, canceled, deadline_exceeded, unavailable, Verdict, verdict, settle,
  check_call, check_calls, run_checks, select, take_call, reject_call, remaining, outcome, go_on,
  connecting, open_state, transient_failure, closed_state, remote, error_reason, local,
  transport_of, rejected, undecided, first_ready, first_failure, waits, passes, fails,
}
use grpc_bridge.Recovery.Steps.{
  settle_initial, tell, session_list, stopped_by_close, close_channel, emit, connect, random_scale,
  jittered, next_delay, armed, retry, start, adopted, refused_session, first_is_ready,
  dial_succeeds, dial_fails, is_session, lost, remove_session, session_closes, session_drains,
  timer_fires, expire, has_timer, close_ends, Happening, take_place, take_all, starts,
  timer_goes_off, dialed, dial_failed, session_closed, session_draining, selects, call_aborts,
  call_expires, call_goes_on, closes_channel, close_settles,
}

-- The attempts to get a session that are under way.
abbrev pub under_way : Bool → ℕ → ℕ
under_way true n = suc n
under_way false n = n

-- What each state of the channel stands for: its session, its timer, the attempts that are under
-- way, and whether it was stopped.
abbrev pub Shape : ChannelState → Option ℕ → Option ℕ → ℕ → Bool → Type 0
Shape connecting session timer n stopped =
    (session ≡ none) × (timer ≡ none) × (n ≡ 1) × (stopped ≡ false)
Shape open_state session timer n stopped =
    ((id : ℕ) × (session ≡ some id)) × (timer ≡ none) × (n ≡ 0) × (stopped ≡ false)
Shape transient_failure session timer n stopped =
    (session ≡ none) × ((t : ℕ) × (timer ≡ some t)) × (n ≡ 0) × (stopped ≡ false)
Shape closed_state session timer n stopped =
    (session ≡ none) × (timer ≡ none) × (n ≤ 1) × (stopped ≡ true)

-- The calls that may wait: any call while the channel is connecting, and one that asked to wait while
-- it is in its backoff. None does on a session or on a closed channel.
abbrev pub Held : ChannelState → Call → Type 0
Held connecting call = Unit
Held open_state call = ⊥
Held transient_failure call = call.wait ≡ true
Held closed_state call = ⊥

abbrev pub Rests : RecoveringConnection → Type 0
Rests c =
    Shape c.state c.session c.timer (under_way c.unstarted c.dialing) c.stopped
    × All (Held c.state) c.calls.changes

-- What the shapes imply.
pub few : (state : ChannelState) (s t : Option ℕ) (n : ℕ) (b : Bool) → Shape state s t n b → n ≤ 1
few connecting s t n b (hs, ht, hn, hb) = omega (arith, hn)
few open_state s t n b (hs, ht, hn, hb) = omega (arith, hn)
few transient_failure s t n b (hs, ht, hn, hb) = omega (arith, hn)
few closed_state s t n b (hs, ht, hn, hb) = hn

pub trying :
    (state : ChannelState) (s t : Option ℕ) (n : ℕ) (b : Bool)
    → Shape state s t n b
    → 0 < n
    → (s ≡ none) × (t ≡ none) × (n ≡ 1)
trying connecting s t n b (hs, ht, hn, hb) positive = (hs, ht, hn)
trying open_state s t n b (hs, ht, hn, hb) positive = absurd (omega (arith, hn, positive))
trying transient_failure s t n b (hs, ht, hn, hb) positive = absurd (omega (arith, hn, positive))
trying closed_state s t n b (hs, ht, hn, hb) positive = (hs, ht, omega (arith, hn, positive))

no_some : (o : Option ℕ) (k : ℕ) → o ≡ none → o ≡ some k → ⊥
no_some o k e e' = ground arith

pub in_session :
    (state : ChannelState) (s t : Option ℕ) (n : ℕ) (b : Bool) (id : ℕ)
    → Shape state s t n b
    → s ≡ some id
    → (t ≡ none) × (n ≡ 0)
in_session connecting s t n b id (hs, ht, hn, hb) e = absurd (no_some s id hs e)
in_session open_state s t n b id (hs, ht, hn, hb) e = (ht, hn)
in_session transient_failure s t n b id (hs, ht, hn, hb) e = absurd (no_some s id hs e)
in_session closed_state s t n b id (hs, ht, hn, hb) e = absurd (no_some s id hs e)

pub in_backoff :
    (state : ChannelState) (s t : Option ℕ) (n : ℕ) (b : Bool) (k : ℕ)
    → Shape state s t n b
    → t ≡ some k
    → (s ≡ none) × (n ≡ 0) × (b ≡ false)
in_backoff connecting s t n b k (hs, ht, hn, hb) e = absurd (no_some t k ht e)
in_backoff open_state s t n b k (hs, ht, hn, hb) e = absurd (no_some t k ht e)
in_backoff transient_failure s t n b k (hs, ht, hn, hb) e = (hs, hn, hb)
in_backoff closed_state s t n b k (hs, ht, hn, hb) e = absurd (no_some t k ht e)

-- A stopped channel stays as it is while attempts come to an end.
pub still_closed :
    (state : ChannelState) (s t : Option ℕ) (n m : ℕ) (b : Bool)
    → Shape state s t n b
    → b ≡ true
    → m ≤ n
    → Shape state s t m b
still_closed connecting s t n m b (hs, ht, hn, hb) e less = absurd (ground arith)
still_closed open_state s t n m b (hs, ht, hn, hb) e less = absurd (ground arith)
still_closed transient_failure s t n m b (hs, ht, hn, hb) e less = absurd (ground arith)
still_closed closed_state s t n m b (hs, ht, hn, hb) e less = (hs, ht, omega (arith, hn, less), hb)

pub idle : (b : Bool) (n : ℕ) → under_way b n ≡ 0 → (b ≡ false) × (n ≡ 0)
idle true n e = absurd (omega (arith, e))
idle false n e = (refl, e)

pub last_attempt : (b : Bool) (n : ℕ) → under_way b n ≤ 1 → n ≢ 0 → (b ≡ false) × (n ≡ 1)
last_attempt true n few some_dial = absurd (ground arith)
last_attempt false n few some_dial = (refl, ground arith)

pub fewer : (b : Bool) (n : ℕ) → under_way b (n - 1) ≤ under_way b n
fewer true n = omega arith
fewer false n = omega arith

pub unstarted_fewer : (b : Bool) (n : ℕ) → n ≤ under_way b n
unstarted_fewer true n = omega arith
unstarted_fewer false n = omega arith

-- `check` leaves waiting only what may wait.
pub verdict-Held :
    (state : ChannelState) (s t : Option ℕ) (n : ℕ) (b : Bool) (call : Call)
    → Shape state s t n b
    → verdict state s call.wait ≡ waits
    → Held state call
unfolding verdict
verdict-Held connecting s t n b call shape e = tt
verdict-Held open_state none t n b call ((id, hs), ht, hn, hb) e = absurd (no_some none id refl hs)
verdict-Held open_state (some id) t n b call shape e = absurd (ground arith)
verdict-Held transient_failure s t n b call (hs, ht, hn, hb) e = asked s call.wait hs e
  where
    asked :
        (s : Option ℕ) (wait : Bool)
        → s ≡ none
        → verdict transient_failure s wait ≡ waits
        → wait ≡ true
    asked s true hs e = refl
    asked none false hs e = absurd (ground arith)
    asked (some id) false hs e = absurd (no_some none id refl (sym hs))
verdict-Held closed_state s t n b call shape e = absurd (ground arith)
