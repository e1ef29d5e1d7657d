-- ===== src/Recovery/Rest/Checks.antt =====
-- web/src/recovery.ts: the checks leave waiting only the calls that have to wait.
use mathlib.Core.Path.{subst}
use grpc_bridge.Prelude.{
  ℕ, ◌≤◌, ◌≡◌, refl, Bool, Option, none, some, List, [], ◌∷◌, ◌++◌, ◌==◌, if_case, option_case, All,
}
use grpc_bridge.Errors.{Error}
use grpc_bridge.Recovery.State.{
  ChannelState, Reason, Call, Calls, RecoveringConnection, deadline_exceeded, Verdict, verdict,
  settle, check_call, check_calls, run_checks, select, take_call, reject_call, go_on, closed_state,
  local, waits, passes, fails,
}
use grpc_bridge.Recovery.Steps.{tell, stopped_by_close, close_channel, expire, has_timer}
use grpc_bridge.Recovery.Rest.{under_way, Shape, Held, Rests, few, verdict-Held}

-- The checks.
All-snoc : (P : Call → Type 0) (xs : List Call) (x : Call) → All P xs → P x → All P (xs ++ x ∷ [])
All-snoc P [] x h hx = (hx, tt)
All-snoc P (y ∷ ys) x (h, hs) hx = (h, All-snoc P ys x hs hx)

-- What the channel is at.
module _ (state : ChannelState) (session t : Option ℕ) (n : ℕ) (b : Bool)
    (shape : Shape state session t n b) where
  settle-Held :
      (call : Call) (calls : Calls) (v : Verdict)
      → verdict state session call.wait ≡ v
      → All (Held state) calls.changes
      → All (Held state) (settle v call calls).changes
  settle-Held call calls waits e h =
      All-snoc (Held state) calls.changes call h (verdict-Held state session t n b call shape e)
  settle-Held call calls passes e h = h
  settle-Held call calls fails e h = h

  pub check_call-Held :
      (call : Call) (calls : Calls)
      → All (Held state) calls.changes
      → All (Held state) (check_call state session call calls).changes
  unfolding check_call
  check_call-Held call calls h = settle-Held call calls _ refl h

  pub check_calls-Held :
      (waiting : List Call) (calls : Calls)
      → All (Held state) calls.changes
      → All (Held state) (check_calls state session waiting calls).changes
  unfolding check_calls
  check_calls-Held [] calls h = h
  check_calls-Held (call ∷ waiting) calls h =
      check_calls-Held waiting (check_call state session call calls) (check_call-Held call calls h)

pub tell-Rests :
    (state : ChannelState) (reason : Option Reason) (c : RecoveringConnection)
    → Shape state c.session c.timer (under_way c.unstarted c.dialing) c.stopped
    → Rests (tell state reason c)
unfolding tell run_checks
tell-Rests state reason c h =
    (h, check_calls-Held state c.session c.timer _ c.stopped h c.calls.changes _ tt)

pub closes-Rests :
    (c : RecoveringConnection)
    → under_way c.unstarted c.dialing ≤ 1
    → Rests (tell closed_state (some local) (stopped_by_close c))
closes-Rests c h = tell-Rests closed_state (some local) (stopped_by_close c) (refl, refl, h, refl)

pub close_channel-Rests : (c : RecoveringConnection) → Rests c → Rests (close_channel c)
unfolding close_channel
close_channel-Rests c (h, held) =
    if_case Rests c.stopped c _ (λ e. (h, held))
      (λ e. closes-Rests c (few c.state c.session c.timer _ c.stopped h))

-- What is left when a call is taken out.
abbrev Left : (Call → Type 0) → Option (Call × List Call) → Type 0
Left P none = Unit
Left P (some (call, left)) = All P left

behind_call :
    (P : Call → Type 0) (x : Call) (o : Option (Call × List Call))
    → P x
    → Left P o
    → Left P (elim o [ none ↦ none | some (y, ys) ↦ some (y, x ∷ ys) ])
behind_call P x none hx h = tt
behind_call P x (some (y, ys)) hx h = (hx, h)

take_call-Left :
    (P : Call → Type 0) (ticket : ℕ) (xs : List Call) → All P xs → Left P (take_call ticket xs)
unfolding take_call
take_call-Left P ticket [] h = tt
take_call-Left P ticket (x ∷ xs) (h, hs) =
    if_case (Left P) (x.ticket == ticket) _ _ (λ e. hs)
      (λ e. behind_call P x (take_call ticket xs) h (take_call-Left P ticket xs hs))

module _ (state : ChannelState) where
  abbrev AllHeld : Calls → Type 0
  AllHeld calls = All (Held state) calls.changes

  pub reject_call-Held :
      (ticket : ℕ) (e : Error) (calls : Calls)
      → AllHeld calls
      → AllHeld (reject_call ticket e calls)
  unfolding reject_call
  reject_call-Held ticket e calls h =
      option_case AllHeld (take_call ticket calls.changes) calls _ (λ e'. h)
        (λ (call, left) e'.
          subst (Left (Held state)) e' (take_call-Left (Held state) ticket calls.changes h))

  pub expire-Held : (ticket : ℕ) (calls : Calls) → AllHeld calls → AllHeld (expire ticket calls)
  unfolding expire
  expire-Held ticket calls h =
      option_case AllHeld (take_call ticket calls.changes) calls _ (λ e. h)
        (λ (call, left) e.
          if_case AllHeld (has_timer call.timeout_ms) _ _
            (λ e'. reject_call-Held ticket deadline_exceeded calls h) (λ e'. h))

pub select-Rests :
    (call : Call) (aborted : Bool) (c : RecoveringConnection)
    → Rests c
    → Rests (select call aborted c)
unfolding select
select-Rests call aborted c (h, held) =
    if_case Rests aborted _ _ (λ e. (h, held))
      (λ e. (h, check_call-Held c.state c.session c.timer _ c.stopped h call c.calls held))

pub go_on-Rests :
    (ticket now : ℕ) (aborted : Bool) (c : RecoveringConnection)
    → Rests c
    → Rests (go_on ticket now aborted c)
unfolding go_on
go_on-Rests ticket now aborted c h =
    option_case Rests (take_call ticket c.calls.passed) _ _ (λ e. h) (λ (call, left) e. h)
