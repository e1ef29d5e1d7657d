-- ===== src/Recovery/Rest/Changes.antt =====
-- web/src/recovery.ts: a change of the state, with listeners that may close the channel.
use grpc_bridge.Prelude.{
  ℕ, suc, ◌≡◌, refl, Bool, true, false, Option, none, some, if◌then◌else◌, if_case, arith,
}
use grpc_bridge.Recovery.State.{
  ChannelState, Reason, RecoveringConnection, connecting, open_state, transient_failure,
  closed_state, local, first_failure,
}
use grpc_bridge.Recovery.Steps.{
  settle_initial, tell, stopped_by_close, close_channel, emit, connect, armed, retry, adopted,
  first_is_ready,
}
use grpc_bridge.Recovery.Rest.{under_way, Rests}
use grpc_bridge.Recovery.Rest.Checks.{check_calls-Held, tell-Rests, closes-Rests}

-- What holds of the channel behind `emit`, whether or not a listener has closed it.
emitted_case :
    (Q : RecoveringConnection → Type 0) (closes : Bool) (state : ChannelState)
    (reason : Option Reason) (c : RecoveringConnection)
    → c.stopped ≡ false
    → Q (tell state reason c)
    → Q (tell closed_state (some local) (stopped_by_close (tell state reason c)))
    → Q (emit closes state reason c)
unfolding emit close_channel tell
emitted_case Q false state reason c live h hc = h
emitted_case Q true state reason c live h hc =
    if_case Q c.stopped _ _ (λ e. absurd (ground arith)) (λ e. hc)

-- The channel that a change finds without a session, a timer or an attempt.
module _ (c : RecoveringConnection) (live : c.stopped ≡ false) where
  module _ (no_start : c.unstarted ≡ false) (no_dial : c.dialing ≡ 0) where
    no_attempt : under_way c.unstarted c.dialing ≡ 0
    no_attempt = rw (no_start, no_dial) refl

    closed_Rests :
        (state : ChannelState) (reason : Option Reason)
        → Rests (tell closed_state (some local) (stopped_by_close (tell state reason c)))
    unfolding tell
    closed_Rests state reason = closes-Rests (tell state reason c) (omega (arith, no_attempt))

    pub connect-Rests :
        (closes : Bool) → c.session ≡ none → c.timer ≡ none → Rests (connect closes c)
    unfolding connect tell
    connect-Rests closes no_session no_timer =
        emitted_case
          (λ (c1 : RecoveringConnection). Rests (
            if c1.stopped
            then record c1 { initial = settle_initial c1.initial first_failure }
            else record c1 { dialing = suc c1.dialing }))
          closes connecting none c live
          (if_case Rests c.stopped _ _ (λ e. absurd (ground arith))
            (λ e. (
              (no_session, no_timer, rw (no_start, no_dial) refl, live),
              check_calls-Held connecting c.session none 1 false (no_session, refl, refl, refl)
                  c.calls.changes _ tt,
            )))
          (closed_Rests connecting none)

    pub retry-Rests :
        (closes : Bool) (random : ℕ) (reason : Reason)
        → c.session ≡ none
        → Rests (retry closes random reason c)
    unfolding retry tell
    retry-Rests closes random reason no_session =
        emitted_case
          (λ (c1 : RecoveringConnection). Rests (if c1.stopped then c1 else armed random c1)) closes
          transient_failure (some reason) c live
          (if_case Rests c.stopped _ _ (λ e. absurd (ground arith))
            (λ e. (
              (no_session, (_, refl), no_attempt, live),
              check_calls-Held transient_failure c.session (some 0) 0 false
                  (no_session, (0, refl), refl, refl) c.calls.changes _ tt,
            )))
          (closed_Rests transient_failure (some reason))

    pub adopted-Rests :
        (closes : Bool)
        → c.timer ≡ none
        → Rests (first_is_ready (emit closes open_state none (adopted c)))
    unfolding tell
    adopted-Rests closes no_timer =
        emitted_case (λ (c1 : RecoveringConnection). Rests (first_is_ready c1)) closes open_state
          none (adopted c) live
          (tell-Rests open_state none (adopted c) ((_, refl), no_timer, no_attempt, live))
          (closes-Rests (tell open_state none (adopted c)) (omega (arith, no_attempt)))
