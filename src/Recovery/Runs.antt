-- ===== src/Recovery/Runs.antt =====
-- Runs of the channel: a session that drains while the next one is dialed, and a listener that closes.
use grpc_bridge.Prelude.{◌≡◌, refl, true, false, ◌||◌, none, some, List, [], ◌∷◌, arith}
use grpc_bridge.Recovery.State.{Call, recovering, rejected, unavailable, transport_of, remote}
use grpc_bridge.Recovery.Steps.{
  Happening, take_all, starts, timer_goes_off, dialed, dial_failed, session_closed,
  session_draining, selects, call_goes_on, closes_channel,
}
use grpc_bridge.Recovery.Rest.{Rests}
use grpc_bridge.Recovery.Rest.Events.{take_all-Rests, recovering-Rests}
use grpc_bridge.Recovery.Sessions.{is_in}
use grpc_bridge.Recovery.Sessions.Events.{take_all_closed}
use grpc_bridge.Recovery.Backoff.{Paced, take_all-Paced}

abbrev patient : Call
patient = record { ticket = 7; timeout_ms = some 5000; started = 100; wait = true }

abbrev hasty : Call
hasty = record { ticket = 8; timeout_ms = none; started = 100; wait = false }

-- The first dial fails, the second gives a session, which drains; the third is under way when the
-- channel is closed, and gives a session then.
abbrev eventful : List Happening
eventful =
    starts false
    ∷ selects patient false
    ∷ selects hasty false
    ∷ dial_failed false 4503599627370496
    ∷ timer_goes_off false
    ∷ dialed false
    ∷ call_goes_on 7 1200 false
    ∷ session_draining false 0
    ∷ closes_channel
    ∷ dialed false
    ∷ []

-- The patient call gets the session, the other one fails with the dial.
eventful_run :
    (take_all eventful recovering).calls.results
    ≡ (8, rejected unavailable) ∷ (7, transport_of 0 (some 3900)) ∷ []
unfolding take_all
eventful_run = refl

-- A listener that closes the channel when it is told of a failure: no timer is set.
closing_run : (take_all (starts false ∷ dial_failed true 0 ∷ []) recovering).timer ≡ none
unfolding take_all
closing_run = refl

-- A call that wants to wait is rejected when its session is lost before it goes on.
overtaken_run :
    (take_all
      (starts false
        ∷ selects patient false
        ∷ dialed false
        ∷ session_closed false 0 0 remote
        ∷ call_goes_on 7 1200 false
        ∷ [])
      recovering).calls.results
    ≡ (7, rejected unavailable) ∷ []
unfolding take_all
overtaken_run = refl

take_all-Rests_example : Rests (take_all eventful recovering)
take_all-Rests_example = take_all-Rests eventful recovering recovering-Rests

take_all_closed_example :
    (is_in 1 (take_all eventful recovering).ended
      || is_in 1 (take_all eventful recovering).told_to_close)
    ≡ true
unfolding take_all
take_all_closed_example = take_all_closed eventful 1 refl (omega arith)

take_all-Paced_example : Paced (take_all eventful recovering)
unfolding take_all
take_all-Paced_example =
    take_all-Paced eventful recovering
      (tt, (tt, (tt, (omega arith, (tt, (tt, (tt, (tt, (tt, (tt, tt))))))))))
      (omega arith, omega arith, tt)
