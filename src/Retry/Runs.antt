-- ===== src/Retry/Runs.antt =====
-- Runs of the retry policy and of the replay on concrete calls.
use grpc_bridge.Prelude.{
  ℕ, ◌≤◌, ◌<◌, ◌≡◌, ◌⊎◌, refl, Bool, true, false, none, some, List, [], ◌∷◌, ◌++◌, arith,
}
use grpc_bridge.Errors.{refused}
use grpc_bridge.Retry.Policy.{RetryPolicy, failure, includes}
use grpc_bridge.Retry.Decide.{Failure, Attempts, first_attempt, attempts}
use grpc_bridge.Retry.Decide.Bounds.{counted, attempts_bounded}
use grpc_bridge.Retry.Replay.{
  Account, replay, drain, new_reader, ReplayEvent, iterates, calls, returns_at, settles, commits,
  replay_events, close_replay,
}
use grpc_bridge.Retry.Replay.Held.{Held, close_replay-Held}
use grpc_bridge.Retry.Replay.Again.{attempt-again}

abbrev pub policy : RetryPolicy
policy = record {
  max_attempts = 3;
  initial_backoff_ms = 10;
  max_backoff_ms = 100;
  backoff_multiplier = 2;
  retryable_status_codes = 14 ∷ [];
}

abbrev pub unavailable : Failure
unavailable = record { evidence = none; committed = false; code = some 14; pushback = none }

abbrev refusal : Failure
refusal = record { evidence = some refused; committed = false; code = some 14; pushback = none }

abbrev failures : List (Bool × Failure)
failures = (false, unavailable) ∷ (false, refusal) ∷ (false, unavailable) ∷ []

abbrev behind : Attempts
behind = record { previous = 2; refused_before = true; retrying = true; backoff = 40; tokens = 0 }

goes_on :
    attempts 1000
      (λ ms. ms)
      (some policy)
      none
      (first_attempt 1000 (λ ms. ms) (some policy) none 0)
      failures
    ≡ some behind
unfolding attempts includes failure
goes_on = refl

attempts_bounded_example : (counted failures ≤ 3) × (behind.previous < 3)
attempts_bounded_example =
    attempts_bounded 1000 (λ ms. ms) policy none failures 0 behind (omega arith) goes_on

abbrev account : Account
account = record { used = 0; buffer_bytes = 4194304 }

abbrev input : List (List ℕ)
input = (1 ∷ []) ∷ (2 ∷ []) ∷ (3 ∷ []) ∷ []

-- The first attempt awaits the second message when it is refused; the second attempt reads the
-- first one as it was saved and shares the read that is under way.
abbrev refused_midway : List ReplayEvent
refused_midway =
    iterates ∷ calls 0 ∷ settles ∷ calls 0 ∷ returns_at 0 ∷ iterates ∷ calls 1 ∷ calls 1 ∷ []

attempt-again_example :
    ((replay_events refused_midway ((account, replay input 262144), [])).0.1.committed ≡ true)
    ⊎ (drain 4 (replay_events refused_midway ((account, replay input 262144), [])).0 new_reader
        ≡ input)
attempt-again_example = attempt-again input account 262144 refused_midway

start-Held : Held 0 (account, replay input 262144)
start-Held = record { summed = refl; within = omega arith; accounted = refl; bounded = omega arith }

close_replay-Held_example :
    Held 0 (replay_events refused_midway ((account, replay input 262144), [])).0
    × ((close_replay (replay_events refused_midway ((account, replay input 262144), [])).0).0.used
        ≡ 0)
    × ((close_replay (replay_events refused_midway ((account, replay input 262144), [])).0).1.saved
        ≡ [])
close_replay-Held_example =
    close_replay-Held 0 ((account, replay input 262144), []) refused_midway start-Held

-- The read that the two attempts share is still under way, and the message is kept once.
shares_read :
    (replay_events (refused_midway ++ settles ∷ []) ((account, replay input 262144), [])).0.1.saved
    ≡ (1 ∷ []) ∷ (2 ∷ []) ∷ []
unfolding replay_events
shares_read = refl

-- A second attempt that has sent the first of three saved messages when the call is committed goes
-- on with what the source has: the second and the third message are not sent.
abbrev committed_midway : List ReplayEvent
committed_midway =
    iterates
    ∷ calls 0
    ∷ settles
    ∷ calls 0
    ∷ settles
    ∷ calls 0
    ∷ settles
    ∷ iterates
    ∷ calls 1
    ∷ commits
    ∷ []

skips_saved :
    drain 4
      (replay_events committed_midway ((account, replay input 262144), [])).0
      (record new_reader { index = 1 })
    ≡ []
unfolding drain replay_events
skips_saved = refl
