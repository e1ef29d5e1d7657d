-- ===== src/Retry/Decide.antt =====
-- web/src/retry.ts: what the loop of `RetryingTransport.run` does about a failed attempt, from the
-- `catch` on. `jitter` gives the delay that a random number makes of a backoff.
pub mod Bounds
use grpc_bridge.Prelude.{
  ℕ, zero, suc, ◌+◌, ◌-◌, ◌*◌, ◌≤◌, ◌<◌, ◌≡◌, refl, min, Bool, true, false, not, ◌&&◌, ◌||◌, Option,
  none, some, List, [], ◌∷◌, length, ltb, leb, ◌==◌, if◌then◌else◌,
}
use grpc_bridge.Errors.{Retry, unsent, refused}
use grpc_bridge.Text.{Text}
use grpc_bridge.Retry.Policy.{RetryPolicy, Throttling, includes, failure, throttled}

-- What the failure carries: the evidence and `committed` of `attemptError`, the code of a
-- ConnectError, and its "grpc-retry-pushback-ms".
pub record Failure : Type 0 where
  pub evidence : Option Retry
  pub committed : Bool
  pub code : Option ℕ
  pub pushback : Option Text

-- The locals of the loop, with the transport's tokens; calls that run beside this one, which may
-- change the tokens between its attempts, are left out.
pub record Attempts : Type 0 where
  pub previous : ℕ
  pub refused_before : Bool
  pub retrying : Bool
  pub backoff : ℕ
  pub tokens : ℕ

pub data Decision : Type 0 where
  throws : ℕ → Decision  -- the tokens behind it
  pauses : ℕ → Attempts → Decision  -- the delay, and the locals of the next round

-- `evidence === "unsent" || (evidence === "refused" && !refused)`.
abbrev pub is_transparent : Option Retry → Bool → Bool
is_transparent none before = false
is_transparent (some unsent) before = true
is_transparent (some refused) before = not before

abbrev pub is_refused : Option Retry → Bool
is_refused (some refused) = true
is_refused _ = false

-- `Number(pushback)`, where it is digits only and a safe integer.
unfoldable pub digits : Option ℕ → Text → Option ℕ
digits value [] = value
digits value (u ∷ s) = elim (leb 48 u && leb u 57) [
  | false ↦ none
  | true ↦ elim value [
    | none ↦ digits (some (u - 48)) s
    | some n ↦ digits (some (n * 10 + (u - 48))) s
  ]
]

unfoldable pub pushback_ms : Text → Option ℕ
unfolding digits
pushback_ms s = elim (digits none s) [
  | none ↦ none
  | some n ↦ if leb n 9007199254740991 then some n else none
]

module _ (one : ℕ) (jitter : ℕ → ℕ) (policy : Option RetryPolicy)
    (throttle : Option Throttling) where
  -- From the pushback on: a configured retry.
  unfoldable pub back_off : RetryPolicy → Option Text → Attempts → Decision
  unfolding pushback_ms
  back_off p (some header) s = elim (pushback_ms header) [
    | none ↦ throws s.tokens
    | some ms ↦
        pauses ms
          (record s { previous = suc s.previous; retrying = true; backoff = p.initial_backoff_ms })
  ]
  back_off p none s = pauses (jitter s.backoff) (record s {
    previous = suc s.previous;
    retrying = true;
    backoff = min p.max_backoff_ms (s.backoff * p.backoff_multiplier);
  })

  -- Behind the transparent case.
  unfoldable pub configured : Failure → Attempts → Decision
  unfolding back_off
  configured f s = elim policy [
    | none ↦ throws s.tokens
    | some p ↦ elim f.code [
      | none ↦ throws s.tokens
      | some code ↦
          if not (includes p.retryable_status_codes code)
          then throws s.tokens
          else if leb p.max_attempts (s.previous + 1) || throttled throttle s.tokens
          then throws s.tokens
          else back_off p f.pushback s
    ]
  ]

  -- The whole `catch`, while the call is not aborted; `committed` is that of the replay.
  unfoldable pub decide : Bool → Failure → Attempts → Decision
  unfolding configured
  decide committed f s =
      let transparent = is_transparent f.evidence s.refused_before in
      let s1 : Attempts =
        if transparent
        then s
        else record s { tokens = failure one throttle policy f.code s.tokens } in
      if committed || f.committed
      then throws s1.tokens
      else if transparent
      then pauses 0 (record s1 {
        refused_before = s1.refused_before || is_refused f.evidence;
        retrying = true;
      })
      else configured f s1

  -- The initial locals.
  abbrev pub first_attempt : ℕ → Attempts
  first_attempt tokens = record {
    previous = 0;
    refused_before = false;
    retrying = false;
    backoff = (elim policy [ none ↦ 0 | some p ↦ p.initial_backoff_ms ]);
    tokens = tokens;
  }

  -- A sequence of failed attempts: the locals behind it, or `none` once the call has thrown.
  unfoldable pub attempts : Attempts → List (Bool × Failure) → Option Attempts
  unfolding decide
  attempts s [] = some s
  attempts s ((committed, f) ∷ fs) = elim (decide committed f s) [
    | throws tokens ↦ none
    | pauses delay s1 ↦ attempts s1 fs
  ]
