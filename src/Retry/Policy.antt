-- ===== src/Retry/Policy.antt =====
-- web/src/retry.ts: the policy of a method, and the throttle that all calls of a transport share. The
-- model is about policies whose numbers are whole; tokens are counted in parts of which `one` make a
-- token, so that a ratio may be a fraction.
use grpc_bridge.Prelude.{
  ℕ, ◌+◌, ◌-◌, ◌*◌, min, Bool, false, ◌||◌, Option, none, some, List, [], ◌∷◌, leb, ◌==◌,
  if◌then◌else◌,
}

pub record RetryPolicy : Type 0 where
  pub max_attempts : ℕ
  pub initial_backoff_ms : ℕ
  pub max_backoff_ms : ℕ
  pub backoff_multiplier : ℕ
  pub retryable_status_codes : List ℕ

unfoldable pub includes : List ℕ → ℕ → Bool
includes [] code = false
includes (x ∷ xs) code = x == code || includes xs code

pub record Throttling : Type 0 where
  pub max_tokens : ℕ
  pub token_ratio : ℕ

-- `success`: the tokens behind a call that ended well.
unfoldable pub success : Option Throttling → ℕ → ℕ
success none tokens = tokens
success (some t) tokens = min t.max_tokens (tokens + t.token_ratio)

-- `failure`: a failure with a retryable code costs a token; `code` is that of a ConnectError.
unfoldable pub failure : ℕ → Option Throttling → Option RetryPolicy → Option ℕ → ℕ → ℕ
failure one (some t) (some policy) (some code) tokens =
    if includes policy.retryable_status_codes code then tokens - one else tokens
failure one _ _ _ tokens = tokens

-- `throttle && this.tokens <= throttle.maxTokens / 2`.
abbrev pub throttled : Option Throttling → ℕ → Bool
throttled none tokens = false
throttled (some t) tokens = leb (2 * tokens) t.max_tokens
