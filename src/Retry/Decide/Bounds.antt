-- ===== src/Retry/Decide/Bounds.antt =====
-- How often a call is tried.
use grpc_bridge.Prelude.{
  ℕ, suc, ◌+◌, ◌≤◌, ◌<◌, ◌≡◌, refl, Bool, true, false, not, ◌||◌, Option, none, some, List, [], ◌∷◌,
  leb, if◌then◌else◌, Bool-cases, Option-cases, ◌⊎◌, inl, inr, arith,
}
use grpc_bridge.Errors.{Retry, unsent, refused}
use grpc_bridge.Text.{Text}
use grpc_bridge.Retry.Policy.{RetryPolicy, Throttling, includes, failure, throttled}
use grpc_bridge.Retry.Decide.{
  Failure, Attempts, Decision, throws, pauses, is_transparent, is_refused, pushback_ms, back_off,
  configured, decide, first_attempt, attempts,
}

-- A failure that counts: all but the ones that say that nothing was sent.
abbrev pub counts : Option Retry → ℕ
counts (some unsent) = 0
counts _ = 1

abbrev pub counted : List (Bool × Failure) → ℕ
counted [] = 0
counted ((committed, f) ∷ fs) = counts f.evidence + counted fs

abbrev one_if : Bool → ℕ
one_if true = 1
one_if false = 0

abbrev rank : Attempts → ℕ
rank s = s.previous + one_if s.refused_before

counts_small : (evidence : Option Retry) → counts evidence ≤ 1
counts_small none = omega arith
counts_small (some unsent) = omega arith
counts_small (some refused) = omega arith

one_if_small : (b : Bool) → one_if b ≤ 1
one_if_small b = ground arith

Decision-cases :
    (d : Decision)
    → ((tokens : ℕ) × (d ≡ throws tokens)) ⊎ ((delay : ℕ) × (s1 : Attempts) × (d ≡ pauses delay s1))
Decision-cases (throws tokens) = inl (tokens, refl)
Decision-cases (pauses delay s1) = inr (delay, s1, refl)

module _ (one : ℕ) (jitter : ℕ → ℕ) (p : RetryPolicy) (throttle : Option Throttling) where
  -- What a decision to go on does: it counts the failure, and stays below the attempts allowed.
  abbrev Advances : ℕ → Attempts → Decision → Type 0
  Advances n s (throws tokens) = Unit {0}
  Advances n s (pauses delay s1) = (n + rank s ≤ rank s1) × (s1.previous < p.max_attempts)

  -- A test that throws, and goes on where it fails.
  guard-Advances :
      (n : ℕ) (s : Attempts) (b : Bool) (tokens : ℕ) (d : Decision)
      → (b ≡ false → Advances n s d)
      → Advances n s (if b then throws tokens else d)
  guard-Advances n s true tokens d h = tt
  guard-Advances n s false tokens d h = h refl

  back_off-Advances :
      (header : Option Text) (n : ℕ) (s : Attempts)
      → n ≤ 1
      → suc s.previous < p.max_attempts
      → Advances n s (back_off one jitter (some p) throttle p header s)
  unfolding back_off
  back_off-Advances none n s h k = (omega arith, k)
  back_off-Advances (some header) n s h k = elim (Option-cases (pushback_ms header)) [
    | inl bad ↦ rw (bad, back_off) tt
    | inr (ms, good) ↦ rw (good, back_off) (omega arith, k)
  ]

  configured-Advances :
      (n : ℕ) (f : Failure) (s : Attempts)
      → n ≤ 1
      → Advances n s (configured one jitter (some p) throttle f s)
  unfolding configured
  configured-Advances n f s h = elim (Option-cases f.code) [
    | inl e ↦ rw (e, configured) tt
    | inr (code, e) ↦
        let spent = leb p.max_attempts (s.previous + 1) || throttled throttle s.tokens in
        let again = back_off one jitter (some p) throttle p f.pushback s in
        let allowed : spent ≡ false → Advances n s again =
          λ k. back_off-Advances f.pushback n s h (ground arith) in
        rw (e, configured)
          (guard-Advances n s (not (includes p.retryable_status_codes code)) s.tokens
            (if spent then throws s.tokens else again)
            (λ _. guard-Advances n s spent s.tokens again allowed))
  ]

  -- A transparent retry counts as well, unless nothing was sent.
  refused_rank :
      (evidence : Option Retry) (before : Bool)
      → is_transparent evidence before ≡ true
      → counts evidence + one_if before ≤ one_if (before || is_refused evidence)
  refused_rank none before e = absurd (ground arith)
  refused_rank (some unsent) before e = ground arith
  refused_rank (some refused) before e = ground arith

  decide-Advances :
      (committed : Bool) (f : Failure) (s : Attempts)
      → s.previous < p.max_attempts
      → Advances (counts f.evidence) s (decide one jitter (some p) throttle committed f s)
  unfolding decide
  decide-Advances committed f s h = elim (Bool-cases (is_transparent f.evidence s.refused_before)) [
    | inl transparent ↦ rw transparent (
        guard-Advances (counts f.evidence) s (committed || f.committed) s.tokens
          (pauses 0 (record s {
            refused_before = s.refused_before || is_refused f.evidence;
            retrying = true;
          }))
          (λ _. (omega (arith, refused_rank f.evidence s.refused_before transparent), h)))
    | inr counts_as_failure ↦
        let s1 : Attempts = record s { tokens = failure one throttle (some p) f.code s.tokens } in
        rw counts_as_failure (
          guard-Advances (counts f.evidence) s (committed || f.committed) s1.tokens
            (configured one jitter (some p) throttle f s1)
            (λ _. configured-Advances (counts f.evidence) f s1 (counts_small f.evidence)))
  ]

  -- The locals behind a sequence of failures, if the call goes on.
  abbrev AllCounted : ℕ → Attempts → Option Attempts → Type 0
  AllCounted n s none = Unit {0}
  AllCounted n s (some s1) = (n + rank s ≤ rank s1) × (s1.previous < p.max_attempts)

  counted_later :
      (n m : ℕ) (s s1 : Attempts) (result : Option Attempts)
      → n + rank s ≤ rank s1
      → AllCounted m s1 result
      → AllCounted (n + m) s result
  counted_later n m s s1 none h k = tt
  counted_later n m s s1 (some s2) h (k, l) = (omega (arith, h, k), l)

  attempts-AllCounted :
      (fs : List (Bool × Failure)) (s : Attempts)
      → s.previous < p.max_attempts
      → AllCounted (counted fs) s (attempts one jitter (some p) throttle s fs)
  unfolding attempts
  attempts-AllCounted [] s h = (omega arith, h)
  attempts-AllCounted ((committed, f) ∷ fs) s h =
      let advances = decide-Advances committed f s h in
      elim (Decision-cases (decide one jitter (some p) throttle committed f s)) [
        | inl (tokens, e) ↦ rw (e, attempts) tt
        | inr (delay, s1, e) ↦
            let (rises, below) : Advances (counts f.evidence) s (pauses delay s1) =
              rw e at advances in
            rw (e, attempts)
              (counted_later (counts f.evidence) (counted fs) s s1 _ rises
                (attempts-AllCounted fs s1 below))
      ]

  -- A call under a policy that allows an attempt at all goes on behind at most as many failures as
  -- the policy allows attempts, not counting the ones that say that nothing was sent: fewer than that
  -- for the policy's own retries, and one more that the server refused.
  pub attempts_bounded :
      (fs : List (Bool × Failure)) (tokens : ℕ) (s : Attempts)
      → 0 < p.max_attempts
      → attempts one jitter (some p) throttle (first_attempt one jitter (some p) throttle tokens) fs
        ≡ some s
      → (counted fs ≤ p.max_attempts) × (s.previous < p.max_attempts)
  attempts_bounded fs tokens s h e =
      let start = first_attempt one jitter (some p) throttle tokens in
      let (all, below) : AllCounted (counted fs) start (some s) =
        rw e at (attempts-AllCounted fs start h) in
      (omega (arith, all, below, one_if_small s.refused_before), below)
