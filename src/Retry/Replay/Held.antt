-- ===== src/Retry/Replay/Held.antt =====
-- The bytes that a request keeps, and the account that all requests share.
use grpc_bridge.Prelude.{
  ℕ, ◌+◌, ◌≤◌, ◌≡◌, refl, List, [], ◌∷◌, ◌++◌, length, ltb, Bool-cases, inl, inr, none, some,
  if_case, option_case, arith,
}
use grpc_bridge.Retry.Replay.{
  Account, reserve, release, Replay, commit, message_size, keep, Asked, Reader, call_next,
  read_source, read_settles, ReplayEvent, iterates, calls, returns_at, settles, commits, reader_at,
  replay_event, replay_events, close_replay,
}

abbrev pub kept_bytes : List (List ℕ) → ℕ
kept_bytes [] = 0
kept_bytes (m ∷ ms) = message_size m + kept_bytes ms

kept_bytes-append :
    (xs : List (List ℕ)) (m : List ℕ) → kept_bytes (xs ++ m ∷ []) ≡ kept_bytes xs + message_size m
kept_bytes-append [] m = omega arith
kept_bytes-append (x ∷ xs) m = omega (arith, kept_bytes-append xs m)

-- The request holds the bytes of its saved messages, within its limit; the account counts them and
-- the `others` bytes of the other requests, within the limit of all.
pub record Held (others : ℕ) (s : Account × Replay) : Type 0 where
  pub summed : s.1.bytes ≡ kept_bytes s.1.saved
  pub within : s.1.bytes ≤ s.1.limit
  pub accounted : s.0.used ≡ others + s.1.bytes
  pub bounded : s.0.used ≤ s.0.buffer_bytes

commit-Held : (others : ℕ) (s : Account × Replay) → Held others s → Held others (commit s)
unfolding commit release
commit-Held others s h = record {
  summed = refl;
  within = omega arith;
  accounted = omega (arith, h.accounted);
  bounded = omega (arith, h.bounded);
}

keep-Held :
    (others : ℕ) (a : Account) (r : Replay) (message : List ℕ)
    → Held others (a, r)
    → Held others (keep (a, r) message)
unfolding keep reserve
keep-Held others a r message h = elim (Bool-cases r.committed) [
  | inl over ↦ simp over h
  | inr open_still ↦ elim (Bool-cases (ltb r.limit (r.bytes + message_size message))) [
    | inl large ↦ rw (open_still, large) (commit-Held others (a, r) h)
    | inr fits ↦ elim (Bool-cases (ltb a.buffer_bytes (a.used + message_size message))) [
      | inl full ↦ rw (open_still, fits, full) (commit-Held others (a, r) h)
      | inr room ↦
          rw (open_still, fits, room)
            (record {
              summed = omega (arith, h.summed, kept_bytes-append r.saved message);
              within = ground arith;
              accounted = omega (arith, h.accounted);
              bounded = ground arith;
            })
    ]
  ]
]

read_source-Held :
    (others : ℕ) (a : Account) (r : Replay) → Held others (a, r) → Held others (a, read_source r)
unfolding read_source
read_source-Held others a r h =
    option_case (λ (x : Replay). Held others (a, x)) r.pending _ _ (λ e. begun r.source)
      (λ read e. h)
  where
    begun :
        (source : List (List ℕ))
        → Held others (
          a,
          elim source as (λ _. Replay) [
            | [] ↦ record r { pending = some none }
            | message ∷ rest ↦ record r { pending = some (some message); source = rest }
          ],
        )
    begun [] = record {
      summed = h.summed;
      within = h.within;
      accounted = h.accounted;
      bounded = h.bounded;
    }
    begun (message ∷ rest) = record {
      summed = h.summed;
      within = h.within;
      accounted = h.accounted;
      bounded = h.bounded;
    }

call_next-Held :
    (others : ℕ) (s : Account × Replay) (reader : Reader)
    → Held others s
    → Held others (call_next s reader).2
unfolding call_next
call_next-Held others (a, r) reader h =
    let P = λ (x : Asked × Reader × (Account × Replay)). Held others x.2 in
    if_case P reader.stopped _ _ (λ e. h)
      (λ e.
        if_case P (ltb reader.index (length r.saved)) _ _ (λ e. h)
          (λ e. if_case P r.ended _ _ (λ e. h) (λ e. read_source-Held others a r h)))

read_settles-Held :
    (others : ℕ) (s : Account × Replay) → Held others s → Held others (read_settles s)
unfolding read_settles
read_settles-Held others (a, r) h =
    let held : Held others (a, record r { pending = none }) = record {
      summed = h.summed;
      within = h.within;
      accounted = h.accounted;
      bounded = h.bounded;
    } in
    option_case (Held others) r.pending _ _ (λ e. h)
      (λ read e.
        option_case (Held others) read _ _
          (λ e'. record {
            summed = h.summed;
            within = h.within;
            accounted = h.accounted;
            bounded = h.bounded;
          })
          (λ message e'. keep-Held others a (record r { pending = none }) message held))

replay_event-Held :
    (others : ℕ) (e : ReplayEvent) (s : (Account × Replay) × List Reader)
    → Held others s.0
    → Held others (replay_event e s).0
unfolding replay_event
replay_event-Held others iterates (s, readers) h = h
replay_event-Held others (calls i) (s, readers) h =
    option_case (λ (x : (Account × Replay) × List Reader). Held others x.0) (reader_at i readers) _
      _ (λ e. h) (λ reader e. call_next-Held others s reader h)
replay_event-Held others (returns_at i) (s, readers) h =
    option_case (λ (x : (Account × Replay) × List Reader). Held others x.0) (reader_at i readers) _
      _ (λ e. h) (λ reader e. h)
replay_event-Held others settles (s, readers) h = read_settles-Held others s h
replay_event-Held others commits (s, readers) h = commit-Held others s h

replay_events-Held :
    (others : ℕ) (es : List ReplayEvent) (s : (Account × Replay) × List Reader)
    → Held others s.0
    → Held others (replay_events es s).0
unfolding replay_events
replay_events-Held others [] s h = h
replay_events-Held others (e ∷ es) s h =
    replay_events-Held others es (replay_event e s) (replay_event-Held others e s h)

-- Whatever happens to a request, its attempts' iterators calling and returning, the read that they
-- share settling and the call being committed, in any order, the account stays right: the
-- request's bytes are those of its saved messages and within its limit, and the account is these
-- and the other requests' bytes, within the limit of all. Closing the request then gives back every
-- byte that it held and empties it, so that the account is what the other requests hold.
pub close_replay-Held :
    (others : ℕ) (s : (Account × Replay) × List Reader) (es : List ReplayEvent)
    → Held others s.0
    → Held others (replay_events es s).0
      × ((close_replay (replay_events es s).0).0.used ≡ others)
      × ((close_replay (replay_events es s).0).1.saved ≡ [])
unfolding close_replay commit release
close_replay-Held others s es h =
    let held = replay_events-Held others es s h in (held, omega (arith, held.accounted), refl)
