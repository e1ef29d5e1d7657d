-- ===== src/Retry/Replay/Again.antt =====
-- What another attempt reads, whatever the attempts before have done.
use grpc_bridge.Prelude.{
  ℕ, suc, ◌+◌, ◌≡◌, refl, sym, ap, ◌∙◌, true, false, Option, none, some, List, [], ◌∷◌, ◌++◌,
  length, ltb, Bool-cases, Option-cases, option_case, ◌⊎◌, inl, inr, append_assoc, arith,
}
use grpc_bridge.Retry.Replay.{
  Account, reserve, Replay, replay, commit, message_size, keep, drain, Reader, new_reader,
  call_next, read_source, read_settles, ReplayEvent, iterates, calls, returns_at, settles, commits,
  reader_at, replay_event, replay_events,
}
use grpc_bridge.Retry.Replay.Drain.{coming, Ending, drain_saved}

-- What a request knows of its input, until it is committed.
pub record Whole (input : List (List ℕ)) (r : Replay) : Type 0 where
  pub all_there : r.saved ++ (coming r.pending ++ r.source) ≡ input
  pub ending : Ending r

abbrev pub Repeatable : List (List ℕ) → Replay → Type 0
Repeatable input r = (r.committed ≡ true) ⊎ Whole input r

none_not_some : {read : Option (List ℕ)} → none ≡ some read → ⊥
none_not_some e = ground arith

message_not_end : {m : List ℕ} → some (some m) ≡ some none → ⊥
message_not_end e = ground arith

-- What a read takes from the source is under way.
begin_read :
    (input source : List (List ℕ)) (read : Option (Option (List ℕ))) (r : Replay)
    → r.source ≡ source
    → r.pending ≡ read
    → r.ended ≡ false
    → Repeatable input r
    → Repeatable input (elim read [
      | some read ↦ r
      | none ↦ elim source [
        | [] ↦ record r { pending = some none }
        | m ∷ rest ↦ record r { pending = some (some m); source = rest }
      ]
    ])
begin_read input source (some read) r e p more h = h
begin_read input [] none r e p more (inl over) = inl over
begin_read input (m ∷ source) none r e p more (inl over) = inl over
begin_read input [] none r e p more (inr w) = inr (record {
  all_there =
      ap (λ (x : Option (Option (List ℕ))). r.saved ++ (coming x ++ r.source)) (sym p)
      ∙ w.all_there;
  ending = record { done = inl more; last = λ _. e };
})
begin_read input (m ∷ source) none r e p more (inr w) = inr (record {
  all_there =
      ap (◌++◌ r.saved) (sym e)
      ∙ ap (λ (x : Option (Option (List ℕ))). r.saved ++ (coming x ++ r.source)) (sym p)
      ∙ w.all_there;
  ending = record { done = inl more; last = λ end. absurd (message_not_end end) };
})

read_source-Repeatable :
    (input : List (List ℕ)) (r : Replay)
    → r.ended ≡ false
    → Repeatable input r
    → Repeatable input (read_source r)
unfolding read_source
read_source-Repeatable input r more h = begin_read input r.source r.pending r refl refl more h

call_next-Repeatable :
    (input : List (List ℕ)) (s : Account × Replay) (reader : Reader)
    → Repeatable input s.1
    → Repeatable input (call_next s reader).2.1
unfolding call_next
call_next-Repeatable input (a, r) reader h = elim (Bool-cases reader.stopped) [
  | inl stopped ↦ simp stopped h
  | inr goes ↦ elim (Bool-cases (ltb reader.index (length r.saved))) [
    | inl before ↦ simp (goes, before) h
    | inr behind ↦ elim (Bool-cases r.ended) [
      | inl over ↦ simp (goes, behind, over) h
      | inr more ↦ simp (goes, behind, more) (read_source-Repeatable input r more h)
    ]
  ]
]

keep-Repeatable :
    (input : List (List ℕ)) (a : Account) (r : Replay) (message : List ℕ)
    → (r.committed ≡ true) ⊎ ((r.ended ≡ false) × (r.saved ++ (message ∷ r.source) ≡ input))
    → Repeatable input (keep (a, record r { pending = none }) message).1
unfolding keep commit
keep-Repeatable input a r message (inl over) = simp over (inl refl)
keep-Repeatable input a r message (inr (more, all)) = elim (Bool-cases r.committed) [
  | inl over ↦ simp over (inl refl)
  | inr open_still ↦ elim (Bool-cases (ltb r.limit (r.bytes + message_size message))) [
    | inl large ↦ simp (open_still, large) (inl refl)
    | inr fits ↦ elim (Option-cases (reserve a (message_size message))) [
      | inl full ↦ simp (open_still, fits, full) (inl refl)
      | inr (a1, room) ↦
          simp (open_still, fits, room)
            (inr (record {
              all_there = append_assoc r.saved (message ∷ []) r.source ∙ all;
              ending = record { done = inl more; last = λ e. absurd (none_not_some e) };
            }))
    ]
  ]
]

settle_read :
    (input : List (List ℕ)) (a : Account) (read : Option (Option (List ℕ))) (r : Replay)
    → r.pending ≡ read
    → Repeatable input r
    → Repeatable input
        (elim read as (λ _. Account × Replay) [
          | none ↦ (a, r)
          | some read ↦ elim read as (λ _. Account × Replay) [
            | none ↦ (a, record r { pending = none; ended = true })
            | some message ↦ keep (a, record r { pending = none }) message
          ]
        ]).1
settle_read input a none r p h = h
settle_read input a (some none) r p (inl over) = inl over
settle_read input a (some (some m)) r p (inl over) = keep-Repeatable input a r m (inl over)
settle_read input a (some none) r p (inr w) = inr (record {
  all_there =
      ap (λ (x : Option (Option (List ℕ))). r.saved ++ (coming x ++ r.source)) (sym p)
      ∙ w.all_there;
  ending = record { done = inr (w.ending.last p); last = λ e. absurd (none_not_some e) };
})
settle_read input a (some (some m)) r p (inr w) =
    let all : r.saved ++ (m ∷ r.source) ≡ input =
      ap (λ (x : Option (Option (List ℕ))). r.saved ++ (coming x ++ r.source)) (sym p)
      ∙ w.all_there in
    keep-Repeatable input a r m (elim w.ending.done [
      | inl more ↦ inr (more, all)
      | inr none_left ↦
          let bad : m ∷ r.source ≡ [] =
            ap (λ (x : Option (Option (List ℕ))). coming x ++ r.source) (sym p) ∙ none_left in
          absurd (omega (arith, ap length bad))
    ])

replay_event-Repeatable :
    (input : List (List ℕ)) (e : ReplayEvent) (s : (Account × Replay) × List Reader)
    → Repeatable input s.0.1
    → Repeatable input (replay_event e s).0.1
unfolding replay_event commit read_settles
replay_event-Repeatable input iterates (s, readers) h = h
replay_event-Repeatable input (calls i) (s, readers) h =
    option_case (λ (x : (Account × Replay) × List Reader). Repeatable input x.0.1)
      (reader_at i readers) _ _ (λ e. h) (λ reader e. call_next-Repeatable input s reader h)
replay_event-Repeatable input (returns_at i) (s, readers) h =
    option_case (λ (x : (Account × Replay) × List Reader). Repeatable input x.0.1)
      (reader_at i readers) _ _ (λ e. h) (λ reader e. h)
replay_event-Repeatable input settles (s, readers) h = settle_read input s.0 s.1.pending s.1 refl h
replay_event-Repeatable input commits (s, readers) h = inl refl

replay_events-Repeatable :
    (input : List (List ℕ)) (es : List ReplayEvent) (s : (Account × Replay) × List Reader)
    → Repeatable input s.0.1
    → Repeatable input (replay_events es s).0.1
unfolding replay_events
replay_events-Repeatable input [] s h = h
replay_events-Repeatable input (e ∷ es) s h =
    replay_events-Repeatable input es (replay_event e s) (replay_event-Repeatable input e s h)

drain-Repeatable :
    (input : List (List ℕ)) (s : Account × Replay)
    → Repeatable input s.1
    → (s.1.committed ≡ true) ⊎ (drain (suc (length input)) s new_reader ≡ input)
drain-Repeatable input s (inl over) = inl over
drain-Repeatable input (a, r) (inr w) =
    inr (rw w.all_there at (drain_saved r.saved [] a r refl w.ending))

-- Whatever the attempts before have done with the request, in any interleaving of their iterators'
-- calls and returns, of the settling of the read that they share and of commits, the request is
-- committed or another attempt can still read the whole input, each message once and in order,
-- and then the end: a read that is under way when it starts is given to it too.
pub attempt-again :
    (input : List (List ℕ)) (a : Account) (limit : ℕ) (es : List ReplayEvent)
    → ((replay_events es ((a, replay input limit), [])).0.1.committed ≡ true)
      ⊎ (drain (suc (length input)) (replay_events es ((a, replay input limit), [])).0 new_reader
          ≡ input)
attempt-again input a limit es =
    drain-Repeatable input (replay_events es ((a, replay input limit), [])).0 (
      replay_events-Repeatable input es ((a, replay input limit), [])
        (inr (record {
          all_there = refl;
          ending = record { done = inl refl; last = λ e. absurd (none_not_some e) };
        })))
