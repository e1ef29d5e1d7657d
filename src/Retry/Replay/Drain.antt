-- ===== src/Retry/Replay/Drain.antt =====
-- What a reader gets that takes all there is.
use grpc_bridge.Prelude.{
  ℕ, suc, ◌+◌, ◌≤◌, ◌≡◌, refl, sym, ap, ◌∙◌, true, false, Option, none, some, List, [], ◌∷◌, ◌++◌,
  length, get_elem?, ltb, Bool-cases, Option-cases, ◌⊎◌, inl, inr, append_assoc, length-append,
  arith,
}
use grpc_bridge.Retry.Replay.{
  Account, reserve, Replay, commit, message_size, keep, next, drain, Reader, Asked, gives, over,
  awaits, call_next, await_read, read_source, read_settles, read_settled,
}

-- What `keep` leaves alone.
record Kept (r : Replay) (r1 : Replay) : Type 0 where
  source : r1.source ≡ r.source
  ended : r1.ended ≡ r.ended
  pending : r1.pending ≡ r.pending
  short : length r1.saved ≤ suc (length r.saved)

keep-Kept : (a : Account) (r : Replay) (message : List ℕ) → Kept r (keep (a, r) message).1
unfolding keep commit
keep-Kept a r message = elim (Bool-cases r.committed) [
  | inl done ↦
      simp done (record { source = refl; ended = refl; pending = refl; short = omega arith })
  | inr open_still ↦ elim (Bool-cases (ltb r.limit (r.bytes + message_size message))) [
    | inl large ↦
        rw (open_still, large)
          (record { source = refl; ended = refl; pending = refl; short = omega arith })
    | inr fits ↦ elim (Option-cases (reserve a (message_size message))) [
      | inl full ↦
          rw (open_still, fits, full)
            (record { source = refl; ended = refl; pending = refl; short = omega arith })
      | inr (a1, room) ↦
          rw (open_still, fits, room)
            (record {
              source = refl;
              ended = refl;
              pending = refl;
              short = omega (arith, length-append r.saved (message ∷ []));
            })
    ]
  ]
]

-- A reader that is not stopped and does not wait.
abbrev pub reader_of : ℕ → Reader
reader_of index = record { index = index; stopped = false; waiting = false }

-- What the read that is under way will give of the input.
abbrev pub coming : Option (Option (List ℕ)) → List (List ℕ)
coming (some (some message)) = message ∷ []
coming _ = []

-- What `drain` does with a read.
abbrev take_read : ℕ → Asked × Reader × (Account × Replay) → List (List ℕ)
take_read fuel (asked, reader, s) = elim asked [
  | gives message ↦ message ∷ drain fuel s reader
  | _ ↦ []
]

drain_message :
    (fuel index : ℕ) (s s1 : Account × Replay) (m : List ℕ)
    → next s (reader_of index) ≡ (gives m, reader_of (suc index), s1)
    → drain (suc fuel) s (reader_of index) ≡ m ∷ drain fuel s1 (reader_of (suc index))
unfolding drain
drain_message fuel index s s1 m e = ap (take_read fuel) e

drain_over :
    (fuel index : ℕ) (s : Account × Replay)
    → (next s (reader_of index)).0 ≡ over
    → drain (suc fuel) s (reader_of index) ≡ []
unfolding drain
drain_over fuel index s e =
    ap
      (λ (x : Asked).
        take_read fuel (x, (next s (reader_of index)).1, (next s (reader_of index)).2))
      e

-- The read, by what is under way and what the source has.
module _ (index : ℕ) (a : Account) (r : Replay) (behind : ltb index (length r.saved) ≡ false) where
  next_ended : r.ended ≡ true → (next (a, r) (reader_of index)).0 ≡ over
  unfolding next call_next await_read
  next_ended ended =
      let call : call_next (a, r) (reader_of index) ≡ (over, reader_of index, (a, r)) =
        rw (behind, ended) refl in
      ap (λ (x : Asked × Reader × (Account × Replay)). (await_read x).0) call

  next_awaits :
      (r1 : Replay)
      → r.ended ≡ false
      → read_source r ≡ r1
      → next (a, r) (reader_of index)
        ≡ await_read (awaits, record (reader_of index) { waiting = true }, (a, r1))
  unfolding next call_next
  next_awaits r1 more e =
      let call : call_next (a, r) (reader_of index)
          ≡ (awaits, record (reader_of index) { waiting = true }, (a, r1)) =
        simp (behind, more)
          (ap (λ (x : Replay). (awaits, record (reader_of index) { waiting = true }, (a, x))) e) in
      ap await_read call

  next_pending :
      (m : List ℕ)
      → r.ended ≡ false
      → r.pending ≡ some (some m)
      → next (a, r) (reader_of index)
        ≡ (gives m, reader_of (suc index), keep (a, record r { pending = none }) m)
  unfolding read_source await_read read_settles read_settled
  next_pending m more p = next_awaits r more (rw p refl) ∙ rw (p, p) refl

  next_no_more : r.ended ≡ false → r.pending ≡ some none → (next (a, r) (reader_of index)).0 ≡ over
  unfolding read_source await_read read_settles read_settled
  next_no_more more p =
      ap (λ (x : Asked × Reader × (Account × Replay)). x.0) (next_awaits r more (rw p refl))
      ∙ rw p refl

  next_empty :
      r.ended ≡ false → r.pending ≡ none → r.source ≡ [] → (next (a, r) (reader_of index)).0 ≡ over
  unfolding read_source await_read read_settles read_settled
  next_empty more p e =
      let read : read_source r ≡ record r { pending = some none } = rw p (
        ap
          (λ (x : List (List ℕ)). elim x as (λ _. Replay) [
            | [] ↦ record r { pending = some none }
            | message ∷ source ↦ record r { pending = some (some message); source = source }
          ])
          e) in
      ap (λ (x : Asked × Reader × (Account × Replay)). x.0)
        (next_awaits (record r { pending = some none }) more read)

  next_source :
      (m : List ℕ) (source : List (List ℕ))
      → r.ended ≡ false
      → r.pending ≡ none
      → r.source ≡ m ∷ source
      → next (a, r) (reader_of index)
        ≡ (gives m, reader_of (suc index), keep (a, record r { pending = none; source = source }) m)
  unfolding read_source await_read read_settles read_settled
  next_source m source more p e =
      next_awaits (record r { pending = some (some m); source = source }) more (rw (p, e) refl)
      ∙ refl

-- The end of the input has been seen only when there is nothing more.
pub record Ending (r : Replay) : Type 0 where
  pub done : (r.ended ≡ false) ⊎ (coming r.pending ++ r.source ≡ [])
  pub last : r.pending ≡ some none → r.source ≡ []

-- A reader behind the saved messages gets what the source gives.
drain_source :
    (source : List (List ℕ)) (index : ℕ) (a : Account) (r : Replay)
    → r.source ≡ source
    → r.pending ≡ none
    → (r.ended ≡ false) ⊎ (source ≡ [])
    → length r.saved ≤ index
    → drain (suc (length source)) (a, r) (reader_of index) ≡ source
drain_source [] index a r e p d h = elim (Bool-cases r.ended) [
  | inl ended ↦ drain_over 0 index (a, r) (next_ended index a r (ground arith) ended)
  | inr more ↦ drain_over 0 index (a, r) (next_empty index a r (ground arith) more p e)
]
drain_source (m ∷ source) index a r e p (inr none_left) h =
    absurd (omega (arith, ap length none_left))
drain_source (m ∷ source) index a r e p (inl more) h =
    let r0 : Replay = record r { pending = none; source = source } in
    let k = keep-Kept a r0 m in
    let s1 = keep (a, r0) m in
    drain_message (length (m ∷ source)) index (a, r) s1 m
      (next_source index a r (ground arith) m source more p e)
    ∙ ap (◌∷◌ m) (
        drain_source source (suc index) s1.0 s1.1 k.source k.pending (inl (k.ended ∙ more))
          (omega (arith, k.short)))

-- A reader behind the saved messages gets what is under way, and then what the source gives.
drain_pending :
    (read : Option (Option (List ℕ))) (index : ℕ) (a : Account) (r : Replay)
    → r.pending ≡ read
    → (r.ended ≡ false) ⊎ (coming read ++ r.source ≡ [])
    → (read ≡ some none → r.source ≡ [])
    → length r.saved ≤ index
    → drain (suc (length (coming read ++ r.source))) (a, r) (reader_of index)
      ≡ coming read ++ r.source
drain_pending none index a r p d last h = drain_source r.source index a r refl p d h
drain_pending (some none) index a r p d last h =
    let empty = last refl in
    simp empty (elim (Bool-cases r.ended) [
      | inl ended ↦ drain_over 0 index (a, r) (next_ended index a r (ground arith) ended)
      | inr more ↦ drain_over 0 index (a, r) (next_no_more index a r (ground arith) more p)
    ])
drain_pending (some (some m)) index a r p (inr none_left) last h =
    absurd (omega (arith, ap length none_left))
drain_pending (some (some m)) index a r p (inl more) last h =
    let r0 : Replay = record r { pending = none } in
    let k = keep-Kept a r0 m in
    let s1 = keep (a, r0) m in
    drain_message (length (m ∷ r.source)) index (a, r) s1 m
      (next_pending index a r (ground arith) m more p)
    ∙ ap (◌∷◌ m) (
        drain_source r.source (suc index) s1.0 s1.1 k.source k.pending (inl (k.ended ∙ more))
          (omega (arith, k.short)))

get_elem?-append :
    (front back : List (List ℕ)) (m : List ℕ)
    → get_elem? (front ++ m ∷ back) (length front) ≡ some m
get_elem?-append [] back m = refl
get_elem?-append (x ∷ front) back m = get_elem?-append front back m

-- A reader within the saved messages gets the rest of them first.
pub drain_saved :
    (back front : List (List ℕ)) (a : Account) (r : Replay)
    → r.saved ≡ front ++ back
    → Ending r
    → drain
        (suc (length (back ++ (coming r.pending ++ r.source))))
        (a, r)
        (reader_of (length front))
      ≡ back ++ (coming r.pending ++ r.source)
unfolding next call_next
drain_saved [] front a r e d =
    drain_pending r.pending (length front) a r refl d.done d.last
      (omega (arith, ap length e, length-append front []))
drain_saved (m ∷ back) front a r e d =
    let size = ap length e ∙ length-append front (m ∷ back) in
    let before : ltb (length front) (length r.saved) ≡ true = ground (arith, size) in
    let found : get_elem? r.saved (length front) ≡ some m =
      ap (λ (x : List (List ℕ)). get_elem? x (length front)) e ∙ get_elem?-append front back m in
    let shift : front ++ m ∷ back ≡ (front ++ m ∷ []) ++ back =
      sym (append_assoc front (m ∷ []) back) in
    let one : length (front ++ m ∷ []) ≡ suc (length front) =
      length-append front (m ∷ []) ∙ omega arith in
    drain_message (length (m ∷ (back ++ (coming r.pending ++ r.source)))) (length front) (a, r)
      (a, r) m (rw (before, found) refl)
    ∙ ap (◌∷◌ m) (rw one at (drain_saved back (front ++ m ∷ []) a r (e ∙ shift) d))
