-- ===== src/Retry/Replay.antt =====
-- web/src/retry.ts: the class `Replay`, which keeps the messages of a request while it may have to be
-- sent again, and the byte account of the transport that all calls share. Messages are their bytes
-- on the wire: a value goes through `toBinary` once, and each reader gets `fromBinary` of these bytes.
pub mod Held
pub mod Drain
pub mod Again
use grpc_bridge.Prelude.{
  ℕ, zero, suc, ◌+◌, ◌-◌, ◌≤◌, ◌≡◌, refl, Bool, true, false, not, ◌&&◌, ◌||◌, Option, none, some,
  List, [], ◌∷◌, ◌++◌, length, get_elem?, ltb, leb, if◌then◌else◌,
}

-- The transport's `used`, and its `bufferBytes`.
pub record Account : Type 0 where
  pub used : ℕ
  pub buffer_bytes : ℕ

-- The callback `reserve`.
unfoldable pub reserve : Account → ℕ → Option Account
reserve a n =
    if ltb a.buffer_bytes (a.used + n) then none else some (record a { used = a.used + n })

-- The callback `release`.
unfoldable pub release : Account → ℕ → Account
release a n = record a { used = a.used - n }

-- `source` is what the caller's iterator has still to give; `limit` is `perRpcBufferBytes`. `pending` is
-- what the read of the source that is under way will give: a message, or the end.
pub record Replay : Type 0 where
  pub source : List (List ℕ)
  pub saved : List (List ℕ)
  pub bytes : ℕ
  pub ended : Bool
  pub committed : Bool
  pub limit : ℕ
  pub pending : Option (Option (List ℕ))

abbrev pub replay : List (List ℕ) → ℕ → Replay
replay source limit = record {
  source = source;
  saved = [];
  bytes = 0;
  ended = false;
  committed = false;
  limit = limit;
  pending = none;
}

unfoldable pub commit : Account × Replay → Account × Replay
unfolding release
commit (a, r) = (release a r.bytes, record r { committed = true; bytes = 0; saved = [] })

-- The room that a message takes: its bytes and the five of its frame.
abbrev pub message_size : List ℕ → ℕ
message_size message = length message + 5

-- Behind a read of the source: the message is kept, or the call is committed to this attempt.
unfoldable pub keep : Account × Replay → List ℕ → Account × Replay
unfolding commit reserve
keep (a, r) message =
    if r.committed
    then (a, r)
    else if ltb r.limit (r.bytes + message_size message)
    then commit (a, r)
    else elim (reserve a (message_size message)) [
      | none ↦ commit (a, r)
      | some a1 ↦
          (a1, record r { bytes = r.bytes + message_size message; saved = r.saved ++ message ∷ [] })
    ]

-- An iterator of `iterable()`; `waiting` says that a `next()` of it awaits the pending read.
pub record Reader : Type 0 where
  pub index : ℕ
  pub stopped : Bool
  pub waiting : Bool

abbrev pub new_reader : Reader
new_reader = record { index = 0; stopped = false; waiting = false }

-- What a `next()` gives: a message, the end, or nothing before the pending read has settled.
pub data Asked : Type 0 where
  gives : List ℕ → Asked
  over awaits : Asked

abbrev pub given : Option (List ℕ) → Asked
given none = over
given (some message) = gives message

-- `this.pending ??= this.source.next().then(...)`, up to the settling.
unfoldable pub read_source : Replay → Replay
read_source r = elim r.pending [
  | some read ↦ r
  | none ↦ elim r.source [
    | [] ↦ record r { pending = some none }
    | message ∷ source ↦ record r { pending = some (some message); source = source }
  ]
]

-- `next()`, up to its `await`.
unfoldable pub call_next : Account × Replay → Reader → Asked × Reader × (Account × Replay)
unfolding read_source
call_next (a, r) reader =
    if reader.stopped
    then (over, reader, (a, r))
    else if ltb reader.index (length r.saved)
    then (
      given (get_elem? r.saved reader.index),
      record reader { index = suc reader.index },
      (a, r),
    )
    else if r.ended
    then (over, reader, (a, r))
    else (awaits, record reader { waiting = true }, (a, read_source r))

-- The pending read settles: its message is kept once, whoever waits for it.
unfoldable pub read_settles : Account × Replay → Account × Replay
unfolding keep
read_settles (a, r) = elim r.pending [
  | none ↦ (a, r)
  | some read ↦ elim read [
    | none ↦ (a, record r { pending = none; ended = true })
    | some message ↦ keep (a, record r { pending = none }) message
  ]
]

-- `next()` behind its `await`, for the read that it awaited.
unfoldable pub read_settled : Option (List ℕ) → Reader → Asked × Reader
read_settled none reader = (over, record reader { waiting = false })
read_settled (some message) reader = (
  if reader.stopped then over else gives message,
  record reader { index = suc reader.index; waiting = false },
)

-- `return()`.
abbrev pub return_reader : Reader → Reader
return_reader reader = record reader { stopped = true }

-- What may happen to a request that several attempts read, each with an iterator of its own.
pub data ReplayEvent : Type 0 where
  iterates : ReplayEvent
  calls returns_at : ℕ → ReplayEvent
  settles commits : ReplayEvent

unfoldable pub reader_at : ℕ → List Reader → Option Reader
reader_at i [] = none
reader_at zero (reader ∷ readers) = some reader
reader_at (suc i) (reader ∷ readers) = reader_at i readers

unfoldable pub put_reader : ℕ → Reader → List Reader → List Reader
put_reader i new [] = []
put_reader zero new (reader ∷ readers) = new ∷ readers
put_reader (suc i) new (reader ∷ readers) = reader ∷ put_reader i new readers

-- The readers that wait, behind the settling of the read.
unfoldable pub settle_readers : Option (Option (List ℕ)) → List Reader → List Reader
unfolding read_settled
settle_readers none readers = readers
settle_readers (some read) [] = []
settle_readers (some read) (reader ∷ readers) =
    (if reader.waiting then (read_settled read reader).1 else reader)
    ∷ settle_readers (some read) readers

unfoldable pub replay_event :
    ReplayEvent → (Account × Replay) × List Reader → (Account × Replay) × List Reader
unfolding reader_at put_reader call_next read_settles settle_readers commit
replay_event iterates (s, readers) = (s, readers ++ new_reader ∷ [])
replay_event (calls i) (s, readers) = elim (reader_at i readers) [
  | none ↦ (s, readers)
  | some reader ↦ let called = call_next s reader in (called.2, put_reader i called.1 readers)
]
replay_event (returns_at i) (s, readers) = elim (reader_at i readers) [
  | none ↦ (s, readers)
  | some reader ↦ (s, put_reader i (return_reader reader) readers)
]
replay_event settles (s, readers) = (read_settles s, settle_readers s.1.pending readers)
replay_event commits (s, readers) = (commit s, readers)

unfoldable pub replay_events :
    List ReplayEvent → (Account × Replay) × List Reader → (Account × Replay) × List Reader
unfolding replay_event
replay_events [] s = s
replay_events (e ∷ es) s = replay_events es (replay_event e s)

-- The rest of a `next()` whose read settles with nothing in between.
unfoldable pub await_read :
    Asked × Reader × (Account × Replay) → Asked × Reader × (Account × Replay)
unfolding read_settles read_settled
await_read (awaits, reader, (a, r)) = elim r.pending [
  | none ↦ (over, reader, (a, r))
  | some read ↦
      let (answer, reader1) = read_settled read reader in (answer, reader1, read_settles (a, r))
]
await_read (asked, reader, s) = (asked, reader, s)

-- A whole `next()` of one reader, with nothing in between.
unfoldable pub next : Account × Replay → Reader → Asked × Reader × (Account × Replay)
unfolding call_next await_read
next s reader = await_read (call_next s reader)

-- A reader that takes all there is, with fuel for each message and the end.
unfoldable pub drain : ℕ → Account × Replay → Reader → List (List ℕ)
unfolding next
drain zero s reader = []
drain (suc fuel) s reader =
    let (asked, reader1, s1) = next s reader in
    elim asked [ gives message ↦ message ∷ drain fuel s1 reader1 | _ ↦ [] ]

-- `close`.
unfoldable pub close_replay : Account × Replay → Account × Replay
unfolding commit
close_replay s = let (a, r) = commit s in (a, record r { ended = true })
