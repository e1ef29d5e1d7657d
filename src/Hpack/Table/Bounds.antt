-- ===== src/Hpack/Table/Bounds.antt =====
-- The dynamic table stays within its size.
use grpc_bridge.Prelude.{
  ℕ, zero, suc, ◌+◌, ◌-◌, ◌≤◌, ◌≡◌, refl, false, none, some, List, [], ◌∷◌, ◌++◌, append-nil,
  append_assoc, length-append, sym, ap, ◌∙◌, length, ltb, leb, leb→le, Bool-cases, ◌⊎◌, inl, inr,
  arith,
}
use grpc_bridge.Errors.{ok}
use grpc_bridge.Text.{Text}
use grpc_bridge.Hpack.StaticTable.{HeaderEntry}
use grpc_bridge.Hpack.Table.{
  HpackDecoder, hpack_decoder, entry_size, pop, evict, apply_max_size, set_protocol_max_size,
  insert,
}

-- The sizes of the entries, summed up.
abbrev pub total : List HeaderEntry → ℕ
total [] = 0
total (entry ∷ entries) = entry_size entry + total entries

-- `size` is the sum of the entries' sizes, within the table's limit, which is within the limit
-- that was announced.
pub record IsTable (d : HpackDecoder) : Type 0 where
  pub counted : d.size ≡ total d.dynamic
  pub within : d.size ≤ d.max_size
  pub announced : d.max_size ≤ d.protocol_max

pub hpack_decoder-IsTable : (n : ℕ) → IsTable (hpack_decoder n)
hpack_decoder-IsTable n = record { counted = refl; within = omega arith; announced = omega arith }

total-append :
    (xs : List HeaderEntry) (entry : HeaderEntry)
    → total (xs ++ entry ∷ []) ≡ total xs + entry_size entry
total-append [] entry = omega arith
total-append (x ∷ xs) entry = omega (arith, total-append xs entry)

abbrev Popped : List HeaderEntry → Type 0
Popped entries =
    ((entries ≡ []) × (pop entries ≡ none))
    ⊎ ((removed : HeaderEntry) × (kept : List HeaderEntry) × (pop entries ≡ some (removed, kept))
        × (entries ≡ kept ++ removed ∷ []))

pop-cases : (entries : List HeaderEntry) → Popped entries
unfolding pop
pop-cases [] = inl (refl, refl)
pop-cases (entry ∷ entries) = elim (pop-cases entries) [
  | inl (e, p) ↦ inr (entry, [], rw p refl, ap (◌∷◌ entry) e)
  | inr (removed, kept, p, e) ↦ inr (removed, entry ∷ kept, rw p refl, ap (◌∷◌ entry) e)
]

-- What the loop leaves: a table whose size is counted, from which the oldest entries are gone until
-- `extra` fits or nothing is left.
pub record Evicted (extra : ℕ) (d d1 : HpackDecoder) : Type 0 where
  pub counted : d1.size ≡ total d1.dynamic
  pub room : (d1.size + extra ≤ d1.max_size) ⊎ (d1.dynamic ≡ [])
  pub oldest : (gone : List HeaderEntry) × (d.dynamic ≡ d1.dynamic ++ gone)
  pub same_max : d1.max_size ≡ d.max_size
  pub same_protocol_max : d1.protocol_max ≡ d.protocol_max

unchanged :
    (extra : ℕ) (d : HpackDecoder)
    → d.size ≡ total d.dynamic
    → (d.size + extra ≤ d.max_size) ⊎ (d.dynamic ≡ [])
    → Evicted extra d d
unchanged extra d e room = record {
  counted = e;
  room = room;
  oldest = ([], sym (append-nil d.dynamic));
  same_max = refl;
  same_protocol_max = refl;
}

one_more :
    (extra : ℕ) (d d1 : HpackDecoder) (removed : HeaderEntry) (kept : List HeaderEntry)
    → d.dynamic ≡ kept ++ removed ∷ []
    → Evicted extra (record d { dynamic = kept; size = d.size - entry_size removed }) d1
    → Evicted extra d d1
one_more extra d d1 removed kept e v =
    let (gone, split) = v.oldest in
    record {
      counted = v.counted;
      room = v.room;
      oldest = (
        gone ++ removed ∷ [],
        e
            ∙ ap (λ (x : List HeaderEntry). x ++ removed ∷ []) split
            ∙ append_assoc d1.dynamic gone (removed ∷ []),
      );
      same_max = v.same_max;
      same_protocol_max = v.same_protocol_max;
    }

length_zero : (xs : List HeaderEntry) → length xs ≡ 0 → xs ≡ []
length_zero [] z = refl
length_zero (x ∷ xs) z = absurd (omega arith)

-- The eviction loop, with a round for each entry and a size that is the sum of the entries': it takes
-- away the oldest entries only, stops when `extra` more fits or nothing is left, keeps the size in
-- step, and leaves the limits alone.
pub evict-Evicted :
    (fuel extra : ℕ) (d : HpackDecoder)
    → length d.dynamic ≤ fuel
    → d.size ≡ total d.dynamic
    → Evicted extra d (evict fuel extra d)
unfolding evict
evict-Evicted zero extra d h e = unchanged extra d e (inr (length_zero d.dynamic (omega arith)))
evict-Evicted (suc fuel) extra d h e = elim (Bool-cases (ltb d.max_size (d.size + extra))) [
  | inr fits ↦ rw (fits, evict) (unchanged extra d e (inl (ground arith)))
  | inl full ↦ elim (pop-cases d.dynamic) [
    | inl (empty, p) ↦ rw (full, p, evict) (unchanged extra d e (inr empty))
    | inr (removed, kept, p, split) ↦
        let shorter : length d.dynamic ≡ length kept + 1 =
          ap length split ∙ length-append kept (removed ∷ []) in
        let summed : total d.dynamic ≡ total kept + entry_size removed =
          ap total split ∙ total-append kept removed in
        rw (full, p, evict)
          (one_more extra d _ removed kept split (
            evict-Evicted fuel extra
              (record d { dynamic = kept; size = d.size - entry_size removed }) (omega arith)
              (omega arith)))
  ]
]

-- `insert` keeps a table's size counted and within its limit, also for an entry that is larger than
-- the whole table.
pub insert-IsTable :
    (d : HpackDecoder) (name value : Text) → IsTable d → IsTable (insert d name value)
unfolding insert
insert-IsTable d name value t =
    let size = entry_size (name, value) in
    let v = evict-Evicted (length d.dynamic) size d (omega arith) t.counted in
    let d1 = evict (length d.dynamic) size d in
    let same : d1.max_size ≤ d1.protocol_max =
      omega (arith, v.same_max, v.same_protocol_max, t.announced) in
    elim (Bool-cases (leb size d1.max_size)) [
      | inl fits ↦ rw fits (record {
        counted = omega (arith, v.counted);
        within = elim v.room [
          | inl room ↦ room
          | inr empty ↦ omega (arith, v.counted, ap total empty, leb→le size d1.max_size fits)
        ];
        announced = same;
      })
      | inr large ↦ rw large (record { counted = refl; within = omega arith; announced = same })
    ]

Evicted-IsTable : (d d1 : HpackDecoder) → d.max_size ≤ d.protocol_max → Evicted 0 d d1 → IsTable d1
Evicted-IsTable d d1 h v = record {
  counted = v.counted;
  within = elim v.room [
    | inl room ↦ omega arith
    | inr empty ↦ omega (arith, v.counted, ap total empty)
  ];
  announced = omega (arith, v.same_max, v.same_protocol_max);
}

pub apply_max_size-IsTable :
    (d d1 : HpackDecoder) (n : ℕ)
    → d.size ≡ total d.dynamic
    → apply_max_size d n ≡ ok d1
    → IsTable d1
unfolding apply_max_size
apply_max_size-IsTable d d1 n t e = elim (Bool-cases (ltb d.protocol_max n)) [
  | inl large ↦ absurd (grind (arith, large, e))
  | inr fits ↦
      let d0 : HpackDecoder = record d { max_size = n } in
      let v = evict-Evicted (length d.dynamic) 0 d0 (omega arith) t in
      let same : evict (length d.dynamic) 0 d0 ≡ d1 = ground arith in
      rw (sym same) (Evicted-IsTable d0 _ (ground arith) v)
]

-- A new limit of ours is always taken without an error, whether it is lower or higher, and the table
-- is within it.
pub set_protocol_max_size-IsTable :
    (d : HpackDecoder) (n : ℕ)
    → IsTable d
    → (d1 : HpackDecoder) × (set_protocol_max_size d n ≡ ok d1) × IsTable d1 × (d1.protocol_max ≡ n)
unfolding set_protocol_max_size apply_max_size
set_protocol_max_size-IsTable d n t = elim (Bool-cases (ltb n d.max_size)) [
  | inl shrinks ↦
      let d0 : HpackDecoder = record d { protocol_max = n; max_size = n } in
      let v = evict-Evicted (length d.dynamic) 0 d0 (omega arith) t.counted in
      let allowed : ltb n n ≡ false = ground arith in
      (_, rw (shrinks, allowed) refl, Evicted-IsTable d0 _ (omega arith) v, v.same_protocol_max)
  | inr stays ↦ (
    _,
    rw stays refl,
    record { counted = t.counted; within = t.within; announced = ground arith },
    refl,
  )
]
