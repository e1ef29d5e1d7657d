-- ===== src/Hpack/Table.antt =====
-- web/src/h2/hpack/hpack.ts: the dynamic table of `HpackDecoder`. Sizes count UTF-16 code units, as
-- `length` of a string does.
pub mod Bounds
use grpc_bridge.Prelude.{
  ℕ, zero, suc, ◌+◌, ◌-◌, ◌≤◌, ◌≡◌, refl, Bool, true, false, Option, none, some, List, [], ◌∷◌,
  length, get_elem?, ltb, leb, ◌&&◌, if◌then◌else◌,
}
use grpc_bridge.Errors.{Result, ok, err, ◌>>=◌, connection_failure, compression_error}
use grpc_bridge.Text.{Text}
use grpc_bridge.Hpack.StaticTable.{HeaderEntry, static_table, static_table_length}

abbrev pub entry_overhead : ℕ
entry_overhead = 32

abbrev pub default_table_size : ℕ
default_table_size = 4096

pub record HpackDecoder : Type 0 where
  pub dynamic : List HeaderEntry  -- newest first
  pub size : ℕ
  pub max_size : ℕ
  pub protocol_max : ℕ

abbrev pub hpack_decoder : ℕ → HpackDecoder
hpack_decoder max_size = record {
  dynamic = [];
  size = 0;
  max_size = max_size;
  protocol_max = max_size;
}

abbrev pub entry_size : HeaderEntry → ℕ
entry_size (name, value) = length name + length value + entry_overhead

-- `dynamic.pop()`: the last entry, and the ones before it.
unfoldable pub pop : List HeaderEntry → Option (HeaderEntry × List HeaderEntry)
pop [] = none
pop (entry ∷ entries) = elim (pop entries) [
  | none ↦ some (entry, [])
  | some (removed, kept) ↦ some (removed, entry ∷ kept)
]

-- `while (this.size + extra > this.maxSize && this.dynamic.length > 0)`, on fuel.
unfoldable pub evict : ℕ → ℕ → HpackDecoder → HpackDecoder
evict zero extra d = d
evict (suc fuel) extra d = elim (ltb d.max_size (d.size + extra)) [
  | false ↦ d
  | true ↦ elim (pop d.dynamic) [
    | none ↦ d
    | some (removed, kept) ↦
        evict fuel extra (record d { dynamic = kept; size = d.size - entry_size removed })
  ]
]

-- `applyMaxSize(newSize)`. A round of the loop removes an entry, so there is fuel enough.
unfoldable pub apply_max_size : HpackDecoder → ℕ → Result HpackDecoder
unfolding evict
apply_max_size d new_size =
    if ltb d.protocol_max new_size
    then err (connection_failure compression_error)
    else ok (evict (length d.dynamic) 0 (record d { max_size = new_size }))

-- `setProtocolMaxSize(n)`.
unfoldable pub set_protocol_max_size : HpackDecoder → ℕ → Result HpackDecoder
unfolding apply_max_size
set_protocol_max_size d n =
    let d1 : HpackDecoder = record d { protocol_max = n } in
    if ltb n d1.max_size then apply_max_size d1 n else ok d1

-- `entryAt(index)`. Index 0 is in neither table.
unfoldable pub entry_at : HpackDecoder → ℕ → Result HeaderEntry
entry_at d index =
    if leb 1 index && leb index static_table_length
    then found (get_elem? static_table (index - 1))
    else if leb 1 index
    then found (get_elem? d.dynamic (index - static_table_length - 1))
    else err (connection_failure compression_error)
  where
    found : Option HeaderEntry → Result HeaderEntry
    found none = err (connection_failure compression_error)
    found (some entry) = ok entry

-- `insert(name, value)`.
unfoldable pub insert : HpackDecoder → Text → Text → HpackDecoder
unfolding evict
insert d name value =
    let size = entry_size (name, value) in
    let d1 = evict (length d.dynamic) size d in
    if leb size d1.max_size
    then record d1 { dynamic = (name, value) ∷ d1.dynamic; size = d1.size + size }
    else record d1 { dynamic = []; size = 0 }
