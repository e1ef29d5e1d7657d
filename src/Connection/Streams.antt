-- ===== src/Connection/Streams.antt =====
-- web/src/h2/connection.ts: `streams`, the map from stream ids to streams.
pub mod Each
use grpc_bridge.Prelude.{
  ℕ, suc, ◌+◌, ◌%◌, Bool, true, false, Option, none, some, List, [], ◌∷◌, ◌==◌, if◌then◌else◌,
}
use grpc_bridge.Stream.State.{H2Stream}

-- A `Map` in the order of insertion.
abbrev pub Streams : Type 0
Streams = List (ℕ × H2Stream)

-- `streams.get(id)`.
unfoldable pub find_stream : ℕ → Streams → Option H2Stream
find_stream id [] = none
find_stream id ((k, s) ∷ m) = let behind = find_stream id m in if id == k then some s else behind

-- `streams.set(id, stream)`.
unfoldable pub set_stream : ℕ → H2Stream → Streams → Streams
set_stream id s [] = (id, s) ∷ []
set_stream id s ((k, old) ∷ m) =
    let behind = set_stream id s m in if id == k then (k, s) ∷ m else (k, old) ∷ behind

-- `streams.delete(id)`.
unfoldable pub delete_stream : ℕ → Streams → Streams
delete_stream id [] = []
delete_stream id ((k, s) ∷ m) =
    let behind = delete_stream id m in if id == k then m else (k, s) ∷ behind

-- `activeStreams`: the odd ids.
unfoldable pub count_active : Streams → ℕ
count_active [] = 0
count_active ((k, s) ∷ m) = if k % 2 == 1 then suc (count_active m) else count_active m
