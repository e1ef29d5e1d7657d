-- ===== src/Connection/Credit/Account.antt =====
-- The account of the receive window, and how the calls on the map move it.
use grpc_bridge.Prelude.{
  ℕ, ◌+◌, ◌≡◌, ◌⊎◌, inl, inr, true, none, some, List, [], ◌∷◌, ◌++◌, All, arith,
}
use grpc_bridge.Stream.State.{H2Stream}
use grpc_bridge.Stream.Credit.{Counted}
use grpc_bridge.Connection.Streams.{Streams, find_stream, set_stream, delete_stream}
use grpc_bridge.Connection.Streams.Each.{Each, Each-set, Each-delete}
use grpc_bridge.Connection.State.{H2Connection}
use grpc_bridge.Connection.Teardown.{store, detach}

abbrev pub buffered_in : Streams → ℕ
buffered_in [] = 0
buffered_in ((id, s) ∷ m) = s.recv_buffered + buffered_in m

abbrev pub buffered_of : List H2Stream → ℕ
buffered_of [] = 0
buffered_of (s ∷ streams) = s.recv_buffered + buffered_of streams

pub buffered_in-set_stream :
    (id : ℕ) (s new : H2Stream) (m : Streams)
    → find_stream id m ≡ some s
    → buffered_in (set_stream id new m) + s.recv_buffered ≡ buffered_in m + new.recv_buffered
unfolding find_stream set_stream
buffered_in-set_stream id s new [] e = absurd (ground arith)
buffered_in-set_stream id s new ((k, old) ∷ m) e = grind (arith, buffered_in-set_stream id s new m)

pub buffered_in-set_stream_new :
    (id : ℕ) (new : H2Stream) (m : Streams)
    → find_stream id m ≡ none
    → buffered_in (set_stream id new m) ≡ buffered_in m + new.recv_buffered
unfolding find_stream set_stream
buffered_in-set_stream_new id new [] e = omega arith
buffered_in-set_stream_new id new ((k, old) ∷ m) e =
    grind (arith, buffered_in-set_stream_new id new m)

pub buffered_in-delete_stream :
    (id : ℕ) (s : H2Stream) (m : Streams)
    → find_stream id m ≡ some s
    → buffered_in (delete_stream id m) + s.recv_buffered ≡ buffered_in m
unfolding find_stream delete_stream
buffered_in-delete_stream id s [] e = absurd (ground arith)
buffered_in-delete_stream id s ((k, old) ∷ m) e = grind (arith, buffered_in-delete_stream id s m)

pub buffered_of-append :
    (xs ys : List H2Stream) → buffered_of (xs ++ ys) ≡ buffered_of xs + buffered_of ys
buffered_of-append [] ys = omega arith
buffered_of-append (x ∷ xs) ys = omega (arith, buffered_of-append xs ys)

-- Until the connection is closed, the free bytes, the buffered ones and `due`, which are yet to be
-- returned, are the whole window and `ahead`, which were returned early.
abbrev pub Credit : ℕ → ℕ → H2Connection → Type 0
Credit due ahead c =
    ((c.closed_flag ≡ true)
      ⊎ (c.conn_recv_available + buffered_in c.streams + buffered_of c.detached + due
          ≡ c.conn_recv_window + ahead))
    × Each Counted c.streams
    × All Counted c.detached

pub Credit-shift :
    (due ahead due' ahead' : ℕ) (c : H2Connection)
    → due + ahead' ≡ due' + ahead
    → Credit due ahead c
    → Credit due' ahead' c
Credit-shift due ahead due' ahead' c e (inl closed, each, all) = (inl closed, each, all)
Credit-shift due ahead due' ahead' c e (inr sum, each, all) = (inr (omega arith), each, all)

-- Bytes that are returned.
pub free-Credit :
    (due ahead n : ℕ) (c : H2Connection)
    → Credit due ahead c
    → Credit due (ahead + n) (record c { conn_recv_available = c.conn_recv_available + n })
free-Credit due ahead n c (inl closed, each, all) = (inl closed, each, all)
free-Credit due ahead n c (inr sum, each, all) = (inr (omega arith), each, all)

-- A stream of the map changes, or leaves it.
pub store-Credit :
    (due ahead id : ℕ) (s new : H2Stream) (c : H2Connection)
    → find_stream id c.streams ≡ some s
    → Counted new
    → Credit due ahead c
    → Credit (due + s.recv_buffered) (ahead + new.recv_buffered) (store id new c)
store-Credit due ahead id s new c e p (inl closed, each, all) =
    (inl closed, Each-set Counted id new c.streams each p, all)
store-Credit due ahead id s new c e p (inr sum, each, all) = (
  inr (omega (arith, buffered_in-set_stream id s new c.streams e)),
  Each-set Counted id new c.streams each p,
  all,
)

pub detach-Credit :
    (due ahead id : ℕ) (s new : H2Stream) (c : H2Connection)
    → find_stream id c.streams ≡ some s
    → Counted new
    → Credit due ahead c
    → Credit (due + s.recv_buffered) (ahead + new.recv_buffered) (detach id new c)
detach-Credit due ahead id s new c e p (inl closed, each, all) =
    (inl closed, Each-delete Counted id c.streams each, (p, all))
detach-Credit due ahead id s new c e p (inr sum, each, all) = (
  inr (omega (arith, buffered_in-delete_stream id s c.streams e)),
  Each-delete Counted id c.streams each,
  (p, all),
)

-- A change that leaves the buffered bytes alone.
pub update-Credit :
    (due ahead id : ℕ) (s new : H2Stream) (c : H2Connection)
    → find_stream id c.streams ≡ some s
    → Counted new
    → new.recv_buffered ≡ s.recv_buffered
    → Credit due ahead c
    → Credit due ahead (store id new c)
update-Credit due ahead id s new c e p same h =
    Credit-shift _ _ due ahead (store id new c) (omega (arith, same))
      (store-Credit due ahead id s new c e p h)

pub leave-Credit :
    (due ahead id : ℕ) (s new : H2Stream) (c : H2Connection)
    → find_stream id c.streams ≡ some s
    → Counted new
    → new.recv_buffered ≡ s.recv_buffered
    → Credit due ahead c
    → Credit due ahead (detach id new c)
leave-Credit due ahead id s new c e p same h =
    Credit-shift _ _ due ahead (detach id new c) (omega (arith, same))
      (detach-Credit due ahead id s new c e p h)
