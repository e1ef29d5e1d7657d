-- ===== src/Connection/Pump/Progress.antt =====
-- The pump gets on.
use grpc_bridge.Prelude.{ℕ, ◌<◌, ◌≡◌, ◌⊎◌, false, some, List, length}
use grpc_bridge.Prelude.Int.{pos, ◌≤ℤ◌}
use grpc_bridge.Stream.State.{H2Stream}
use grpc_bridge.Connection.Streams.{find_stream}
use grpc_bridge.Connection.State.{H2Connection}

-- A round of the pump that may send: the stream is there, nothing is closed, both windows have room
-- and the peer's frames may hold something.
pub record Ready (id : ℕ) (c : H2Connection) (s : H2Stream) : Type 0 where
  pub found : find_stream id c.streams ≡ some s
  pub live : c.closed_flag ≡ false
  pub live_stream : s.send_side.closed ≡ false
  pub some_size : 0 < c.remote.max_frame_size
  pub conn_room : pos 1 ≤ℤ c.conn_send_window.available
  pub stream_room : pos 1 ≤ℤ s.send_side.available

-- Nothing keeps a round from sending more than this.
abbrev pub Largest : ℕ → List ℕ → H2Connection → H2Stream → Type 0
Largest n rest c s =
    (n ≡ length rest)
    ⊎ (n ≡ c.remote.max_frame_size)
    ⊎ (c.conn_send_window.available ≡ pos n)
    ⊎ (s.send_side.available ≡ pos n)
