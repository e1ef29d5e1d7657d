-- ===== src/Connection/Pump.antt =====
-- web/src/h2/connection.ts: the slices of a chunk that were sent, and what they took from the windows.
pub mod Upload
pub mod Progress
pub mod Finish
use mathlib.Core.Path.{subst}
use grpc_bridge.Prelude.{
  ℕ, zero, suc, ◌+◌, ◌-◌, ◌≤◌, ◌<◌, min, ◌≡◌, refl, sym, ap, ◌∙◌, ◌⊎◌, inl, inr, Bool, true, false,
  not, ◌&&◌, ◌||◌, Option, none, some, List, [], ◌∷◌, ◌++◌, length, take, drop, All, All-append,
  ltb, ◌==◌, if◌then◌else◌, Bool-cases, if_case, option_case, length-take, length-drop,
  take-append-drop, append_assoc, append-nil, arith,
}
use grpc_bridge.Prelude.Int.{
  ℤ, pos, negsuc, pos_part, neg_part, ◌-ℤ◌, ◌≤ℤ◌, ltb_ℤ, -ℤ_parts, eq_of_parts, int_laws,
}
use grpc_bridge.Flow.{SendWindow, is_positive, consume, wait_positive}
use grpc_bridge.Frames.Types.{Frame}
use grpc_bridge.Bytes.{concat_bytes}
use grpc_bridge.Stream.State.{H2Stream}
use grpc_bridge.Stream.Credit.{total_length, total_length-append}
use grpc_bridge.Connection.Streams.{find_stream}
use grpc_bridge.Connection.Streams.Each.{find_stream-set_stream}
use grpc_bridge.Connection.State.{H2Connection, RemoteSettings, send}
use grpc_bridge.Connection.Teardown.{store}
use grpc_bridge.Connection.Requests.{
  PumpStatus, stops, parks, continues, grant_of, data_of, consumed, send_slice, pump_round,
  pump_chunk,
}

-- The frames of the slices.
abbrev pub data_frames : ℕ → List (List ℕ) → List Frame
data_frames id [] = []
data_frames id (x ∷ xs) = data_of id x false ∷ data_frames id xs

-- The slices that were sent between two states, and what they took from the windows.
pub record Pumped (id : ℕ) (c : H2Connection) (s : H2Stream) (c' : H2Connection)
    (slices : List (List ℕ)) : Type 0 where
  pub sent_frames : c'.sent ≡ c.sent ++ data_frames id slices
  pub sized : All (λ (x : List ℕ). length x ≤ c.remote.max_frame_size) slices
  pub conn_charge :
      c'.conn_send_window.available ≡ c.conn_send_window.available -ℤ pos (total_length slices)
  pub conn_fits : total_length slices ≤ pos_part c.conn_send_window.available
  pub stream : H2Stream
  pub found : find_stream id c'.streams ≡ some stream
  pub stream_charge :
      stream.send_side.available ≡ s.send_side.available -ℤ pos (total_length slices)
  pub stream_fits : total_length slices ≤ pos_part s.send_side.available
  pub same_remote : c'.remote ≡ c.remote

minus_zero : (a : ℤ) → a ≡ a -ℤ pos 0
minus_zero a = omega int_laws

-- Nothing sent: the windows may have got a waiter.
pub Pumped-none :
    (id : ℕ) (c : H2Connection) (s : H2Stream) (c' : H2Connection) (s' : H2Stream)
    → c'.sent ≡ c.sent
    → c'.conn_send_window.available ≡ c.conn_send_window.available
    → find_stream id c'.streams ≡ some s'
    → s'.send_side.available ≡ s.send_side.available
    → c'.remote ≡ c.remote
    → Pumped id c s c' []
Pumped-none id c s c' s' same_sent same_conn found same_stream same_remote = record {
  sent_frames = same_sent ∙ sym (append-nil c.sent);
  sized = tt;
  conn_charge = same_conn ∙ minus_zero c.conn_send_window.available;
  conn_fits = omega arith;
  stream = s';
  found = found;
  stream_charge = same_stream ∙ minus_zero s.send_side.available;
  stream_fits = omega arith;
  same_remote = same_remote;
}

-- A slice within the grant.
pub grant_bounds :
    (c : H2Connection) (s : H2Stream) (rest : List ℕ)
    → (grant_of c s rest ≤ length rest)
      × (grant_of c s rest ≤ pos_part c.conn_send_window.available)
      × (grant_of c s rest ≤ pos_part s.send_side.available)
      × (grant_of c s rest ≤ c.remote.max_frame_size)
grant_bounds c s rest = (omega arith, omega arith, omega arith, omega arith)

pub send_open :
    (c : H2Connection) (f : Frame) → c.closed_flag ≡ false → (send c f).sent ≡ c.sent ++ f ∷ []
unfolding send
send_open c f e =
    if_case (λ (x : H2Connection). x.sent ≡ c.sent ++ f ∷ []) c.closed_flag c _
      (λ e'. absurd (ground arith)) (λ e'. refl)

pub send_same :
    (c : H2Connection) (f : Frame)
    → ((send c f).streams ≡ c.streams)
      × ((send c f).conn_send_window ≡ c.conn_send_window)
      × ((send c f).remote ≡ c.remote)
      × ((send c f).closed_flag ≡ c.closed_flag)
unfolding send
send_same c f = (ground arith, ground arith, ground arith, ground arith)

pub slice-Pumped :
    (id n : ℕ) (rest : List ℕ) (s : H2Stream) (c : H2Connection)
    → c.closed_flag ≡ false
    → n ≤ length rest
    → n ≤ pos_part c.conn_send_window.available
    → n ≤ pos_part s.send_side.available
    → n ≤ c.remote.max_frame_size
    → Pumped id c s (send (consumed id n s c) (data_of id (take n rest) false)) (take n rest ∷ [])
unfolding consume
slice-Pumped id n rest s c live h1 h2 h3 h4 =
    let c1 = consumed id n s c in
    let f = data_of id (take n rest) false in
    let (streams, window, remote, closed) = send_same c1 f in
    let n' : total_length (take n rest ∷ []) ≡ n = omega (arith, length-take n rest) in
    record {
      sent_frames = send_open c1 f live;
      sized = (omega (arith, length-take n rest), tt);
      conn_charge =
          ap (λ (w : SendWindow). w.available) window
          ∙ ap (λ (k : ℕ). c.conn_send_window.available -ℤ pos k) (sym n');
      conn_fits = omega (arith, h2, n');
      stream = record s { send_side = consume s.send_side n };
      found = ap (find_stream id) streams ∙ find_stream-set_stream id _ c.streams;
      stream_charge = ap (λ (k : ℕ). s.send_side.available -ℤ pos k) (sym n');
      stream_fits = omega (arith, h3, n');
      same_remote = remote;
    }
