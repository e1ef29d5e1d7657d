-- ===== src/Connection/Requests.antt =====
-- web/src/h2/connection.ts: `request`, `sendHeaders`, `pumpBody` and `ping`. The rounds stand between
-- two `await`s: what runs there is not interrupted.
pub mod Slots
use grpc_bridge.Prelude.{
  ℕ, zero, suc, ◌+◌, ◌*◌, ◌/◌, ◌%◌, ◌-◌, ◌^◌, min, Bool, true, false, not, ◌&&◌, ◌||◌, Option, none,
  some, List, [], ◌∷◌, ◌++◌, length, take, drop, ltb, leb, ◌==◌, if◌then◌else◌,
}
use grpc_bridge.Prelude.Int.{ℤ, pos, pos_part}
use grpc_bridge.Text.{Text, text_eq}
use grpc_bridge.Errors.{
  Error, h2, abort_reason, Retry, unsent, refused_stream, internal_error, cancel,
}
use grpc_bridge.Flow.{SendWindow, is_positive, consume, wait_positive}
use grpc_bridge.Frames.Types.{
  Frame, data_frame, headers_frame, continuation_frame, ping_frame, DataFrame,
}
use grpc_bridge.Hpack.Decoder.{Header}
use grpc_bridge.Hpack.Encoder.{encode}
use grpc_bridge.Stream.State.{H2Stream, h2_stream, open_both, half_closed_local, fail}
use grpc_bridge.Connection.Streams.{Streams, find_stream, count_active}
use grpc_bridge.Connection.State.{H2Connection, PingWaiter, failed, send}
use grpc_bridge.Connection.Teardown.{store, reset_stream, retire_if_fully_closed}
use grpc_bridge.Connection.Heads.{H2RequestInit, build_request_headers, body_is_empty}
use grpc_bridge.Connection.Blocks.{add_stream}
use grpc_bridge.Connection.Receive.{hex}

-- `canOpenStream`.
unfoldable pub can_open_stream : H2Connection → Bool
unfolding count_active
can_open_stream c = elim c.remote.max_concurrent_streams [
  | none ↦ true
  | some limit ↦ ltb (count_active c.streams) limit
]

-- The CONTINUATION frames of `sendHeaders`, on fuel; a frame size of zero would not end.
unfoldable pub continuations : ℕ → ℕ → ℕ → List ℕ → List Frame
continuations zero max id block = []
continuations (suc fuel) max id block = elim (length block == 0) [
  | true ↦ []
  | false ↦
      continuation_frame (record {
        stream_id = id;
        header_block_fragment = take max block;
        end_headers = leb (length block) max;
      })
      ∷ continuations fuel max id (drop max block)
]

-- The frames that `sendHeaders` sends, one after the other, for an encoded block.
unfoldable pub header_frames : ℕ → ℕ → List ℕ → Bool → List Frame
unfolding continuations
header_frames max id block end_stream =
    if leb (length block) max
    then headers_frame (record {
      stream_id = id;
      header_block_fragment = block;
      end_stream = end_stream;
      end_headers = true;
      priority = none;
    })
      ∷ []
    else headers_frame (record {
      stream_id = id;
      header_block_fragment = take max block;
      end_stream = end_stream;
      end_headers = false;
      priority = none;
    })
      ∷ continuations (length block) max id (drop max block)

unfoldable pub send_all : H2Connection → List Frame → H2Connection
unfolding send
send_all c [] = c
send_all c (f ∷ frames) = send_all (send c f) frames

-- The `check` of `request`.
unfoldable pub check_request : H2Connection → Bool → Option Error
check_request c aborted =
    if aborted
    then some abort_reason
    else if c.closed_flag || c.goaway_received
    then some (h2 (record { code = refused_stream; stream_id = none; retry = some unsent }))
    else none

-- What a round of `request` comes to: it throws, it is parked under a number, or its stream is open.
pub data RequestStatus : Type 0 where
  throws : Error → RequestStatus
  parked opened : ℕ → RequestStatus

-- The stream of a request, and its slot.
abbrev pub request_stream : H2Connection → H2Stream
request_stream c =
    h2_stream c.next_stream_id (pos c.remote.initial_window_size) open_both
      (pos c.local_initial_window)

abbrev pub reserved : H2Connection → H2Connection
reserved c =
    add_stream c.next_stream_id (request_stream c)
      (record c { next_stream_id = c.next_stream_id + 2 })

module _ (to_lower : Text → Text) (to_upper : Text → Text) where
  -- The frames of the request's head.
  abbrev pub request_frames : H2RequestInit → H2Connection → List Frame
  request_frames init c =
      header_frames c.remote.max_frame_size c.next_stream_id
        (encode to_lower (build_request_headers to_lower to_upper init)) (body_is_empty init.body)

  -- From the free slot to the wait for the head. A stream that was added is in the map.
  unfoldable pub open_stream : H2RequestInit → H2Connection → H2Connection
  unfolding add_stream send_all build_request_headers body_is_empty
  open_stream init c =
      let c1 = send_all (reserved c) (request_frames init c) in
      if body_is_empty init.body
      then store c.next_stream_id
          (record (request_stream c) { state = half_closed_local; local_closed = true }) c1
      else store c.next_stream_id (request_stream c) c1

  -- A round of `request`, from a `check` on.
  unfoldable pub request_round : H2RequestInit → Bool → H2Connection → H2Connection × RequestStatus
  unfolding check_request can_open_stream open_stream
  request_round init aborted c = elim (check_request c aborted) [
    | some e ↦ (c, throws e)
    | none ↦ if can_open_stream c then (open_stream init c, opened c.next_stream_id) else (
      record c {
        slot_waiters = c.slot_waiters ++ c.next_ticket ∷ [];
        next_ticket = suc c.next_ticket;
      },
      parked c.next_ticket,
    )
  ]

-- The abort of a request whose stream is open, or the failure of its pump.
unfoldable pub abandon : ℕ → Error → H2Connection → H2Connection
unfolding fail reset_stream
abandon id e c = elim (find_stream id c.streams) [
  | none ↦ c
  | some s ↦ reset_stream id cancel (store id (fail s e) c)
]

-- What a round of the pump's inner loop comes to.
pub data PumpStatus : Type 0 where
  stops parks : PumpStatus
  continues : List ℕ → PumpStatus  -- what is left of the chunk

-- The smaller of the four.
abbrev pub grant_of : H2Connection → H2Stream → List ℕ → ℕ
grant_of c s rest =
    min (min (length rest) (pos_part c.conn_send_window.available))
      (min (pos_part s.send_side.available) c.remote.max_frame_size)

abbrev pub data_of : ℕ → List ℕ → Bool → Frame
data_of id bytes end_stream = data_frame (record {
  stream_id = id;
  bytes = bytes;
  flow_controlled_length = none;
  end_stream = end_stream;
})

-- Both windows with the grant taken off.
abbrev pub consumed : ℕ → ℕ → H2Stream → H2Connection → H2Connection
consumed id grant s c =
    store id (record s { send_side = consume s.send_side grant })
      (record c { conn_send_window = consume c.conn_send_window grant })

-- The part of a round behind the two waits.
unfoldable pub send_slice : ℕ → List ℕ → H2Stream → H2Connection → H2Connection × PumpStatus
unfolding send consume
send_slice id rest s c =
    let grant = grant_of c s rest in
    if grant == 0 then (c, continues rest) else (
      send (consumed id grant s c) (data_of id (take grant rest) false),
      continues (drop grant rest),
    )

-- One round for the rest of a chunk of a stream of the map; a stream that has left it has a closed
-- window. A pump that is parked does the round again when a window wakes it. (A push that takes
-- over the id of a stream is not followed here.)
unfoldable pub pump_round : ℕ → List ℕ → H2Connection → H2Connection × PumpStatus
unfolding send_slice wait_positive
pump_round id rest c = elim (find_stream id c.streams) [
  | none ↦ (c, stops)
  | some s ↦
      if c.closed_flag || s.send_side.closed
      then (c, stops)
      else (let (w, conn_ticket) = wait_positive c.conn_send_window in
          elim conn_ticket [
            | some ticket ↦ (record c { conn_send_window = w }, parks)
            | none ↦
                let (v, stream_ticket) = wait_positive s.send_side in
                elim stream_ticket [
                  | some ticket ↦ (store id (record s { send_side = v }) c, parks)
                  | none ↦ send_slice id rest s c
                ]
          ])
]

-- What a round of the pump found, and what it left.
pub record PumpRound : Type 0 where
  pub before : H2Connection
  pub after : H2Connection
  pub status : PumpStatus

-- The inner loop, round by round, with nothing left at its end, or stopped, or as far as the list
-- goes. Between two rounds the pump awaits, and each entry of the list is what everything else does to
-- the connection meanwhile: other pumps, frames that arrive, resets, and what wakes it.
unfoldable pub pump_chunk :
    List (H2Connection → H2Connection) → ℕ → List ℕ → H2Connection → List PumpRound × PumpStatus
unfolding pump_round
pump_chunk [] id rest c = ([], continues rest)
pump_chunk (other ∷ others) id rest c = elim (length rest == 0) [
  | true ↦ ([], continues rest)
  | false ↦
      let c0 = other c in
      let (c1, status) = pump_round id rest c0 in
      let round : PumpRound = record { before = c0; after = c1; status = status } in
      elim status [
        | stops ↦ (round ∷ [], stops)
        | parks ↦ let (rounds, end) = pump_chunk others id rest c1 in (round ∷ rounds, end)
        | continues left ↦ let (rounds, end) = pump_chunk others id left c1 in (round ∷ rounds, end)
      ]
]

-- The end of `pumpBody`, up to its `await` and behind it.
unfoldable pub end_pump : ℕ → H2Connection → H2Connection
unfolding send
end_pump id c = elim (find_stream id c.streams) [
  | none ↦ c
  | some s ↦ if c.closed_flag || s.send_side.closed then c else send c (data_of id [] true)
]

unfoldable pub close_local : ℕ → H2Connection → H2Connection
unfolding retire_if_fully_closed
close_local id c = elim (find_stream id c.streams) [
  | none ↦ c
  | some s ↦
      retire_if_fully_closed id
        (store id (record s { state = half_closed_local; local_closed = true }) c)
]

-- The eight bytes of a ping: the counter as an unsigned 32-bit integer in the last four.
abbrev opaque_of : ℕ → List ℕ
opaque_of n = 0 ∷ 0 ∷ 0 ∷ 0 ∷ n / 16777216 % 256 ∷ n / 65536 % 256 ∷ n / 256 % 256 ∷ n % 256 ∷ []

abbrev close_reason : Option Error → Error
close_reason (some e) = e
close_reason none = h2 (record { code = internal_error; stream_id = none; retry = none })

-- `pings.set(key, waiter)`.
unfoldable pub set_ping : PingWaiter → List PingWaiter → List PingWaiter
set_ping w [] = w ∷ []
set_ping w (x ∷ xs) =
    let behind = set_ping w xs in if text_eq x.key w.key then w ∷ xs else x ∷ behind

abbrev pub pinged : ℕ → H2Connection → H2Connection
pinged now c = record c {
  ping_counter = suc c.ping_counter;
  pings = set_ping (record { key = hex (opaque_of (suc c.ping_counter)); sent_at = now }) c.pings;
}

abbrev pub ping_sent : H2Connection → Frame
ping_sent c = ping_frame (record { ack = false; opaque_data = opaque_of (suc c.ping_counter) })

-- `ping`; `now` is `Date.now()`.
unfoldable pub ping : ℕ → H2Connection → H2Connection
unfolding send set_ping hex
ping now c =
    if c.closed_flag
    then record c {
      ping_counter = suc c.ping_counter;
      ping_results =
          c.ping_results
          ++ failed (hex (opaque_of (suc c.ping_counter))) (close_reason c.close_error) ∷ [];
    }
    else send (pinged now c) (ping_sent c)
