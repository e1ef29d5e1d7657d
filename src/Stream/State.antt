-- ===== src/Stream/State.antt =====
-- web/src/h2/stream.ts: `H2Stream`, the receiving side of a stream.
use grpc_bridge.Prelude.{
  ℕ, ◌+◌, ◌-◌, Bool, true, false, not, ◌&&◌, ◌||◌, Option, none, some, List, [], ◌∷◌, ◌++◌, length,
  ltb, leb, if◌then◌else◌,
}
use grpc_bridge.Prelude.Int.{ℤ, pos}
use grpc_bridge.Text.{Text}
use grpc_bridge.Errors.{
  Error, ErrorCode, h2, error_code_name, protocol_error, refused_stream, refused,
}
use grpc_bridge.Flow.{SendWindow, send_window, close}
use grpc_bridge.Hpack.Decoder.{Header}
use grpc_bridge.Stream.Head.{Record, HeadHead, collect_headers}

pub data StreamState : Type 0 where
  idle reserved_remote open_both half_closed_local half_closed_remote closed_both : StreamState

-- The promise `head`.
pub data HeadPromise : Type 0 where
  pending : HeadPromise
  resolved : HeadHead → HeadPromise
  rejected : Error → HeadPromise

-- `stopped` is the reason of the abort signal, and `recv_notify` whether a `pull` is parked. The
-- owner's callbacks are what the operations return.
pub record H2Stream : Type 0 where
  pub id : ℕ
  pub send_side : SendWindow
  pub recv_window : ℤ
  pub state : StreamState
  pub local_closed : Bool
  pub remote_closed : Bool
  pub stopped : Option Error
  pub head : HeadPromise
  pub got_head : Bool
  pub trailers : Option Record
  pub recv_queue : List (List ℕ)
  pub recv_buffered : ℕ
  pub recv_ended : Bool
  pub recv_error : Option Error
  pub recv_notify : Bool
  pub body_done : Bool

abbrev pub h2_stream : ℕ → ℤ → StreamState → ℤ → H2Stream
h2_stream id initial_send_window state initial_receive_window = record {
  id = id;
  send_side = send_window initial_send_window;
  recv_window = initial_receive_window;
  state = state;
  local_closed = false;
  remote_closed = false;
  stopped = none;
  head = pending;
  got_head = false;
  trailers = none;
  recv_queue = [];
  recv_buffered = 0;
  recv_ended = false;
  recv_error = none;
  recv_notify = false;
  body_done = false;
}

-- `wakeRecv`.
unfoldable pub wake_recv : H2Stream → H2Stream
wake_recv s = record s { recv_notify = false }

unfoldable pub end_body : H2Stream → H2Stream
unfolding wake_recv
end_body s = wake_recv (record s { recv_ended = true })

-- `head.status >= 100 && head.status < 200`; NaN is neither.
abbrev pub is_interim : Option ℤ → Bool
is_interim (some (pos n)) = leb 100 n && ltb n 200
is_interim _ = false

unfoldable pub receive_headers : (Text → Option Text) → H2Stream → List Header → Bool → H2Stream
unfolding end_body
receive_headers inherited s raw end_stream =
    let head = collect_headers inherited raw in
    if not s.got_head
    then (if is_interim head.status
        then s
        else (let s1 : H2Stream = record s {
          got_head = true;
          head = resolved (record head { end_stream = some end_stream });
        } in
            if end_stream then end_body s1 else s1))
    else (let s1 : H2Stream = record s { trailers = some head.headers } in
        if end_stream then end_body s1 else s1)

unfoldable pub receive_data : H2Stream → List ℕ → Bool → H2Stream
unfolding wake_recv
receive_data s bytes end_stream =
    let s1 : H2Stream =
      if ltb 0 (length bytes) && not s.body_done
      then record s {
        recv_queue = s.recv_queue ++ bytes ∷ [];
        recv_buffered = s.recv_buffered + length bytes;
      }
      else s in
    wake_recv (record s1 { recv_ended = s1.recv_ended || end_stream })

-- `discardBuffered`: the bytes that the owner returns to the connection's window.
unfoldable pub discard_buffered : H2Stream → ℕ × H2Stream
discard_buffered s = (s.recv_buffered, record s { recv_buffered = 0; recv_queue = [] })

abbrev first_error : Option Error → Error → Option Error
first_error none e = some e
first_error (some old) e = some old

-- `fail`: the first error is the one that the reader sees.
unfoldable pub fail : H2Stream → Error → H2Stream
unfolding wake_recv
fail s e = wake_recv (record s {
  stopped = first_error s.stopped e;
  state = closed_both;
  send_side = (close s.send_side).0;
  head = if s.got_head then s.head else rejected e;
  got_head = true;
  recv_error = first_error s.recv_error e;
})

-- `receiveReset`: a code without a name counts as PROTOCOL_ERROR.
abbrev pub reset_name : ℕ → ErrorCode
reset_name error_code = elim (error_code_name error_code) [
  | some name ↦ name
  | none ↦ protocol_error
]

abbrev pub reset_error : ℕ → ErrorCode → Error
reset_error id refused_stream =
    h2 (record { code = refused_stream; stream_id = some id; retry = some refused })
reset_error id name = h2 (record { code = name; stream_id = some id; retry = none })

unfoldable pub receive_reset : H2Stream → ℕ → H2Stream
unfolding fail
receive_reset s error_code = fail s (reset_error s.id (reset_name error_code))

-- What a pull gives the reader: a chunk (whose length goes to `onConsume`), the error, the end, or
-- nothing yet.
pub data Pulled : Type 0 where
  chunk : List ℕ → Pulled
  fails_with : Error → Pulled
  ends waits_for_data : Pulled

-- One round of `pullBody`. A parked pull that is woken does the next round.
unfoldable pub pull_body : H2Stream → Pulled × H2Stream
pull_body s = elim s.recv_queue [
  | bytes ∷ rest ↦
      (chunk bytes, record s { recv_queue = rest; recv_buffered = s.recv_buffered - length bytes })
  | [] ↦ elim s.recv_error [
    | some e ↦ (fails_with e, record s { body_done = true })
    | none ↦
        if s.recv_ended
        then (ends, record s { body_done = true })
        else (waits_for_data, record s { recv_notify = true })
  ]
]

abbrev pub is_some : Option Error → Bool
is_some none = false
is_some (some e) = true

-- `cancelBody`: the bytes for `onConsume`, and whether `onCancel` is called.
unfoldable pub cancel_body : H2Stream → ℕ × Bool × H2Stream
cancel_body s =
    let live = not s.body_done && not s.recv_ended && not (is_some s.recv_error) in
    (s.recv_buffered, live, record s { body_done = true; recv_buffered = 0; recv_queue = [] })
