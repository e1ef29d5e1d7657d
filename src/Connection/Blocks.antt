-- ===== src/Connection/Blocks.antt =====
-- web/src/h2/connection.ts: header blocks, from the first fragment to the stream or the push that
-- they are for. A call returns the connection and what it throws, with the changes made until then.
use grpc_bridge.Prelude.{
  ℕ, ◌+◌, Bool, true, false, not, Option, none, some, List, [], ◌∷◌, ◌++◌, length, ltb, ◌==◌,
  if◌then◌else◌,
}
use grpc_bridge.Prelude.Int.{pos}
use grpc_bridge.Text.{Text, text}
use grpc_bridge.Errors.{
  Error, ok, err, connection_failure, protocol_error, enhance_your_calm, refused_stream,
}
use grpc_bridge.Bytes.{concat_bytes}
use grpc_bridge.Frames.Types.{HeadersFrame, ContinuationFrame, PushPromiseFrame}
use grpc_bridge.Hpack.Decoder.{Header, HeaderDecodeLimits, decode}
use grpc_bridge.Stream.State.{H2Stream, h2_stream, reserved_remote, receive_headers}
use grpc_bridge.Connection.Streams.{find_stream, set_stream}
use grpc_bridge.Connection.State.{
  H2Connection, PendingHeaderBlock, response_block, push_block, PushedRequest, send,
  max_header_block_size, default_max_header_list_bytes, default_max_header_count,
}
use grpc_bridge.Connection.Teardown.{store, rst_stream, retire_if_fully_closed}
use grpc_bridge.Connection.Heads.{pseudo, collect_request_head}

abbrev pub Outcome : Type 0
Outcome = H2Connection × Option Error

-- `streams.set` with a new stream; one that had the id leaves the map.
abbrev pub replaced : Option H2Stream → List H2Stream → List H2Stream
replaced none detached = detached
replaced (some old) detached = old ∷ detached

unfoldable pub add_stream : ℕ → H2Stream → H2Connection → H2Connection
add_stream id s c = record c {
  streams = set_stream id s c.streams;
  detached = replaced (find_stream id c.streams) c.detached;
}

abbrev or_else : Option Text → Text → Text
or_else none default = default
or_else (some value) default = value

-- The stream of a push: its local side is closed from the start.
abbrev pub pushed_stream : ℕ → H2Connection → H2Stream
pushed_stream id c =
    record (h2_stream id (pos c.remote.initial_window_size) reserved_remote
      (pos c.local_initial_window)) { local_closed = true }

-- `block` of `completeHeaderBlock`.
abbrev pub block_bytes : List (List ℕ) → List ℕ
block_bytes (fragment ∷ []) = fragment
block_bytes fragments = concat_bytes fragments

abbrev pub block_limits : ℕ → Option HeaderDecodeLimits
block_limits id = some (record {
  max_header_list_bytes = default_max_header_list_bytes;
  max_header_count = default_max_header_count;
  stream_id = some id;
})

-- `highestPromised`, raised.
abbrev pub promised : ℕ → H2Connection → H2Connection
promised id c = if ltb c.highest_promised id then record c { highest_promised = id } else c

module _ (inherited : Text → Option Text) where
  abbrev pushed_request : ℕ → List Header → PushedRequest
  pushed_request id raw = record {
    promised_id = id;
    method = or_else (pseudo raw (text ":method")) (text "GET");
    path = or_else (pseudo raw (text ":path")) (text "/");
    authority = or_else (pseudo raw (text ":authority")) [];
    scheme = or_else (pseudo raw (text ":scheme")) (text "http");
    headers = collect_request_head inherited [] raw;
  }

  -- `handlePush(parentId, promisedId, requestHeaders)`, which does not read `parentId`. The handler
  -- is taken to return.
  unfoldable pub handle_push : ℕ → List Header → H2Connection → H2Connection
  unfolding send add_stream
  handle_push promised_id raw c =
      let c1 = promised promised_id c in
      if not c1.on_push
      then send c1 (rst_stream promised_id refused_stream)
      else (let c2 = add_stream promised_id (pushed_stream promised_id c1) c1 in
          record c2 { pushed = c2.pushed ++ pushed_request promised_id raw ∷ [] })

  -- The header list of a response, for a stream that is still in the map.
  unfoldable pub deliver_headers : ℕ → List Header → Bool → H2Connection → H2Connection
  unfolding retire_if_fully_closed receive_headers
  deliver_headers id headers end_stream c = elim (find_stream id c.streams) [
    | none ↦ c
    | some s ↦
        let s1 = receive_headers inherited s headers end_stream in
        if end_stream
        then retire_if_fully_closed id (store id (record s1 { remote_closed = true }) c)
        else store id s1 c
  ]

  unfoldable pub deliver_block : PendingHeaderBlock → List Header → H2Connection → H2Connection
  unfolding deliver_headers handle_push
  deliver_block pb headers c = elim pb.kind [
    | response_block ↦ deliver_headers pb.stream_id headers pb.end_stream c
    | push_block promised_id ↦ handle_push promised_id headers c
  ]

  -- `completeHeaderBlock`, for the bytes of the fragments.
  unfoldable pub complete_bytes : PendingHeaderBlock → List ℕ → H2Connection → Outcome
  unfolding deliver_block
  complete_bytes pb block c =
      let (d, result) = decode c.decoder block (block_limits pb.stream_id) in
      let c1 : H2Connection = record c { pending_header_block = none; decoder = d } in
      elim result [ err e ↦ (c1, some e) | ok headers ↦ (deliver_block pb headers c1, none) ]

  unfoldable pub complete_header_block : PendingHeaderBlock → H2Connection → Outcome
  unfolding complete_bytes
  complete_header_block pb c = complete_bytes pb (block_bytes pb.fragments) c

  -- A block with one fragment more, `guardHeaderBlockSize`, and its completion.
  unfoldable pub take_fragment : PendingHeaderBlock → Bool → H2Connection → Outcome
  unfolding complete_header_block
  take_fragment pb end_headers c =
      let c1 : H2Connection = record c { pending_header_block = some pb } in
      if ltb max_header_block_size pb.size
      then (c1, some (connection_failure enhance_your_calm))
      else if end_headers
      then complete_header_block pb c1
      else (c1, none)

  unfoldable pub on_headers : HeadersFrame → H2Connection → Outcome
  unfolding take_fragment
  on_headers f c =
      take_fragment
        (record {
          stream_id = f.stream_id;
          kind = response_block;
          end_stream = f.end_stream;
          fragments = f.header_block_fragment ∷ [];
          size = length f.header_block_fragment;
        })
        f.end_headers c

  unfoldable pub on_push_promise : PushPromiseFrame → H2Connection → Outcome
  unfolding take_fragment
  on_push_promise f c =
      take_fragment
        (record {
          stream_id = f.stream_id;
          kind = push_block f.promised_stream_id;
          end_stream = false;
          fragments = f.header_block_fragment ∷ [];
          size = length f.header_block_fragment;
        })
        f.end_headers c

  unfoldable pub on_continuation : ContinuationFrame → H2Connection → Outcome
  unfolding take_fragment
  on_continuation f c = elim c.pending_header_block [
    | none ↦ (c, some (connection_failure protocol_error))
    | some pb ↦
        if pb.stream_id == f.stream_id
        then take_fragment
            (record pb {
              fragments = pb.fragments ++ f.header_block_fragment ∷ [];
              size = pb.size + length f.header_block_fragment;
            })
            f.end_headers c
        else (c, some (connection_failure protocol_error))
  ]
