-- ===== src/Connection/Runs.antt =====
-- Runs of a connection on concrete events.
use grpc_bridge.Prelude.{
  ℕ, ◌+◌, ◌≡◌, refl, ◌⊎◌, true, false, Option, none, some, List, [], ◌∷◌, ◌++◌, length, ltb,
  if◌then◌else◌, arith,
}
use grpc_bridge.Prelude.Int.{pos}
use grpc_bridge.Text.{Text, text, text_eq}
use grpc_bridge.Errors.{abort_reason, ok}
use grpc_bridge.Frames.Types.{GoawayFrame}
use grpc_bridge.Stream.State.{
  H2Stream, h2_stream, open_both, half_closed_local, HeadPromise, pending, receive_headers,
}
use grpc_bridge.Stream.Head.{collect_headers}
use grpc_bridge.Connection.Streams.{find_stream, set_stream, delete_stream}
use grpc_bridge.Connection.State.{
  H2Connection, PendingHeaderBlock, response_block, default_settings, new_connection, started,
  h2_connection,
}
use grpc_bridge.Connection.Teardown.{retire_if_fully_closed}
use grpc_bridge.Connection.Heads.{H2RequestInit, no_body, pairs, field}
use grpc_bridge.Connection.Blocks.{deliver_headers, on_continuation}
use grpc_bridge.Connection.Receive.{hex, on_goaway, dispatch_all}
use grpc_bridge.Connection.Receive.Excluded.{refused_streams, on_goaway-streams}
use grpc_bridge.Connection.Requests.{header_frames, request_round, pump_chunk}
use grpc_bridge.Connection.Teardown.{store}
use grpc_bridge.Flow.{send_window}
use grpc_bridge.Connection.Requests.Slots.{Admitted, request_round-Admitted}
use grpc_bridge.Connection.Events.{
  Event, bytes_arrive, close_called, close_written, request_goes, reader_pulls, abandoned,
  happen_all,
}
use grpc_bridge.Connection.Credit.Account.{buffered_in, buffered_of}
use grpc_bridge.Connection.Credit.Run.{happen_all_credit}
use grpc_bridge.Connection.Life.{life, LifeReach, happen_all-LifeReach}
use grpc_bridge.Connection.Pending.{BlockBounded, happen_all-BlockBounded}
use grpc_bridge.Connection.Reassembly.{head_frame, dispatch_all-header_frames}
use grpc_bridge.Connection.Pump.Upload.{Uploads, pump_chunk-Uploads}

abbrev nothing_inherited : Text → Option Text
nothing_inherited name = none

-- Names and methods that are in their case already.
abbrev as_is : Text → Text
as_is s = s

abbrev get : H2RequestInit
get = record {
  method = none;
  scheme = none;
  path = some (text "/a");
  authority = some (text "h");
  headers = some (pairs ((text "te", text "trailers") ∷ (text "host", text "x") ∷ []));
  body = no_body;
}

-- HEADERS with ":status: 200" (an index of the static table) and DATA of three bytes for stream 1.
abbrev response_bytes : List ℕ
response_bytes =
    0 ∷ 0 ∷ 1 ∷ 1 ∷ 4 ∷ 0 ∷ 0 ∷ 0 ∷ 1 ∷ 0x88 ∷ 0 ∷ 0 ∷ 3 ∷ 0 ∷ 0 ∷ 0 ∷ 0 ∷ 0 ∷ 1 ∷ 7 ∷ 8 ∷ 9 ∷ []

abbrev events : List Event
events =
    request_goes get false
    ∷ bytes_arrive 5 response_bytes
    ∷ reader_pulls 1
    ∷ abandoned 1 abort_reason
    ∷ close_called
    ∷ close_written
    ∷ []

started_ok : h2_connection default_settings ≡ ok (started default_settings)
unfolding h2_connection
started_ok = refl

happen_all_credit_example :
    ((happen_all nothing_inherited as_is as_is events (started default_settings)).closed_flag
      ≡ true)
    ⊎ ((happen_all nothing_inherited as_is as_is events
            (started default_settings)).conn_recv_available
          + buffered_in
              (happen_all nothing_inherited as_is as_is events (started default_settings)).streams
          + buffered_of
              (happen_all nothing_inherited as_is as_is events (started default_settings)).detached
        ≡ (happen_all nothing_inherited as_is as_is events
            (started default_settings)).conn_recv_window)
happen_all_credit_example =
    happen_all_credit nothing_inherited as_is as_is default_settings (started default_settings)
      events started_ok

happen_all-LifeReach_example :
    LifeReach
      (life (new_connection default_settings))
      (life (happen_all nothing_inherited as_is as_is events (new_connection default_settings)))
happen_all-LifeReach_example =
    happen_all-LifeReach nothing_inherited as_is as_is events (new_connection default_settings)

happen_all-BlockBounded_example :
    BlockBounded (happen_all nothing_inherited as_is as_is events (new_connection default_settings))
happen_all-BlockBounded_example =
    happen_all-BlockBounded nothing_inherited as_is as_is events (new_connection default_settings)
      refl

-- A connection with streams 1 and 3.
abbrev stream : ℕ → H2Stream
stream id = h2_stream id (pos 65535) open_both (pos 1048576)

abbrev two_streams : H2Connection
two_streams = record (new_connection default_settings) {
  streams = (1, stream 1) ∷ (3, stream 3) ∷ [];
  next_stream_id = 5;
}

abbrev block : List ℕ
block = 0x88 ∷ 0x84 ∷ 0x86 ∷ 0x88 ∷ 0x84 ∷ []

dispatch_all-header_frames_example :
    dispatch_all nothing_inherited 0 (header_frames 2 1 block false) two_streams
    ≡ dispatch_all nothing_inherited 0 (head_frame 1 block false true ∷ []) two_streams
dispatch_all-header_frames_example =
    dispatch_all-header_frames nothing_inherited 0 2 1 block false two_streams (omega arith)
      (omega arith) refl

abbrev chunk : List ℕ
chunk = 1 ∷ 2 ∷ 3 ∷ 4 ∷ 5 ∷ []

-- A stream whose window has room for three bytes.
abbrev narrow : H2Stream
narrow = h2_stream 1 (pos 3) open_both (pos 1048576)

abbrev narrow_connection : H2Connection
narrow_connection = record two_streams { streams = (1, narrow) ∷ [] }

-- Between the second round and the third the peer gives the stream two bytes more.
abbrev more_room : H2Connection → H2Connection
more_room c = store 1 (record narrow { send_side = send_window (pos 2) }) c

abbrev meanwhile : List (H2Connection → H2Connection)
meanwhile = (λ c. c) ∷ (λ c. c) ∷ more_room ∷ []

pump_chunk-Uploads_example :
    Uploads 1 chunk
      (pump_chunk meanwhile 1 chunk narrow_connection).0
      (pump_chunk meanwhile 1 chunk narrow_connection).1
pump_chunk-Uploads_example = pump_chunk-Uploads meanwhile 1 chunk narrow_connection

-- The peer gives the stream two bytes more as soon as it has taken three.
abbrev soon : List (H2Connection → H2Connection)
soon = (λ c. c) ∷ more_room ∷ (λ c. c) ∷ (λ c. c) ∷ (λ c. c) ∷ []

abbrev limited : H2Connection
limited = record two_streams {
  remote = record two_streams.remote { max_concurrent_streams = some 3 };
}

request_round-Admitted_example : Admitted limited 3 (request_round as_is as_is get false limited)
request_round-Admitted_example = request_round-Admitted as_is as_is get false limited 3 refl

abbrev going : GoawayFrame
going = record { last_stream_id = 1; error_code = 0; debug_data = [] }

on_goaway-streams_example :
    (find_stream 3 (on_goaway going two_streams).streams
      ≡ (if ltb going.last_stream_id 3 then none else find_stream 3 two_streams.streams))
    × ((on_goaway going two_streams).detached
        ≡ refused_streams going.last_stream_id two_streams.streams ++ two_streams.detached)
on_goaway-streams_example = on_goaway-streams going two_streams 3 refl

hex_run : hex (0 ∷ 171 ∷ 255 ∷ []) ≡ text "00abff"
unfolding hex
hex_run = refl

-- An interim response that ends the stream retires it with its head still pending: the request
-- waits for good, for nothing fails a stream that has left the map.
abbrev uploaded : H2Connection
uploaded = record two_streams {
  streams = (1, record (stream 1) { state = half_closed_local; local_closed = true }) ∷ [];
}

abbrev heads : List H2Stream → List HeadPromise
heads [] = []
heads (s ∷ streams) = s.head ∷ heads streams

interim_run :
    heads
      (deliver_headers nothing_inherited 1
        (field (text ":status") (text "103") ∷ [])
        true
        uploaded).detached
    ≡ pending ∷ []
unfolding deliver_headers find_stream set_stream delete_stream retire_if_fully_closed
    receive_headers collect_headers text_eq
interim_run = refl

-- A connection that an endless header block has closed still takes its fragments in.
abbrev overlong : H2Connection
overlong = record two_streams {
  closed_flag = true;
  pending_header_block = some (record {
    stream_id = 1;
    kind = response_block;
    end_stream = false;
    fragments = (1 ∷ []) ∷ [];
    size = 1048577;
  });
}

abbrev fragment_count : Option PendingHeaderBlock → ℕ
fragment_count none = 0
fragment_count (some pb) = length pb.fragments

overlong_run :
    fragment_count
      (on_continuation nothing_inherited
        (record { stream_id = 1; header_block_fragment = 2 ∷ 3 ∷ []; end_headers = false })
        overlong).0.pending_header_block
    ≡ 2
unfolding on_continuation
overlong_run = refl
