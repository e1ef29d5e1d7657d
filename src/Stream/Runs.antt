-- ===== src/Stream/Runs.antt =====
-- Runs of a stream on concrete calls.
use grpc_bridge.Prelude.{
  ◌+◌, ◌≡◌, refl, true, false, Option, none, some, List, [], ◌∷◌, ◌++◌, All, if◌then◌else◌,
}
use grpc_bridge.Prelude.Int.{pos}
use grpc_bridge.Text.{Text, text, text_eq}
use grpc_bridge.Errors.{Error, h2, refused_stream, refused, abort_reason, range_error}
use grpc_bridge.Hpack.Decoder.{Header}
use grpc_bridge.Stream.Head.{collect_headers}
use grpc_bridge.Stream.State.{H2Stream, open_both, h2_stream, receive_data}
use grpc_bridge.Stream.Steps.{
  step, StreamCall, gets_data, gets_reset, fails, pulls, cancels, run_calls, chunks,
}
use grpc_bridge.Stream.Credit.{Counted, total_length, queued, run_credit, run_delivery}
use grpc_bridge.Stream.Ends.{ShowsFailure, by_refusal, run-ShowsFailure}

-- What a plain object inherits, in short.
abbrev inherited : Text → Option Text
inherited name = if text_eq name (text "constructor") then some (text "f") else none

abbrev field : Text → Text → Header
field name value = record { name = name; value = value; never_index = false }

abbrev response : List Header
response =
    field (text ":status") (text "200")
    ∷ field (text "set-cookie") (text "a")
    ∷ field (text "set-cookie") (text "b")
    ∷ field (text "cookie") (text "c")
    ∷ field (text "cookie") (text "d")
    ∷ []

status_run : (collect_headers inherited response).status ≡ some (pos 200)
unfolding collect_headers text_eq
status_run = refl

headers_run :
    (collect_headers inherited response).headers
    ≡ (text "set-cookie", text "a, b") ∷ (text "cookie", text "c; d") ∷ []
unfolding collect_headers text_eq
headers_run = refl

-- A header called "constructor" is joined to what the object inherits under that name.
inherited_run :
    (collect_headers inherited (field (text "constructor") (text "x") ∷ [])).headers
    ≡ (text "constructor", text "f, x") ∷ []
unfolding collect_headers text_eq
inherited_run = refl

abbrev stream : H2Stream
stream = h2_stream 1 (pos 65535) open_both (pos 1048576)

abbrev calls : List StreamCall
calls =
    gets_data (1 ∷ 2 ∷ []) false
    ∷ pulls
    ∷ gets_data (3 ∷ []) false
    ∷ gets_data (4 ∷ 5 ∷ []) false
    ∷ fails range_error
    ∷ pulls
    ∷ cancels
    ∷ []

stream-Counted : Counted stream
stream-Counted = refl

run_credit_example :
    (run_calls inherited stream calls).1 + (run_calls inherited stream calls).0.recv_buffered
    ≡ stream.recv_buffered + total_length (queued inherited stream calls)
run_credit_example = run_credit inherited stream calls stream-Counted

abbrev reads : List StreamCall
reads = gets_data (1 ∷ 2 ∷ []) false ∷ gets_data (3 ∷ []) true ∷ fails range_error ∷ pulls ∷ []

run_delivery_example :
    chunks (run_calls inherited stream reads).2 ++ (run_calls inherited stream reads).0.recv_queue
    ≡ stream.recv_queue ++ queued inherited stream reads
run_delivery_example = run_delivery inherited stream reads (refl, (refl, (refl, (refl, tt))))

-- A stream that is reset with a chunk still buffered.
abbrev buffered_one : H2Stream
buffered_one = (run_calls inherited stream (gets_data (7 ∷ []) false ∷ [])).0

abbrev reset_by_peer : Error
reset_by_peer =
    h2 (record { code = refused_stream; stream_id = some buffered_one.id; retry = some refused })

run-ShowsFailure_example :
    All
      (ShowsFailure reset_by_peer)
      (run_calls inherited buffered_one (gets_reset 7 ∷ pulls ∷ fails abort_reason ∷ pulls ∷ [])).2
unfolding run_calls receive_data step
run-ShowsFailure_example =
    run-ShowsFailure inherited buffered_one (gets_reset 7) reset_by_peer
      (pulls ∷ fails abort_reason ∷ pulls ∷ []) refl (by_refusal refl refl)
