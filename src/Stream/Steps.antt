-- ===== src/Stream/Steps.antt =====
-- web/src/h2/stream.ts: the calls of a stream by its connection and by the reader of its body, one
-- after the other.
use grpc_bridge.Prelude.{ℕ, ◌+◌, Bool, Option, List, [], ◌∷◌, ◌++◌, length}
use grpc_bridge.Text.{Text}
use grpc_bridge.Errors.{Error}
use grpc_bridge.Hpack.Decoder.{Header}
use grpc_bridge.Stream.State.{
  H2Stream, receive_headers, receive_data, receive_reset, fail, discard_buffered, Pulled, chunk,
  pull_body, cancel_body,
}

pub data StreamCall : Type 0 where
  gets_headers : List Header → Bool → StreamCall
  gets_data : List ℕ → Bool → StreamCall
  gets_reset : ℕ → StreamCall
  fails : Error → StreamCall
  pulls cancels discards : StreamCall

-- The credit that goes back to a receive window: what `onConsume` is called with, or what
-- `discardBuffered` returns.
abbrev pub pulled_credit : Pulled → ℕ
pulled_credit (chunk bytes) = length bytes
pulled_credit _ = 0

-- The stream, the credit, and what a pull gave the reader.
unfoldable pub step : (Text → Option Text) → H2Stream → StreamCall → H2Stream × ℕ × List Pulled
unfolding receive_headers receive_data receive_reset fail discard_buffered pull_body cancel_body
step inherited s (gets_headers raw end_stream) = (receive_headers inherited s raw end_stream, 0, [])
step inherited s (gets_data bytes end_stream) = (receive_data s bytes end_stream, 0, [])
step inherited s (gets_reset error_code) = (receive_reset s error_code, 0, [])
step inherited s (fails e) = (fail s e, 0, [])
step inherited s pulls = let (pulled, s1) = pull_body s in (s1, pulled_credit pulled, pulled ∷ [])
step inherited s cancels = let (credit, live, s1) = cancel_body s in (s1, credit, [])
step inherited s discards = let (credit, s1) = discard_buffered s in (s1, credit, [])

unfoldable pub run_calls :
    (Text → Option Text) → H2Stream → List StreamCall → H2Stream × ℕ × List Pulled
run_calls inherited s [] = (s, 0, [])
run_calls inherited s (c ∷ cs) =
    let (s1, credit, out) = step inherited s c in
    let (s2, more, behind) = run_calls inherited s1 cs in (s2, credit + more, out ++ behind)

-- The chunks that the reader got.
abbrev pub chunks : List Pulled → List (List ℕ)
chunks [] = []
chunks (chunk bytes ∷ out) = bytes ∷ chunks out
chunks (_ ∷ out) = chunks out
