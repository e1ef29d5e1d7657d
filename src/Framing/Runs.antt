-- ===== src/Framing/Runs.antt =====
-- Runs of the record framing on concrete bodies.
use grpc_bridge.Text.{Text, text, text_eq}
use grpc_bridge.Stream.Head.{Record, lookup}
use grpc_bridge.Framing.Status.{
  FoundStatus, StatusMeans, validate_status, validate_status-StatusMeans,
}
use grpc_bridge.Prelude.{Option, some, ℕ, ◌≡◌, refl, List, [], ◌∷◌, ◌++◌, All, arith}
use grpc_bridge.Bytes.{concat_bytes}
use grpc_bridge.Errors.{ok, err, connect_failure}
use grpc_bridge.Framing.{
  frame, unframe, unframe_from, feed, feed_loop, feed_round, complete, read_header, data_loss,
}
use grpc_bridge.Framing.Bytewise.{unframe_chunks}
use grpc_bridge.Framing.Records.{frames, unframe-frames, unframe_truncated}
use grpc_bridge.Framing.Bounds.{IsMessage, unframe-short}

abbrev messages : List (List ℕ)
messages = (1 ∷ 2 ∷ 3 ∷ []) ∷ [] ∷ (7 ∷ []) ∷ []

-- The body of these messages, cut inside a header and inside a message.
abbrev body : List (List ℕ)
body =
    (0 ∷ 0 ∷ 0 ∷ [])
    ∷ (0 ∷ 3 ∷ 1 ∷ 2 ∷ [])
    ∷ []
    ∷ (3 ∷ 0 ∷ 0 ∷ 0 ∷ 0 ∷ 0 ∷ 0 ∷ 0 ∷ 0 ∷ 0 ∷ 1 ∷ 7 ∷ [])
    ∷ []

abbrev whole : List (List ℕ)
whole = concat_bytes body ∷ []

frames-body : frames messages ≡ ok (concat_bytes body)
unfolding frames frame concat_bytes
frames-body = refl

unframe-frames_example : unframe body ≡ (messages, ok tt)
unframe-frames_example = unframe-frames messages body frames-body

same_bytes : concat_bytes body ≡ concat_bytes whole
unfolding concat_bytes
same_bytes = refl

unframe_chunks_example : unframe body ≡ unframe whole
unframe_chunks_example = unframe_chunks body whole same_bytes

-- A compressed message is refused.
compressed_refused : unframe ((1 ∷ 0 ∷ 0 ∷ 0 ∷ 0 ∷ []) ∷ []) ≡ ([], err (connect_failure 12))
unfolding unframe unframe_from feed feed_loop feed_round complete read_header
compressed_refused = refl

abbrev cut_body : List (List ℕ)
cut_body = (0 ∷ 0 ∷ 0 ∷ 0 ∷ 1 ∷ 9 ∷ 0 ∷ []) ∷ (0 ∷ 0 ∷ []) ∷ []

first_record : frames ((9 ∷ []) ∷ []) ≡ ok (0 ∷ 0 ∷ 0 ∷ 0 ∷ 1 ∷ 9 ∷ [])
unfolding frames frame concat_bytes
first_record = refl

second_record : frame (4 ∷ 5 ∷ []) ≡ ok (0 ∷ 0 ∷ 0 ∷ 0 ∷ 2 ∷ 4 ∷ 5 ∷ [])
unfolding frame concat_bytes
second_record = refl

cut_body_bytes : concat_bytes cut_body ≡ (0 ∷ 0 ∷ 0 ∷ 0 ∷ 1 ∷ 9 ∷ []) ++ (0 ∷ 0 ∷ 0 ∷ [])
unfolding concat_bytes
cut_body_bytes = refl

unframe_truncated_example : unframe cut_body ≡ ((9 ∷ []) ∷ [], err (connect_failure data_loss))
unframe_truncated_example =
    unframe_truncated ((9 ∷ []) ∷ []) (4 ∷ 5 ∷ []) (0 ∷ 0 ∷ 0 ∷ 0 ∷ 1 ∷ 9 ∷ []) (0 ∷ 0 ∷ 0 ∷ [])
      (0 ∷ 2 ∷ 4 ∷ 5 ∷ []) cut_body first_record second_record (omega arith) (omega arith)
      cut_body_bytes

unframe-short_example : All IsMessage (unframe body).0
unframe-short_example = unframe-short body

abbrev ok_trailers : Option Record
ok_trailers = some ((text "grpc-status", text "0") ∷ [])

validate_status-StatusMeans_example :
    (raw : Option Text) × (FoundStatus [] ok_trailers raw)
    × StatusMeans raw (validate_status [] ok_trailers)
validate_status-StatusMeans_example = validate_status-StatusMeans [] ok_trailers

trailers_first :
    validate_status
      ((text "grpc-status", text "0") ∷ [])
      (some ((text "grpc-status", text "14") ∷ []))
    ≡ err (connect_failure 14)
unfolding validate_status lookup text_eq
trailers_first = refl
