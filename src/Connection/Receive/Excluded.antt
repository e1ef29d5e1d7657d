-- ===== src/Connection/Receive/Excluded.antt =====
-- What a GOAWAY does to the streams.
use grpc_bridge.Prelude.{
  ℕ, ◌≡◌, refl, sym, ap, ◌∙◌, inl, inr, true, some, none, List, [], ◌∷◌, ◌++◌, ltb, ◌==◌,
  if◌then◌else◌, Bool-cases, append_assoc, append-nil, if_case, arith,
}
use grpc_bridge.Errors.{error_code_name_zero, ErrorCode, no_error, Error, h2, refused}
use grpc_bridge.Frames.Types.{GoawayFrame}
use grpc_bridge.Stream.State.{H2Stream, fail}
use grpc_bridge.Connection.Streams.{Streams, find_stream}
use grpc_bridge.Connection.State.{H2Connection, send}
use grpc_bridge.Connection.Teardown.{begin_close, wake_stream_slots}
use grpc_bridge.Connection.Receive.{exclude_streams, excluded, goaway_name, going_away, on_goaway}
use grpc_bridge.Connection.Bodies.{wake_stream_slots-streams}

-- A failure with the code NO_ERROR that says that the stream was refused, so that it is repeated.
abbrev pub refusal : ℕ → Error
refusal id = h2 (record { code = no_error; stream_id = some id; retry = some refused })

-- The streams with ids above `last`, failed as refused, the last of the map first.
abbrev pub refused_streams : ℕ → Streams → List H2Stream
refused_streams last [] = []
refused_streams last ((id, s) ∷ m) =
    refused_streams last m ++ (if ltb last id then fail s (refusal id) ∷ [] else [])

begin_close-detached : (c : H2Connection) → (begin_close c).detached ≡ c.detached
unfolding begin_close send
begin_close-detached c = ground arith

wake_stream_slots-detached : (c : H2Connection) → (wake_stream_slots c).detached ≡ c.detached
unfolding wake_stream_slots
wake_stream_slots-detached c =
    if_case (λ (x : H2Connection). x.detached ≡ c.detached) _ (begin_close c) c
      (λ e. begin_close-detached c) (λ e. refl)

exclude_streams-find :
    (code : ErrorCode) (last : ℕ) (m : Streams) (out : List H2Stream) (id : ℕ)
    → find_stream id (exclude_streams code last m out).0
      ≡ (if ltb last id then none else find_stream id m)
unfolding exclude_streams find_stream
exclude_streams-find code last [] out id = ground arith
exclude_streams-find code last ((k, s) ∷ m) out id = elim (Bool-cases (ltb last k)) [
  | inl gone ↦
      rw (gone, exclude_streams)
        (exclude_streams-find code last m (fail s (excluded code k) ∷ out) id ∙ ground arith)
  | inr kept ↦ rw (kept, exclude_streams) (grind (arith, exclude_streams-find code last m out id))
]

exclude_streams-refused :
    (last : ℕ) (m : Streams) (out : List H2Stream)
    → (exclude_streams no_error last m out).1 ≡ refused_streams last m ++ out
unfolding exclude_streams
exclude_streams-refused last [] out = refl
exclude_streams-refused last ((k, s) ∷ m) out = elim (Bool-cases (ltb last k)) [
  | inl gone ↦
      rw (gone, exclude_streams)
        (exclude_streams-refused last m (fail s (refusal k) ∷ out)
          ∙ sym (append_assoc (refused_streams last m) (fail s (refusal k) ∷ []) out))
  | inr kept ↦
      rw (kept, exclude_streams)
        (exclude_streams-refused last m out
          ∙ ap (λ (x : List H2Stream). x ++ out) (sym (append-nil (refused_streams last m))))
]

-- A GOAWAY without an error takes from the map the streams with an id above its last one and leaves
-- the others as they are. The ones that it takes fail, each with an error of its own id that says
-- that the stream was refused, on which a call is repeated.
pub on_goaway-streams :
    (f : GoawayFrame) (c : H2Connection) (id : ℕ)
    → f.error_code ≡ 0
    → (find_stream id (on_goaway f c).streams
        ≡ (if ltb f.last_stream_id id then none else find_stream id c.streams))
      × ((on_goaway f c).detached ≡ refused_streams f.last_stream_id c.streams ++ c.detached)
unfolding on_goaway
on_goaway-streams f c id e =
    let code = goaway_name f.error_code in
    let named : code ≡ no_error = ap goaway_name e ∙ rw (error_code_name_zero, goaway_name) refl in
    let no_error : (f.error_code == 0) ≡ true = ground arith in
    let c1 = going_away f c in
    rw (no_error, on_goaway)
      (
        ap (find_stream id) (wake_stream_slots-streams c1)
            ∙ exclude_streams-find code f.last_stream_id c.streams c.detached id,
        wake_stream_slots-detached c1
            ∙ ap (λ (x : ErrorCode). (exclude_streams x f.last_stream_id c.streams c.detached).1)
                named
            ∙ exclude_streams-refused f.last_stream_id c.streams c.detached,
      )
