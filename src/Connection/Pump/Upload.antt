-- ===== src/Connection/Pump/Upload.antt =====
-- web/src/h2/connection.ts: the upload of a chunk under the two send windows.
use grpc_bridge.Prelude.{
  ℕ, ◌≡◌, ◌⊎◌, Option-cases, none, refl, ap, ◌∙◌, inl, inr, Bool, true, false, ◌||◌, some, List, [],
  ◌∷◌, ◌++◌, length, take, drop, ◌==◌, Bool-cases, if_case, option_case, take-append-drop,
  append-nil, arith,
}
use grpc_bridge.Flow.{SendWindow, wait_positive}
use grpc_bridge.Bytes.{concat_bytes}
use grpc_bridge.Stream.State.{H2Stream}
use grpc_bridge.Connection.Streams.{find_stream}
use grpc_bridge.Connection.Streams.Each.{find_stream-set_stream}
use grpc_bridge.Connection.State.{H2Connection}
use grpc_bridge.Connection.Teardown.{store}
use grpc_bridge.Connection.Requests.{
  PumpStatus, PumpRound, stops, parks, continues, grant_of, send_slice, pump_round, pump_chunk,
}
use grpc_bridge.Connection.Pump.{Pumped, Pumped-none, slice-Pumped, grant_bounds}

-- A round that goes on leaves what it has not sent of the chunk; one that does not has sent nothing.
abbrev pub Rest : List ℕ → List (List ℕ) → PumpStatus → Type 0
Rest rest slices (continues left) = concat_bytes slices ++ left ≡ rest
Rest rest slices _ = slices ≡ []

pub record Uploaded (id : ℕ) (rest : List ℕ) (c : H2Connection) (s : H2Stream)
    (r : H2Connection × PumpStatus) : Type 0 where
  pub slices : List (List ℕ)
  pub pumped : Pumped id c s r.0 slices
  pub prefix : Rest rest slices r.1

slice_rest : (n : ℕ) (rest : List ℕ) → concat_bytes (take n rest ∷ []) ++ drop n rest ≡ rest
unfolding concat_bytes
slice_rest n rest =
    ap (λ (x : List ℕ). x ++ drop n rest) (append-nil (take n rest)) ∙ take-append-drop n rest

wait_positive_same : (w : SendWindow) → (wait_positive w).0.available ≡ w.available
unfolding wait_positive
wait_positive_same w = ground arith

live : (a b : Bool) → a || b ≡ false → a ≡ false
live true b e = absurd (ground arith)
live false b e = refl

module _ (id : ℕ) (rest : List ℕ) (c : H2Connection) (s : H2Stream)
    (found : find_stream id c.streams ≡ some s) where
  unsent_slice : Uploaded id rest c s (c, continues rest)
  unfolding concat_bytes
  unsent_slice = record {
    slices = [];
    pumped = Pumped-none id c s c s refl refl found refl refl;
    prefix = refl;
  }

  send_slice-Uploaded : c.closed_flag ≡ false → Uploaded id rest c s (send_slice id rest s c)
  unfolding send_slice
  send_slice-Uploaded live =
      let n = grant_of c s rest in
      let (h1, h2, h3, h4) = grant_bounds c s rest in
      if_case (Uploaded id rest c s) (n == 0) _ _ (λ e. unsent_slice)
        (λ e. record {
          slices = take n rest ∷ [];
          pumped = slice-Pumped id n rest s c live h1 h2 h3 h4;
          prefix = slice_rest n rest;
        })

  unsent :
      (c' : H2Connection) (s' : H2Stream) (status : PumpStatus)
      → c'.sent ≡ c.sent
      → c'.conn_send_window.available ≡ c.conn_send_window.available
      → find_stream id c'.streams ≡ some s'
      → s'.send_side.available ≡ s.send_side.available
      → c'.remote ≡ c.remote
      → Rest rest [] status
      → Uploaded id rest c s (c', status)
  unsent c' s' status e1 e2 e3 e4 e5 r = record {
    slices = [];
    pumped = Pumped-none id c s c' s' e1 e2 e3 e4 e5;
    prefix = r;
  }

  pump_round-Uploaded : Uploaded id rest c s (pump_round id rest c)
  unfolding pump_round concat_bytes
  pump_round-Uploaded =
      let P : H2Connection × PumpStatus → Type 0 = Uploaded id rest c s in
      rw (found, pump_round)
        (if_case P (c.closed_flag || s.send_side.closed) _ _
          (λ e. unsent c s stops refl refl found refl refl refl)
          (λ e.
            option_case P (wait_positive c.conn_send_window).1 _ _
              (λ e1.
                option_case P (wait_positive s.send_side).1 _ _
                  (λ e2. send_slice-Uploaded (live c.closed_flag s.send_side.closed e))
                  (λ ticket e2.
                    unsent (store id (record s { send_side = (wait_positive s.send_side).0 }) c)
                      (record s { send_side = (wait_positive s.send_side).0 }) parks refl refl
                      (find_stream-set_stream id _ c.streams) (wait_positive_same s.send_side) refl
                      refl))
              (λ ticket e1.
                unsent (record c { conn_send_window = (wait_positive c.conn_send_window).0 }) s
                  parks refl (wait_positive_same c.conn_send_window) found refl refl refl)))

-- A round, whether the stream is still in the map or has left it.
abbrev pub RoundUploads : ℕ → List ℕ → H2Connection → H2Connection × PumpStatus → Type 0
RoundUploads id rest c r =
    ((find_stream id c.streams ≡ none) × (r ≡ (c, stops)))
    ⊎ ((s : H2Stream) × (find_stream id c.streams ≡ some s) × Uploaded id rest c s r)

pump_round-RoundUploads :
    (id : ℕ) (rest : List ℕ) (c : H2Connection) → RoundUploads id rest c (pump_round id rest c)
unfolding pump_round
pump_round-RoundUploads id rest c = elim (Option-cases (find_stream id c.streams)) [
  | inl missing ↦ inl (missing, rw (missing, pump_round) refl)
  | inr (s, found) ↦ inr (s, found, pump_round-Uploaded id rest c s found)
]

-- All rounds, each on what the ones before it have left of the chunk.
abbrev pub Uploads : ℕ → List ℕ → List PumpRound → PumpStatus → Type 0
Uploads id rest [] end = end ≡ continues rest
Uploads id rest (r ∷ rounds) end =
    RoundUploads id rest r.before (r.after, r.status) × (elim r.status [
      | stops ↦ (rounds ≡ []) × (end ≡ stops)
      | parks ↦ Uploads id rest rounds end
      | continues left ↦ Uploads id left rounds end
    ])

-- The loop behind a round.
abbrev pub resumed :
    List (H2Connection → H2Connection)
    → ℕ
    → List ℕ
    → H2Connection
    → H2Connection × PumpStatus
    → List PumpRound × PumpStatus
resumed others id rest c0 (c1, status) =
    let round : PumpRound = record { before = c0; after = c1; status = status } in
    elim status [
      | stops ↦ (round ∷ [], stops)
      | parks ↦ let (rounds, end) = pump_chunk others id rest c1 in (round ∷ rounds, end)
      | continues left ↦ let (rounds, end) = pump_chunk others id left c1 in (round ∷ rounds, end)
    ]

after_round :
    (others : List (H2Connection → H2Connection)) (id : ℕ) (rest : List ℕ) (c : H2Connection)
    (r : H2Connection × PumpStatus)
    → RoundUploads id rest c r
    → ((left : List ℕ) (c1 : H2Connection)
        → Uploads id left (pump_chunk others id left c1).0 (pump_chunk others id left c1).1)
    → Uploads id rest (resumed others id rest c r).0 (resumed others id rest c r).1
after_round others id rest c (c1, stops) u k = (u, (refl, refl))
after_round others id rest c (c1, parks) u k = (u, k rest c1)
after_round others id rest c (c1, continues left) u k = (u, k left c1)

-- Whatever else happens to the connection between the rounds of a pump: what each round sends of the
-- chunk is a beginning of what the rounds before it have left, in order, in DATA frames of the stream
-- no longer than the peer's frame size; it is taken off both send windows to the byte, and is no more
-- than they have when the round begins. A round that parks or stops sends nothing, and behind one
-- that stops there is no other.
pub pump_chunk-Uploads :
    (others : List (H2Connection → H2Connection)) (id : ℕ) (rest : List ℕ) (c : H2Connection)
    → Uploads id rest (pump_chunk others id rest c).0 (pump_chunk others id rest c).1
unfolding pump_chunk
pump_chunk-Uploads [] id rest c = refl
pump_chunk-Uploads (other ∷ others) id rest c = elim (Bool-cases (length rest == 0)) [
  | inl done ↦ rw (done, pump_chunk) refl
  | inr more ↦
      rw (more, pump_chunk)
        (after_round others id rest (other c) (pump_round id rest (other c))
          (pump_round-RoundUploads id rest (other c))
          (λ left c1. pump_chunk-Uploads others id left c1))
]
