-- ===== src/Stream/Credit.antt =====
-- The bytes of the body: each is buffered, is given to the reader or is dropped, and its credit goes
-- back to the receive window once.
use grpc_bridge.Prelude.{
  ℕ, ◌+◌, ◌-◌, ◌≡◌, refl, sym, ap, ◌∙◌, Bool, true, false, not, ◌&&◌, Option, List, [], ◌∷◌, ◌++◌,
  length, All, ltb, if◌then◌else◌, append_assoc, append-nil, Bool-cases, Option-cases, inl, inr,
  arith,
}
use grpc_bridge.Text.{Text}
use grpc_bridge.Hpack.Decoder.{Header}
use grpc_bridge.Stream.State.{
  H2Stream, wake_recv, end_body, receive_headers, receive_data, receive_reset, fail,
  discard_buffered, Pulled, chunk, pull_body, cancel_body,
}
use grpc_bridge.Stream.Steps.{
  StreamCall, gets_headers, gets_data, gets_reset, fails, pulls, cancels, discards, step, run_calls,
  chunks, pulled_credit,
}

abbrev pub total_length : List (List ℕ) → ℕ
total_length [] = 0
total_length (x ∷ xs) = length x + total_length xs

pub total_length-append :
    (xs ys : List (List ℕ)) → total_length (xs ++ ys) ≡ total_length xs + total_length ys
total_length-append [] ys = omega arith
total_length-append (x ∷ xs) ys = omega (arith, total_length-append xs ys)

-- `recv_buffered` counts the bytes of the queue.
abbrev pub Counted : H2Stream → Type 0
Counted s = s.recv_buffered ≡ total_length s.recv_queue

-- The chunk that a call puts into the queue, if it does: data that is not empty, on a body that is not done.
abbrev pub queued_by : H2Stream → StreamCall → List (List ℕ)
queued_by s (gets_data bytes end_stream) =
    if ltb 0 (length bytes) && not s.body_done then bytes ∷ [] else []
queued_by s _ = []

pub queued : (Text → Option Text) → H2Stream → List StreamCall → List (List ℕ)
queued inherited s [] = []
queued inherited s (c ∷ cs) = queued_by s c ++ queued inherited (step inherited s c).0 cs

pub receive_headers_queue :
    (inherited : Text → Option Text) (s : H2Stream) (raw : List Header) (end_stream : Bool)
    → ((receive_headers inherited s raw end_stream).recv_queue ≡ s.recv_queue)
      × ((receive_headers inherited s raw end_stream).recv_buffered ≡ s.recv_buffered)
unfolding receive_headers end_body wake_recv
receive_headers_queue inherited s raw end_stream = ground arith

receive_data_queue :
    (s : H2Stream) (bytes : List ℕ) (end_stream : Bool)
    → (receive_data s bytes end_stream).recv_queue
      ≡ s.recv_queue ++ queued_by s (gets_data bytes end_stream)
unfolding receive_data wake_recv
receive_data_queue s bytes end_stream =
    elim (Bool-cases (ltb 0 (length bytes) && not s.body_done)) [
      | inl kept ↦ rw kept refl
      | inr dropped ↦ rw dropped (sym (append-nil s.recv_queue))
    ]

pub receive_data_buffered :
    (s : H2Stream) (bytes : List ℕ) (end_stream : Bool)
    → (receive_data s bytes end_stream).recv_buffered
      ≡ s.recv_buffered + total_length (queued_by s (gets_data bytes end_stream))
unfolding receive_data wake_recv
receive_data_buffered s bytes end_stream =
    elim (Bool-cases (ltb 0 (length bytes) && not s.body_done)) [
      | inl kept ↦ rw kept (omega arith)
      | inr dropped ↦ rw dropped (omega arith)
    ]

-- One call: the count stays right, and the bytes balance.
pub record Balanced (inherited : Text → Option Text) (s : H2Stream) (c : StreamCall) : Type 0 where
  pub counted : Counted (step inherited s c).0
  pub balance :
      (step inherited s c).1 + (step inherited s c).0.recv_buffered
      ≡ s.recv_buffered + total_length (queued_by s c)

pull_body_full :
    (s : H2Stream) (bytes : List ℕ) (rest : List (List ℕ))
    → s.recv_queue ≡ bytes ∷ rest
    → pull_body s ≡ (
      chunk bytes,
      record s { recv_queue = rest; recv_buffered = s.recv_buffered - length bytes },
    )
unfolding pull_body
pull_body_full s bytes rest e = rw (e, pull_body) refl

record Idle (s : H2Stream) : Type 0 where
  no_chunk : chunks ((pull_body s).0 ∷ []) ≡ []
  no_credit : pulled_credit (pull_body s).0 ≡ 0
  same_queue : (pull_body s).1.recv_queue ≡ s.recv_queue
  same_count : (pull_body s).1.recv_buffered ≡ s.recv_buffered

pull_body_empty : (s : H2Stream) → s.recv_queue ≡ [] → Idle s
unfolding pull_body
pull_body_empty s e = elim (Option-cases s.recv_error) [
  | inr (e', failed) ↦ record {
    no_chunk = rw (e, failed, pull_body) refl;
    no_credit = rw (e, failed, pull_body) refl;
    same_queue = rw (e, failed, pull_body) e;
    same_count = rw (e, failed, pull_body) refl;
  }
  | inl none_yet ↦ elim (Bool-cases s.recv_ended) [
    | inl ended ↦ record {
      no_chunk = rw (e, none_yet, ended, pull_body) refl;
      no_credit = rw (e, none_yet, ended, pull_body) refl;
      same_queue = rw (e, none_yet, ended, pull_body) e;
      same_count = rw (e, none_yet, ended, pull_body) refl;
    }
    | inr more ↦ record {
      no_chunk = rw (e, none_yet, more, pull_body) refl;
      no_credit = rw (e, none_yet, more, pull_body) refl;
      same_queue = rw (e, none_yet, more, pull_body) e;
      same_count = rw (e, none_yet, more, pull_body) refl;
    }
  ]
]

pull_body-Balanced :
    (inherited : Text → Option Text) (s : H2Stream) (queue : List (List ℕ))
    → s.recv_queue ≡ queue
    → Counted s
    → Balanced inherited s pulls
unfolding step
pull_body-Balanced inherited s (bytes ∷ rest) e h =
    let count : s.recv_buffered ≡ length bytes + total_length rest = h ∙ ap total_length e in
    record {
      counted = rw (pull_body_full s bytes rest e) (omega arith);
      balance = rw (pull_body_full s bytes rest e) (omega arith);
    }
pull_body-Balanced inherited s [] e h =
    let idle = pull_body_empty s e in
    record {
      counted = idle.same_count ∙ h ∙ sym (ap total_length idle.same_queue);
      balance = omega (arith, idle.no_credit, idle.same_count);
    }

pub step-Balanced :
    (inherited : Text → Option Text) (s : H2Stream) (c : StreamCall)
    → Counted s
    → Balanced inherited s c
unfolding step
step-Balanced inherited s (gets_headers raw end_stream) h =
    let (queue, buffered) = receive_headers_queue inherited s raw end_stream in
    record {
      counted = buffered ∙ h ∙ sym (ap total_length queue);
      balance = omega (arith, buffered);
    }
step-Balanced inherited s (gets_data bytes end_stream) h =
    let queue = receive_data_queue s bytes end_stream in
    let buffered = receive_data_buffered s bytes end_stream in
    let split = total_length-append s.recv_queue (queued_by s (gets_data bytes end_stream)) in
    record {
      counted = omega (arith, buffered, ap total_length queue, split, h);
      balance = omega (arith, buffered);
    }
step-Balanced inherited s (gets_reset error_code) h =
    unfold receive_reset fail wake_recv in record { counted = h; balance = omega arith }
step-Balanced inherited s (fails e) h =
    unfold fail wake_recv in record { counted = h; balance = omega arith }
step-Balanced inherited s pulls h = pull_body-Balanced inherited s s.recv_queue refl h
step-Balanced inherited s cancels h =
    unfold cancel_body in record { counted = refl; balance = omega arith }
step-Balanced inherited s discards h =
    unfold discard_buffered in record { counted = refl; balance = omega arith }

-- No credit is lost and none is returned twice: what the calls gave back, and what is still buffered,
-- is what was buffered and what was queued meanwhile. It holds through resets, cancellations and
-- discards, for a stream whose count is right at first.
pub run_credit :
    (inherited : Text → Option Text) (s : H2Stream) (cs : List StreamCall)
    → Counted s
    → (run_calls inherited s cs).1 + (run_calls inherited s cs).0.recv_buffered
      ≡ s.recv_buffered + total_length (queued inherited s cs)
unfolding run_calls queued
run_credit inherited s [] h = omega arith
run_credit inherited s (c ∷ cs) h =
    let b = step-Balanced inherited s c h in
    let s1 = (step inherited s c).0 in
    omega (
      arith,
      b.balance,
      run_credit inherited s1 cs b.counted,
      total_length-append (queued_by s c) (queued inherited s1 cs),
    )

-- The count of buffered bytes stays right through any sequence of calls.
pub run-Counted :
    (inherited : Text → Option Text) (s : H2Stream) (cs : List StreamCall)
    → Counted s
    → Counted (run_calls inherited s cs).0
unfolding run_calls
run-Counted inherited s [] h = h
run-Counted inherited s (c ∷ cs) h =
    run-Counted inherited (step inherited s c).0 cs (step-Balanced inherited s c h).counted

-- The calls that leave the queue to the reader.
abbrev pub keeps_queue : StreamCall → Bool
keeps_queue cancels = false
keeps_queue discards = false
keeps_queue _ = true

chunks-append : (xs ys : List Pulled) → chunks (xs ++ ys) ≡ chunks xs ++ chunks ys
chunks-append [] ys = refl
chunks-append (chunk bytes ∷ xs) ys = ap (◌∷◌ bytes) (chunks-append xs ys)
chunks-append (_ ∷ xs) ys = chunks-append xs ys

abbrev InOrder : (Text → Option Text) → H2Stream → StreamCall → Type 0
InOrder inherited s c =
    chunks (step inherited s c).2 ++ (step inherited s c).0.recv_queue
    ≡ s.recv_queue ++ queued_by s c

pull_body-InOrder :
    (inherited : Text → Option Text) (s : H2Stream) (queue : List (List ℕ))
    → s.recv_queue ≡ queue
    → InOrder inherited s pulls
unfolding step
pull_body-InOrder inherited s (bytes ∷ rest) e =
    rw (pull_body_full s bytes rest e) (sym (append-nil s.recv_queue ∙ e))
pull_body-InOrder inherited s [] e =
    let idle = pull_body_empty s e in
    ap (λ (x : List (List ℕ)). x ++ (pull_body s).1.recv_queue) idle.no_chunk
    ∙ idle.same_queue
    ∙ sym (append-nil s.recv_queue)

step-InOrder :
    (inherited : Text → Option Text) (s : H2Stream) (c : StreamCall)
    → keeps_queue c ≡ true
    → InOrder inherited s c
unfolding step
step-InOrder inherited s (gets_headers raw end_stream) k =
    (receive_headers_queue inherited s raw end_stream).0 ∙ sym (append-nil s.recv_queue)
step-InOrder inherited s (gets_data bytes end_stream) k = receive_data_queue s bytes end_stream
step-InOrder inherited s (gets_reset error_code) k =
    unfold receive_reset fail wake_recv in sym (append-nil s.recv_queue)
step-InOrder inherited s (fails e) k = unfold fail wake_recv in sym (append-nil s.recv_queue)
step-InOrder inherited s pulls k = pull_body-InOrder inherited s s.recv_queue refl
step-InOrder inherited s cancels k = absurd (ground arith)
step-InOrder inherited s discards k = absurd (ground arith)

-- Until the body is cancelled or discarded, the reader gets every chunk once, in the order of
-- arrival, also behind a reset or a failure: the chunks it got and the ones still queued are the
-- ones queued at first and those that were queued since.
pub run_delivery :
    (inherited : Text → Option Text) (s : H2Stream) (cs : List StreamCall)
    → All (λ c. keeps_queue c ≡ true) cs
    → chunks (run_calls inherited s cs).2 ++ (run_calls inherited s cs).0.recv_queue
      ≡ s.recv_queue ++ queued inherited s cs
unfolding run_calls queued
run_delivery inherited s [] k = sym (append-nil s.recv_queue)
run_delivery inherited s (c ∷ cs) k =
    let s1 = (step inherited s c).0 in
    let out = (step inherited s c).2 in
    let behind = run_calls inherited s1 cs in
    ap (λ (x : List (List ℕ)). x ++ behind.0.recv_queue) (chunks-append out behind.2)
    ∙ append_assoc (chunks out) (chunks behind.2) behind.0.recv_queue
    ∙ ap (◌++◌ (chunks out)) (run_delivery inherited s1 cs k.1)
    ∙ sym (append_assoc (chunks out) s1.recv_queue (queued inherited s1 cs))
    ∙ ap (λ (x : List (List ℕ)). x ++ queued inherited s1 cs) (step-InOrder inherited s c k.0)
    ∙ append_assoc s.recv_queue (queued_by s c) (queued inherited s1 cs)
