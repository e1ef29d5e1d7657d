-- ===== src/Stream/Ends.antt =====
-- How the body of a stream ends.
use grpc_bridge.Prelude.{
  ℕ, ◌≡◌, ◌≢◌, refl, sym, ap, ◌∙◌, Bool, Option, none, some, List, [], ◌∷◌, All, All-append, arith,
}
use grpc_bridge.Text.{Text}
use grpc_bridge.Errors.{
  Error, ErrorCode, error_code_name, error_code_name_seven, h2, refused, refused_stream,
  protocol_error,
}
use grpc_bridge.Hpack.Decoder.{Header}
use grpc_bridge.Stream.State.{
  H2Stream, wake_recv, end_body, receive_headers, receive_data, receive_reset, reset_name,
  reset_error, fail, discard_buffered, Pulled, chunk, fails_with, pull_body, cancel_body,
}
use grpc_bridge.Stream.Steps.{
  StreamCall, gets_headers, gets_data, gets_reset, fails, pulls, cancels, discards, step, run_calls,
}

-- What the reader of a failed stream may see: chunks, and the error; no clean end, and no wait.
pub data ShowsFailure (e : Error) : Pulled → Type 0 where
  shows_chunk : (bytes : List ℕ) → ShowsFailure e (chunk bytes)
  shows_error : ShowsFailure e (fails_with e)

abbrev pub HasFailed : Error → H2Stream → Type 0
HasFailed e s = s.recv_error ≡ some e

receive_headers-HasFailed :
    (e : Error) (inherited : Text → Option Text) (s : H2Stream) (raw : List Header)
    (end_stream : Bool)
    → HasFailed e s
    → HasFailed e (receive_headers inherited s raw end_stream)
unfolding receive_headers end_body wake_recv
receive_headers-HasFailed e inherited s raw end_stream h = ground (arith, h)

fail-HasFailed : (e e' : Error) (s : H2Stream) → HasFailed e s → HasFailed e (fail s e')
unfolding fail wake_recv
fail-HasFailed e e' s h = rw h refl

pull_body_error :
    (e : Error) (s : H2Stream) (queue : List (List ℕ))
    → s.recv_queue ≡ queue
    → HasFailed e s
    → ShowsFailure e (pull_body s).0 × HasFailed e (pull_body s).1
unfolding pull_body
pull_body_error e s (bytes ∷ rest) q h = rw (q, pull_body) (shows_chunk bytes, h)
pull_body_error e s [] q h = rw (q, h, pull_body) (shows_error, h)

receive_data-HasFailed :
    (e : Error) (s : H2Stream) (bytes : List ℕ) (end_stream : Bool)
    → HasFailed e s
    → HasFailed e (receive_data s bytes end_stream)
unfolding receive_data wake_recv
receive_data-HasFailed e s bytes end_stream h = ground (arith, h)

step-HasFailed :
    (e : Error) (inherited : Text → Option Text) (s : H2Stream) (c : StreamCall)
    → HasFailed e s
    → HasFailed e (step inherited s c).0 × All (ShowsFailure e) (step inherited s c).2
unfolding step
step-HasFailed e inherited s (gets_headers raw end_stream) h =
    (receive_headers-HasFailed e inherited s raw end_stream h, tt)
step-HasFailed e inherited s (gets_data bytes end_stream) h =
    (receive_data-HasFailed e s bytes end_stream h, tt)
step-HasFailed e inherited s (gets_reset error_code) h =
    unfold receive_reset in (fail-HasFailed e _ s h, tt)
step-HasFailed e inherited s (fails e') h = (fail-HasFailed e e' s h, tt)
step-HasFailed e inherited s pulls h =
    let (shown, kept) = pull_body_error e s s.recv_queue refl h in (kept, (shown, tt))
step-HasFailed e inherited s cancels h = unfold cancel_body in (h, tt)
step-HasFailed e inherited s discards h = unfold discard_buffered in (h, tt)

stays-ShowsFailure :
    (e : Error) (inherited : Text → Option Text) (s : H2Stream) (cs : List StreamCall)
    → HasFailed e s
    → All (ShowsFailure e) (run_calls inherited s cs).2
unfolding run_calls
stays-ShowsFailure e inherited s [] h = tt
stays-ShowsFailure e inherited s (c ∷ cs) h =
    let (kept, shown) = step-HasFailed e inherited s c h in
    let s1 = (step inherited s c).0 in
    All-append (ShowsFailure e) (step inherited s c).2 (run_calls inherited s1 cs).2 shown
      (stays-ShowsFailure e inherited s1 cs kept)

-- The calls that fail a stream of this id, and the error that each is for: the one that it was given,
-- or the code of a RST_STREAM, of which REFUSED_STREAM may be tried again and a number that has
-- no name counts as PROTOCOL_ERROR.
pub data FailsBy (id : ℕ) (call : StreamCall) (e : Error) : Type 0 where
  by_fail : call ≡ fails e → FailsBy id call e
  by_refusal :
      call ≡ gets_reset 7
      → e ≡ h2 (record { code = refused_stream; stream_id = some id; retry = some refused })
      → FailsBy id call e
  by_reset :
      (error_code : ℕ) (name : ErrorCode)
      → call ≡ gets_reset error_code
      → error_code_name error_code ≡ some name
      → name ≢ refused_stream
      → e ≡ h2 (record { code = name; stream_id = some id; retry = none })
      → FailsBy id call e
  by_unknown_reset :
      (error_code : ℕ)
      → call ≡ gets_reset error_code
      → error_code_name error_code ≡ none
      → e ≡ h2 (record { code = protocol_error; stream_id = some id; retry = none })
      → FailsBy id call e

fail_first : (s : H2Stream) (e : Error) → s.recv_error ≡ none → HasFailed e (fail s e)
unfolding fail wake_recv
fail_first s e h = rw h refl

plain_reset :
    (id : ℕ) (name : ErrorCode)
    → name ≢ refused_stream
    → reset_error id name ≡ h2 (record { code = name; stream_id = some id; retry = none })
plain_reset id refused_stream other = absurd (other refl)
plain_reset id _ other = refl

reset_first :
    (s : H2Stream) (error_code : ℕ) (e : Error)
    → s.recv_error ≡ none
    → reset_error s.id (reset_name error_code) ≡ e
    → HasFailed e (receive_reset s error_code)
unfolding receive_reset
reset_first s error_code e h is =
    fail_first s (reset_error s.id (reset_name error_code)) h ∙ ap some is

named_reset :
    (error_code : ℕ) (name : ErrorCode)
    → error_code_name error_code ≡ some name
    → reset_name error_code ≡ name
named_reset error_code name e = rw (e, reset_name) refl

unnamed_reset :
    (error_code : ℕ) → error_code_name error_code ≡ none → reset_name error_code ≡ protocol_error
unnamed_reset error_code e = rw (e, reset_name) refl

failed_by :
    (inherited : Text → Option Text) (s : H2Stream) (call : StreamCall) (e : Error)
    → s.recv_error ≡ none
    → FailsBy s.id call e
    → HasFailed e (step inherited s call).0 × All (ShowsFailure e) (step inherited s call).2
unfolding step
failed_by inherited s call e h (by_fail c) = rw c (fail_first s e h, tt)
failed_by inherited s call e h (by_refusal c is) = rw c (
  reset_first s 7 e h
      (ap (reset_error s.id) (named_reset 7 refused_stream error_code_name_seven) ∙ sym is),
  tt,
)
failed_by inherited s call e h (by_reset error_code name c named other is) = rw c (
  reset_first s error_code e h (
      ap (reset_error s.id) (named_reset error_code name named)
      ∙ plain_reset s.id name other
      ∙ sym is),
  tt,
)
failed_by inherited s call e h (by_unknown_reset error_code c unnamed is) = rw c (
  reset_first s error_code e h (ap (reset_error s.id) (unnamed_reset error_code unnamed) ∙ sym is),
  tt,
)

-- A call that fails a stream that had not failed before, be it `fail` or a RST_STREAM, shows its error
-- to the reader: from then on, whatever calls follow, each pull gives a chunk that was buffered or
-- just this error, never the clean end, a wait or a later error.
pub run-ShowsFailure :
    (inherited : Text → Option Text) (s : H2Stream) (call : StreamCall) (e : Error)
    (cs : List StreamCall)
    → s.recv_error ≡ none
    → FailsBy s.id call e
    → All (ShowsFailure e) (run_calls inherited s (call ∷ cs)).2
unfolding run_calls
run-ShowsFailure inherited s call e cs h f =
    let (failed, shown) = failed_by inherited s call e h f in
    let s1 = (step inherited s call).0 in
    All-append (ShowsFailure e) (step inherited s call).2 (run_calls inherited s1 cs).2 shown
      (stays-ShowsFailure e inherited s1 cs failed)
