-- ===== src/Connection/Pending.antt =====
-- The header block that is pending never grows past its limit.
use mathlib.Core.Path.{subst}
use grpc_bridge.Prelude.{
  ℕ, ◌+◌, ◌≤◌, ◌≡◌, refl, sym, ap, ◌∙◌, ◌⊎◌, inl, inr, Bool, true, false, not, ◌&&◌, Option, none,
  some, List, [], ◌∷◌, ◌++◌, length, ltb, ◌==◌, if_case, option_case, arith,
}
use grpc_bridge.Text.{Text}
use grpc_bridge.Errors.{Error, Result, ok, err, connection_failure, protocol_error}
use grpc_bridge.Frames.Types.{
  Frame, data_frame, headers_frame, priority_frame, rst_stream_frame, settings_frame,
  push_promise_frame, ping_frame, goaway_frame, window_update_frame, continuation_frame,
  ContinuationFrame,
}
use grpc_bridge.Frames.Decoder.{FrameDecoder, push}
use grpc_bridge.Hpack.Decoder.{Header, decode}
use grpc_bridge.Connection.State.{H2Connection, send, PendingHeaderBlock, max_header_block_size}
use grpc_bridge.Connection.Teardown.{wake_stream_slots, connection_error}
use grpc_bridge.Connection.Blocks.{
  Outcome, block_bytes, block_limits, deliver_block, complete_bytes, complete_header_block,
  take_fragment, on_headers, on_push_promise, on_continuation,
}
use grpc_bridge.Connection.Receive.{
  on_window_update, on_settings, handle, is_pending, is_continuation, on_data, dispatch,
  dispatch_all, stream_scope, after_dispatch, on_bytes,
}
use grpc_bridge.Connection.Walk.{Kept, reset_stream-Kept, connection_error-Kept}
use grpc_bridge.Connection.Walk.Arrivals.{
  on_data-Kept, on_rst_stream-Kept, on_window_update-Kept, on_settings-Kept, on_ping-Kept,
  on_goaway-Kept,
}
use grpc_bridge.Stream.Credit.{total_length, total_length-append}
use grpc_bridge.Connection.Teardown.{
  goaway, code_of, begin_close, closed_by, destroy, wake_stream_slots,
}
use grpc_bridge.Connection.Events.{Event, happen_all}
use grpc_bridge.Connection.Walk.{View}
use grpc_bridge.Connection.Walk.Calls.{happen_all-Kept}
use grpc_bridge.Connection.Walk.Bytes.{deliver_block-Kept, on_continuation-Kept}

-- A pending block whose size is right and within the bound.
abbrev pub IsBounded : Option PendingHeaderBlock → Type 0
IsBounded none = Unit {0}
IsBounded (some pb) = (pb.size ≡ total_length pb.fragments) × (pb.size ≤ max_header_block_size)

abbrev pub BlockBounded : H2Connection → Type 0
BlockBounded c = (c.closed_flag ≡ true) ⊎ IsBounded c.pending_header_block

abbrev ViewBounded : View → Type 0
ViewBounded (closed, error, goaway, sent, pending) = (closed ≡ true) ⊎ IsBounded pending

send-BlockBounded : (c : H2Connection) (f : Frame) → BlockBounded c → BlockBounded (send c f)
unfolding send
send-BlockBounded c f h = if_case BlockBounded c.closed_flag c _ (λ e. h) (λ e. h)

block-Kept : Kept BlockBounded
block-Kept = record {
  same = λ c c' e h. subst ViewBounded e h;
  sends = send-BlockBounded;
  drains = λ c h. h;
  closes = λ e c live h. inl refl;
}

send-closed : (c : H2Connection) (f : Frame) → c.closed_flag ≡ true → (send c f).closed_flag ≡ true
unfolding send
send-closed c f h =
    if_case (λ (x : H2Connection). x.closed_flag ≡ true) c.closed_flag c _ (λ e. h) (λ e. h)

abbrev IsClosed : H2Connection → Type 0
IsClosed c = c.closed_flag ≡ true

IsClosed-Kept : Kept IsClosed
IsClosed-Kept = record {
  same = λ c c' e h. sym (ap (λ (v : View). v.0) e) ∙ h;
  sends = send-closed;
  drains = λ c h. h;
  closes = λ e c live h. refl;
}

-- What a handler leaves: a bounded block, or an error that closes the connection.
abbrev AfterBlock : Outcome → Type 0
AfterBlock (c, none) = BlockBounded c
AfterBlock (c, some e) = BlockBounded c ⊎ (stream_scope e ≡ none)

closed_after_begin : (c : H2Connection) → c.closed_flag ≡ true → (begin_close c).closed_flag ≡ true
unfolding begin_close
closed_after_begin c h =
    if_case (λ (x : H2Connection). x.closed_flag ≡ true) c.closed_flag c _ (λ e. h)
      (λ e. send-closed c _ h)

closed_after_wake :
    (c : H2Connection) → c.closed_flag ≡ true → (wake_stream_slots c).closed_flag ≡ true
unfolding wake_stream_slots
closed_after_wake c h =
    if_case (λ (x : H2Connection). x.closed_flag ≡ true) _ (begin_close c) c
      (λ e. closed_after_begin c h) (λ e. h)

closed_after_destroy : (e : Error) (c : H2Connection) → (destroy e c).closed_flag ≡ true
unfolding destroy
closed_after_destroy e c =
    if_case (λ (x : H2Connection). x.closed_flag ≡ true) c.closed_flag _ _ (λ e'. e')
      (λ e'. closed_after_wake (closed_by e c) refl)

closed_after_error : (e : Error) (c : H2Connection) → (connection_error e c).closed_flag ≡ true
unfolding connection_error
closed_after_error e c = closed_after_destroy e (send c (goaway c (code_of e)))

after_dispatch-BlockBounded :
    (next : H2Connection → H2Connection) (o : Outcome)
    → AfterBlock o
    → ((c : H2Connection) → BlockBounded c → BlockBounded (next c))
    → BlockBounded (after_dispatch next o)
unfolding after_dispatch
after_dispatch-BlockBounded next (c, none) h j = j c h
after_dispatch-BlockBounded next (c, some e) (inr scope) j =
    rw (scope, after_dispatch) (inl (closed_after_error e c))
after_dispatch-BlockBounded next (c, some e) (inl h) j =
    option_case BlockBounded (stream_scope e) _ _ (λ e'. inl (closed_after_error e c))
      (λ (id, code) e'. j _ (reset_stream-Kept BlockBounded block-Kept id code c h))

plain : (o : Outcome) → BlockBounded o.0 → AfterBlock o
plain (c, none) h = h
plain (c, some e) h = inl h

module _ (inherited : Text → Option Text) where
  complete_header_block-AfterBlock :
      (pb : PendingHeaderBlock) (c : H2Connection)
      → AfterBlock (complete_header_block inherited pb c)
  unfolding complete_header_block complete_bytes
  complete_header_block-AfterBlock pb c =
      let (d, result) = decode c.decoder (block_bytes pb.fragments) (block_limits pb.stream_id) in
      by_result (record c { pending_header_block = none; decoder = d }) (inr tt) result
    where
      by_result :
          (c1 : H2Connection)
          → BlockBounded c1
          → (result : Result (List Header))
          → AfterBlock (elim result [
            | err e ↦ (c1, some e)
            | ok headers ↦ (deliver_block inherited pb headers c1, none)
          ])
      by_result c1 h1 (err e) = inl h1
      by_result c1 h1 (ok headers) =
          deliver_block-Kept BlockBounded block-Kept inherited pb headers c1 h1

  take_fragment-AfterBlock :
      (pb : PendingHeaderBlock) (end_headers : Bool) (c : H2Connection)
      → pb.size ≡ total_length pb.fragments
      → AfterBlock (take_fragment inherited pb end_headers c)
  unfolding take_fragment
  take_fragment-AfterBlock pb end_headers c sized =
      if_case AfterBlock (ltb max_header_block_size pb.size) _ _ (λ e. inr refl)
        (λ e.
          if_case AfterBlock end_headers _ _
            (λ e'.
              complete_header_block-AfterBlock pb (record c { pending_header_block = some pb }))
            (λ e'. inr (sized, within pb.size e)))
    where
      within : (n : ℕ) → ltb max_header_block_size n ≡ false → n ≤ max_header_block_size
      within n e = ground arith

  on_continuation-AfterBlock :
      (f : ContinuationFrame) (c : H2Connection)
      → BlockBounded c
      → AfterBlock (on_continuation inherited f c)
  unfolding on_continuation
  on_continuation-AfterBlock f c (inl closed) =
      plain (on_continuation inherited f c)
        (inl (on_continuation-Kept IsClosed IsClosed-Kept inherited (λ c1 o h. h) f c closed))
  on_continuation-AfterBlock f c (inr bounded) =
      option_case AfterBlock c.pending_header_block _ _ (λ e. inr refl)
        (λ pb e.
          if_case AfterBlock (pb.stream_id == f.stream_id) _ _
            (λ e'.
              take_fragment-AfterBlock _ f.end_headers c
                (grown pb f.header_block_fragment (subst IsBounded e bounded).0))
            (λ e'. inr refl))
    where
      grown :
          (pb : PendingHeaderBlock) (fragment : List ℕ)
          → pb.size ≡ total_length pb.fragments
          → pb.size + length fragment ≡ total_length (pb.fragments ++ fragment ∷ [])
      grown pb fragment e = omega (arith, e, total_length-append pb.fragments (fragment ∷ []))

  module _ (now : ℕ) where
    handle-AfterBlock :
        (f : Frame) (c : H2Connection) → BlockBounded c → AfterBlock (handle inherited now f c)
    unfolding handle on_headers on_push_promise
    handle-AfterBlock (settings_frame f) c h =
        plain (on_settings f c) (on_settings-Kept BlockBounded block-Kept f c h)
    handle-AfterBlock (headers_frame f) c h =
        take_fragment-AfterBlock _ f.end_headers c (omega arith)
    handle-AfterBlock (continuation_frame f) c h = on_continuation-AfterBlock f c h
    handle-AfterBlock (push_promise_frame f) c h =
        take_fragment-AfterBlock _ f.end_headers c (omega arith)
    handle-AfterBlock (data_frame f) c h =
        plain (on_data f c) (on_data-Kept BlockBounded block-Kept f c h)
    handle-AfterBlock (rst_stream_frame f) c h = on_rst_stream-Kept BlockBounded block-Kept f c h
    handle-AfterBlock (window_update_frame f) c h =
        plain (on_window_update f c) (on_window_update-Kept BlockBounded block-Kept f c h)
    handle-AfterBlock (ping_frame f) c h = on_ping-Kept BlockBounded block-Kept now f c h
    handle-AfterBlock (goaway_frame f) c h = on_goaway-Kept BlockBounded block-Kept f c h
    handle-AfterBlock (priority_frame f) c h = h

    dispatch_all-BlockBounded :
        (frames : List Frame) (c : H2Connection)
        → BlockBounded c
        → BlockBounded (dispatch_all inherited now frames c)
    unfolding dispatch_all dispatch
    dispatch_all-BlockBounded [] c h = h
    dispatch_all-BlockBounded (f ∷ frames) c h =
        after_dispatch-BlockBounded (dispatch_all inherited now frames) (dispatch inherited now f c)
          (if_case AfterBlock (is_pending c.pending_header_block && not (is_continuation f))
            (c, some (connection_failure protocol_error)) (handle inherited now f c) (λ e. inl h)
            (λ e. handle-AfterBlock f c h))
          (λ c1 h1. dispatch_all-BlockBounded frames c1 h1)

    on_bytes-BlockBounded :
        (chunk : List ℕ) (c : H2Connection)
        → BlockBounded c
        → BlockBounded (on_bytes inherited now chunk c)
    unfolding on_bytes
    on_bytes-BlockBounded chunk c h = by_push (push c.frame_decoder chunk)
      where
        by_push :
            (r : Result (List Frame × FrameDecoder))
            → BlockBounded (elim r [
              | err e ↦ connection_error e c
              | ok (frames, d) ↦ dispatch_all inherited now frames (record c { frame_decoder = d })
            ])
        by_push (err e) = connection_error-Kept BlockBounded block-Kept e c h
        by_push (ok (frames, d)) = dispatch_all-BlockBounded frames _ h

-- However the peer splits its header blocks, a connection that is not closed holds no more than the
-- 1 MiB of the limit for a block that has not ended, and counts its bytes rightly: from a connection
-- with no block pending, through any events.
pub happen_all-BlockBounded :
    (inherited : Text → Option Text) (to_lower to_upper : Text → Text) (events : List Event)
    (c : H2Connection)
    → c.pending_header_block ≡ none
    → BlockBounded (happen_all inherited to_lower to_upper events c)
happen_all-BlockBounded inherited to_lower to_upper events c e =
    happen_all-Kept BlockBounded block-Kept inherited to_lower to_upper
      (on_bytes-BlockBounded inherited) events c (inr (subst IsBounded (sym e) tt))
