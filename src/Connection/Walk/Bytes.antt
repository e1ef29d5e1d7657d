-- ===== src/Connection/Walk/Bytes.antt =====
-- The walk through header blocks and through the bytes that arrive.
use grpc_bridge.Prelude.{
  ℕ, refl, Bool, Option, none, some, List, [], ◌∷◌, ltb, ◌==◌, if_case, option_case,
}
use grpc_bridge.Text.{Text}
use grpc_bridge.Errors.{Result, ok, err}
use grpc_bridge.Frames.Types.{
  Frame, data_frame, headers_frame, priority_frame, rst_stream_frame, settings_frame,
  push_promise_frame, ping_frame, goaway_frame, window_update_frame, continuation_frame,
  ContinuationFrame,
}
use grpc_bridge.Frames.Decoder.{FrameDecoder, push}
use grpc_bridge.Hpack.Decoder.{Header, decode}
use grpc_bridge.Connection.State.{
  H2Connection, PendingHeaderBlock, BlockKind, response_block, push_block, max_header_block_size,
}
use grpc_bridge.Connection.Teardown.{connection_error}
use grpc_bridge.Connection.Blocks.{
  Outcome, block_bytes, block_limits, deliver_headers, handle_push, deliver_block, complete_bytes,
  complete_header_block, take_fragment, on_headers, on_push_promise, on_continuation,
}
use grpc_bridge.Connection.Receive.{
  handle, dispatch, dispatch_all, stream_scope, after_dispatch, on_bytes,
}
use grpc_bridge.Connection.Walk.{
  Kept, reset_stream-Kept, connection_error-Kept, handle_push-Kept, deliver_headers-Kept,
}
use grpc_bridge.Connection.Walk.Arrivals.{
  on_data-Kept, on_rst_stream-Kept, on_window_update-Kept, on_settings-Kept, on_ping-Kept,
  on_goaway-Kept,
}

module _ (P : H2Connection → Type 0) (k : Kept P) where
  abbrev Out : Outcome → Type 0
  Out o = P o.0

  after_dispatch-Kept :
      (next : H2Connection → H2Connection) (o : Outcome)
      → Out o
      → ((c : H2Connection) → P c → P (next c))
      → P (after_dispatch next o)
  unfolding after_dispatch
  after_dispatch-Kept next (c, none) h j = j c h
  after_dispatch-Kept next (c, some e) h j =
      option_case P (stream_scope e) _ _ (λ e'. connection_error-Kept P k e c h)
        (λ (id, code) e'. j _ (reset_stream-Kept P k id code c h))

  module _ (inherited : Text → Option Text) where
    pub deliver_block-Kept :
        (pb : PendingHeaderBlock) (headers : List Header) (c : H2Connection)
        → P c
        → P (deliver_block inherited pb headers c)
    unfolding deliver_block
    deliver_block-Kept pb headers c h = by_kind pb.kind
      where
        by_kind :
            (kind : BlockKind)
            → P (elim kind [
              | response_block ↦ deliver_headers inherited pb.stream_id headers pb.end_stream c
              | push_block promised_id ↦ handle_push inherited promised_id headers c
            ])
        by_kind response_block =
            deliver_headers-Kept P k inherited pb.stream_id headers pb.end_stream c h
        by_kind (push_block promised_id) = handle_push-Kept P k inherited promised_id headers c h

    -- `free`: the predicate does not look at the pending block.
    module _
        (free : (c : H2Connection) (o : Option PendingHeaderBlock)
          → P c
          → P (record c { pending_header_block = o })) where
      complete_header_block-Kept :
          (pb : PendingHeaderBlock) (c : H2Connection)
          → P c
          → Out (complete_header_block inherited pb c)
      unfolding complete_header_block complete_bytes
      complete_header_block-Kept pb c h =
          let (d, result) =
            decode c.decoder (block_bytes pb.fragments) (block_limits pb.stream_id) in
          by_result (record c { pending_header_block = none; decoder = d })
            (k.same _ _ refl (free c none h)) result
        where
          by_result :
              (c1 : H2Connection)
              → P c1
              → (result : Result (List Header))
              → Out (elim result [
                | err e ↦ (c1, some e)
                | ok headers ↦ (deliver_block inherited pb headers c1, none)
              ])
          by_result c1 h1 (err e) = h1
          by_result c1 h1 (ok headers) = deliver_block-Kept pb headers c1 h1

      take_fragment-Kept :
          (pb : PendingHeaderBlock) (end_headers : Bool) (c : H2Connection)
          → P c
          → Out (take_fragment inherited pb end_headers c)
      unfolding take_fragment
      take_fragment-Kept pb end_headers c h =
          let h1 = free c (some pb) h in
          if_case Out (ltb max_header_block_size pb.size) _ _ (λ e. h1)
            (λ e. if_case Out end_headers _ _ (λ e'. complete_header_block-Kept pb _ h1) (λ e'. h1))

      pub on_continuation-Kept :
          (f : ContinuationFrame) (c : H2Connection) → P c → Out (on_continuation inherited f c)
      unfolding on_continuation
      on_continuation-Kept f c h =
          option_case Out c.pending_header_block _ _ (λ e. h)
            (λ pb e.
              if_case Out (pb.stream_id == f.stream_id) _ _
                (λ e'. take_fragment-Kept _ f.end_headers c h) (λ e'. h))

      module _ (now : ℕ) where
        handle-Kept : (f : Frame) (c : H2Connection) → P c → Out (handle inherited now f c)
        unfolding handle on_headers on_push_promise
        handle-Kept (settings_frame f) c h = on_settings-Kept P k f c h
        handle-Kept (headers_frame f) c h = take_fragment-Kept _ f.end_headers c h
        handle-Kept (continuation_frame f) c h = on_continuation-Kept f c h
        handle-Kept (push_promise_frame f) c h = take_fragment-Kept _ f.end_headers c h
        handle-Kept (data_frame f) c h = on_data-Kept P k f c h
        handle-Kept (rst_stream_frame f) c h = on_rst_stream-Kept P k f c h
        handle-Kept (window_update_frame f) c h = on_window_update-Kept P k f c h
        handle-Kept (ping_frame f) c h = on_ping-Kept P k now f c h
        handle-Kept (goaway_frame f) c h = on_goaway-Kept P k f c h
        handle-Kept (priority_frame f) c h = h

        dispatch_all-Kept :
            (frames : List Frame) (c : H2Connection) → P c → P (dispatch_all inherited now frames c)
        unfolding dispatch_all dispatch
        dispatch_all-Kept [] c h = h
        dispatch_all-Kept (f ∷ frames) c h =
            after_dispatch-Kept (dispatch_all inherited now frames) (dispatch inherited now f c)
              (if_case Out _ _ (handle inherited now f c) (λ e. h) (λ e. handle-Kept f c h))
              (λ c1 h1. dispatch_all-Kept frames c1 h1)

        pub on_bytes-Kept :
            (chunk : List ℕ) (c : H2Connection) → P c → P (on_bytes inherited now chunk c)
        unfolding on_bytes
        on_bytes-Kept chunk c h = by_push (push c.frame_decoder chunk)
          where
            by_push :
                (r : Result (List Frame × FrameDecoder))
                → P (elim r [
                  | err e ↦ connection_error e c
                  | ok (frames, d) ↦
                      dispatch_all inherited now frames (record c { frame_decoder = d })
                ])
            by_push (err e) = connection_error-Kept P k e c h
            by_push (ok (frames, d)) = dispatch_all-Kept frames _ (k.same c _ refl h)
