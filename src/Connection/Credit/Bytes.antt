-- ===== src/Connection/Credit/Bytes.antt =====
-- The account and the bodies through header blocks, and through the bytes that arrive.
use grpc_bridge.Prelude.{
  ℕ, Bool, Option, none, some, List, [], ◌∷◌, All, ltb, ◌==◌, if_case, option_case,
}
use grpc_bridge.Text.{Text}
use grpc_bridge.Errors.{Result, ok, err, Holds}
use grpc_bridge.Frames.Types.{
  Frame, data_frame, headers_frame, priority_frame, rst_stream_frame, settings_frame,
  push_promise_frame, ping_frame, goaway_frame, window_update_frame, continuation_frame,
  ContinuationFrame,
}
use grpc_bridge.Frames.Decoder.{FrameDecoder, push}
use grpc_bridge.Hpack.Decoder.{Header, decode}
use grpc_bridge.Connection.State.{
  H2Connection, PendingHeaderBlock, BlockKind, response_block, push_block, max_header_block_size,
}
use grpc_bridge.Connection.Teardown.{connection_error}
use grpc_bridge.Connection.Blocks.{
  Outcome, block_bytes, block_limits, deliver_headers, handle_push, deliver_block, complete_bytes,
  complete_header_block, take_fragment, on_headers, on_push_promise, on_continuation,
}
use grpc_bridge.Connection.Receive.{
  handle, dispatch, dispatch_all, stream_scope, after_dispatch, on_bytes,
}
use grpc_bridge.Connection.Receive.Sizes.{Sized, push-Sized}
use grpc_bridge.Connection.Credit.Arrivals.{
  handle_push-Credit, deliver_headers-Credit, on_rst_stream-Credit, on_goaway-Credit,
}
use grpc_bridge.Connection.Credit.Data.{on_data-Credit}
use grpc_bridge.Connection.Bodies.Arrivals.{
  handle_push-Takes, deliver_headers-Takes, on_data-Takes, on_rst_stream-Takes, on_goaway-Takes,
  on_window_update-Takes,
}
use grpc_bridge.Connection.Credit.Frames.{
  Good, GoodOutcome, reset_stream-Good, connection_error-Good, on_window_update-Credit,
  on_settings-Good, on_ping-Good,
}

after_dispatch-Good :
    (next : H2Connection → H2Connection) (o : Outcome)
    → GoodOutcome o
    → ((c : H2Connection) → Good c → Good (next c))
    → Good (after_dispatch next o)
unfolding after_dispatch
after_dispatch-Good next (c, none) h k = k c h
after_dispatch-Good next (c, some e) h k =
    option_case Good (stream_scope e) _ _ (λ e'. connection_error-Good e c h)
      (λ (id, code) e'. k _ (reset_stream-Good id code c h))

module _ (inherited : Text → Option Text) where
  deliver_block-Good :
      (pb : PendingHeaderBlock) (headers : List Header) (c : H2Connection)
      → Good c
      → Good (deliver_block inherited pb headers c)
  unfolding deliver_block
  deliver_block-Good pb headers c (h, t) = by_kind pb.kind
    where
      by_kind :
          (kind : BlockKind)
          → Good (elim kind [
            | response_block ↦ deliver_headers inherited pb.stream_id headers pb.end_stream c
            | push_block promised_id ↦ handle_push inherited promised_id headers c
          ])
      by_kind response_block = (
        deliver_headers-Credit 0 0 inherited pb.stream_id headers pb.end_stream c h,
        deliver_headers-Takes inherited pb.stream_id headers pb.end_stream c t,
      )
      by_kind (push_block promised_id) = (
        handle_push-Credit 0 0 inherited promised_id headers c h,
        handle_push-Takes inherited promised_id headers c t,
      )

  complete_header_block-Good :
      (pb : PendingHeaderBlock) (c : H2Connection)
      → Good c
      → GoodOutcome (complete_header_block inherited pb c)
  unfolding complete_header_block complete_bytes
  complete_header_block-Good pb c h =
      let (d, result) = decode c.decoder (block_bytes pb.fragments) (block_limits pb.stream_id) in
      by_result (record c { pending_header_block = none; decoder = d }) h result
    where
      by_result :
          (c1 : H2Connection)
          → Good c1
          → (result : Result (List Header))
          → GoodOutcome (elim result [
            | err e ↦ (c1, some e)
            | ok headers ↦ (deliver_block inherited pb headers c1, none)
          ])
      by_result c1 h1 (err e) = h1
      by_result c1 h1 (ok headers) = deliver_block-Good pb headers c1 h1

  take_fragment-Good :
      (pb : PendingHeaderBlock) (end_headers : Bool) (c : H2Connection)
      → Good c
      → GoodOutcome (take_fragment inherited pb end_headers c)
  unfolding take_fragment
  take_fragment-Good pb end_headers c h =
      let c1 : H2Connection = record c { pending_header_block = some pb } in
      if_case GoodOutcome (ltb max_header_block_size pb.size) _ _ (λ e. h)
        (λ e.
          if_case GoodOutcome end_headers _ _ (λ e'. complete_header_block-Good pb c1 h) (λ e'. h))

  on_continuation-Good :
      (f : ContinuationFrame) (c : H2Connection)
      → Good c
      → GoodOutcome (on_continuation inherited f c)
  unfolding on_continuation
  on_continuation-Good f c h =
      option_case GoodOutcome c.pending_header_block _ _ (λ e. h)
        (λ pb e.
          if_case GoodOutcome (pb.stream_id == f.stream_id) _ _
            (λ e'. take_fragment-Good _ f.end_headers c h) (λ e'. h))

  module _ (now : ℕ) where
    handle-Good :
        (f : Frame) (c : H2Connection) → Sized f → Good c → GoodOutcome (handle inherited now f c)
    unfolding handle on_headers on_push_promise
    handle-Good (settings_frame f) c z h = on_settings-Good f c h
    handle-Good (headers_frame f) c z h = take_fragment-Good _ f.end_headers c h
    handle-Good (continuation_frame f) c z h = on_continuation-Good f c h
    handle-Good (push_promise_frame f) c z h = take_fragment-Good _ f.end_headers c h
    handle-Good (data_frame f) c z (h, t) = (on_data-Credit 0 0 f c z t h, on_data-Takes f c t)
    handle-Good (rst_stream_frame f) c z (h, t) =
        (on_rst_stream-Credit 0 0 f c h, on_rst_stream-Takes f c t)
    handle-Good (window_update_frame f) c z (h, t) =
        (on_window_update-Credit f c h, on_window_update-Takes f c t)
    handle-Good (ping_frame f) c z h = on_ping-Good now f c h
    handle-Good (goaway_frame f) c z (h, t) = (on_goaway-Credit 0 0 f c h, on_goaway-Takes f c t)
    handle-Good (priority_frame f) c z h = h

    dispatch-Good :
        (f : Frame) (c : H2Connection) → Sized f → Good c → GoodOutcome (dispatch inherited now f c)
    unfolding dispatch
    dispatch-Good f c z h =
        if_case GoodOutcome _ _ (handle inherited now f c) (λ e. h) (λ e. handle-Good f c z h)

    dispatch_all-Good :
        (frames : List Frame) (c : H2Connection)
        → All Sized frames
        → Good c
        → Good (dispatch_all inherited now frames c)
    unfolding dispatch_all
    dispatch_all-Good [] c z h = h
    dispatch_all-Good (f ∷ frames) c z h =
        after_dispatch-Good (dispatch_all inherited now frames) (dispatch inherited now f c)
          (dispatch-Good f c z.0 h) (λ c1 h1. dispatch_all-Good frames c1 z.1 h1)

    pub on_bytes-Good :
        (chunk : List ℕ) (c : H2Connection) → Good c → Good (on_bytes inherited now chunk c)
    unfolding on_bytes
    on_bytes-Good chunk c h =
        by_push (push c.frame_decoder chunk) (push-Sized c.frame_decoder chunk)
      where
        by_push :
            (r : Result (List Frame × FrameDecoder))
            → Holds (λ (x : List Frame × FrameDecoder). All Sized x.0) r
            → Good (elim r [
              | err e ↦ connection_error e c
              | ok (frames, d) ↦ dispatch_all inherited now frames (record c { frame_decoder = d })
            ])
        by_push (err e) z = connection_error-Good e c h
        by_push (ok (frames, d)) z = dispatch_all-Good frames _ z h
