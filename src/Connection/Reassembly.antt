-- ===== src/Connection/Reassembly.antt =====
-- What `sendHeaders` splits and what `dispatch` puts together again.
pub mod Continuations
use grpc_bridge.Prelude.{
  ℕ, zero, suc, ◌+◌, ◌≤◌, ◌<◌, ◌≡◌, refl, sym, ap, ◌∙◌, inl, inr, Bool, true, false, not, ◌&&◌,
  Option, none, some, List, [], ◌∷◌, ◌++◌, length, take, drop, ltb, leb, ◌==◌, if◌then◌else◌,
  Bool-cases, length-take, length-drop, take-append-drop, take_all, drop_all, append-nil,
  append_assoc, ==_iff, arith,
}
use grpc_bridge.Text.{Text}
use grpc_bridge.Bytes.{concat_bytes}
use grpc_bridge.Errors.{connection_failure, protocol_error}
use grpc_bridge.Frames.Types.{Frame, headers_frame, continuation_frame}
use grpc_bridge.Connection.State.{
  H2Connection, PendingHeaderBlock, response_block, max_header_block_size,
}
use grpc_bridge.Connection.Blocks.{
  Outcome, block_bytes, complete_bytes, complete_header_block, deliver_block, take_fragment,
  on_headers, on_continuation,
}
use grpc_bridge.Connection.Receive.{
  is_pending, is_continuation, handle, dispatch, after_dispatch, dispatch_all,
}
use grpc_bridge.Connection.Requests.{continuations, header_frames}
use Continuations.{block_of, whole, take_fragment_last, take_fragment_more, dispatch_continuations}

concat_bytes_one : (b : List ℕ) → concat_bytes (b ∷ []) ≡ b
unfolding concat_bytes
concat_bytes_one b = append-nil b

-- A HEADERS frame of a response.
abbrev pub head_frame : ℕ → List ℕ → Bool → Bool → Frame
head_frame id fragment end_stream end_headers = headers_frame (record {
  stream_id = id;
  header_block_fragment = fragment;
  end_stream = end_stream;
  end_headers = end_headers;
  priority = none;
})

dispatch_idle :
    (inherited : Text → Option Text) (now : ℕ) (f : Frame) (c : H2Connection)
    → c.pending_header_block ≡ none
    → dispatch inherited now f c ≡ handle inherited now f c
unfolding dispatch
dispatch_idle inherited now f c idle =
    ap
      (λ (o : Option PendingHeaderBlock).
        if is_pending o && not (is_continuation f)
        then (c, some (connection_failure protocol_error))
        else handle inherited now f c)
      idle

module _ (inherited : Text → Option Text) (now id : ℕ) (end_stream : Bool) (c : H2Connection)
    (idle : c.pending_header_block ≡ none) where
  dispatch_head :
      (fragment : List ℕ) (end_headers : Bool)
      → dispatch inherited now (head_frame id fragment end_stream end_headers) c
        ≡ take_fragment inherited
            (block_of id end_stream (fragment ∷ []) (length fragment))
            end_headers
            c
  unfolding handle on_headers
  dispatch_head fragment end_headers =
      dispatch_idle inherited now (head_frame id fragment end_stream end_headers) c idle

  dispatch_whole :
      (block : List ℕ)
      → length block ≤ max_header_block_size
      → dispatch_all inherited now (head_frame id block end_stream true ∷ []) c
        ≡ after_dispatch (λ x. x) (whole inherited now id end_stream c block)
  unfolding dispatch_all
  dispatch_whole block fits = ap (after_dispatch (λ x. x)) (
      dispatch_head block true
      ∙ take_fragment_last inherited now id end_stream c (block ∷ []) (length block)
          c.pending_header_block fits
      ∙ ap (whole inherited now id end_stream c) (concat_bytes_one block))

  dispatch_split :
      (max : ℕ) (block : List ℕ)
      → 0 < max
      → max < length block
      → length block ≤ max_header_block_size
      → dispatch_all inherited now
          (head_frame id (take max block) end_stream false
            ∷ continuations (length block) max id (drop max block))
          c
        ≡ after_dispatch (λ x. x) (whole inherited now id end_stream c block)
  unfolding dispatch_all after_dispatch
  dispatch_split max block positive long fits =
      let behind = continuations (length block) max id (drop max block) in
      let n = length (take max block) in
      ap (after_dispatch (dispatch_all inherited now behind)) (
        dispatch_head (take max block) false
        ∙ take_fragment_more inherited now id end_stream c (take max block ∷ []) n
            c.pending_header_block (omega (arith, length-take max block)))
      ∙ dispatch_continuations inherited now id end_stream c (length block) max (drop max block)
          (take max block ∷ []) n positive (omega (arith, length-drop max block))
          (omega (arith, length-drop max block))
          (omega (arith, length-drop max block, length-take max block))
      ∙ ap (λ (b : List ℕ). after_dispatch (λ x. x) (whole inherited now id end_stream c b))
          (ap (λ (b : List ℕ). b ++ drop max block) (concat_bytes_one (take max block))
            ∙ take-append-drop max block)

-- Whatever the frame size that the peer allows, the HEADERS and CONTINUATION frames that a header
-- block is sent in have the effect, on a connection that receives them with no block pending, of
-- one HEADERS frame with the whole block; for blocks of up to 1 MiB.
pub dispatch_all-header_frames :
    (inherited : Text → Option Text) (now max id : ℕ) (block : List ℕ) (end_stream : Bool)
    (c : H2Connection)
    → 0 < max
    → length block ≤ max_header_block_size
    → c.pending_header_block ≡ none
    → dispatch_all inherited now (header_frames max id block end_stream) c
      ≡ dispatch_all inherited now (head_frame id block end_stream true ∷ []) c
unfolding header_frames
dispatch_all-header_frames inherited now max id block end_stream c positive fits idle =
    elim (Bool-cases (leb (length block) max)) [
      | inl short ↦ rw (short, header_frames) refl
      | inr long ↦
          rw (long, header_frames)
            (dispatch_split inherited now id end_stream c idle max block positive (ground arith)
                fits
              ∙ sym (dispatch_whole inherited now id end_stream c idle block fits))
    ]
