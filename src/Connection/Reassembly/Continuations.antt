-- ===== src/Connection/Reassembly/Continuations.antt =====
-- What `dispatch` makes of the CONTINUATION frames of a header block.
use grpc_bridge.Prelude.{
  ℕ, zero, suc, ◌+◌, ◌≤◌, ◌<◌, ◌≡◌, refl, sym, ap, ◌∙◌, inl, inr, Bool, true, false, Option, none,
  some, List, [], ◌∷◌, ◌++◌, length, take, drop, ltb, leb, ◌==◌, Bool-cases, length-take,
  length-drop, take-append-drop, take_all, drop_all, append-nil, append_assoc, ==_iff, arith,
}
use grpc_bridge.Text.{Text}
use grpc_bridge.Bytes.{concat_bytes}
use grpc_bridge.Frames.Types.{Frame, continuation_frame}
use grpc_bridge.Connection.State.{
  H2Connection, PendingHeaderBlock, response_block, max_header_block_size,
}
use grpc_bridge.Connection.Blocks.{
  Outcome, block_bytes, complete_bytes, complete_header_block, deliver_block, take_fragment,
  on_continuation,
}
use grpc_bridge.Connection.Receive.{handle, dispatch, after_dispatch, dispatch_all}
use grpc_bridge.Connection.Requests.{continuations}

concat_bytes-append_one :
    (fs : List (List ℕ)) (f : List ℕ) → concat_bytes (fs ++ f ∷ []) ≡ concat_bytes fs ++ f
unfolding concat_bytes
concat_bytes-append_one [] f = append-nil f
concat_bytes-append_one (x ∷ fs) f =
    ap (◌++◌ x) (concat_bytes-append_one fs f) ∙ sym (append_assoc x (concat_bytes fs) f)

-- A block of a response with these fragments.
abbrev pub block_of : ℕ → Bool → List (List ℕ) → ℕ → PendingHeaderBlock
block_of id end_stream fragments size = record {
  stream_id = id;
  kind = response_block;
  end_stream = end_stream;
  fragments = fragments;
  size = size;
}

block_bytes-concat_bytes : (fs : List (List ℕ)) → block_bytes fs ≡ concat_bytes fs
unfolding concat_bytes
block_bytes-concat_bytes [] = refl
block_bytes-concat_bytes (f ∷ []) = sym (append-nil f)
block_bytes-concat_bytes (f ∷ g ∷ fs) = refl

-- The frames in front, by what is left to send.
abbrev continuation_of : ℕ → List ℕ → Bool → Frame
continuation_of id fragment end_headers =
    continuation_frame
      (record { stream_id = id; header_block_fragment = fragment; end_headers = end_headers })

continuations-nil : (fuel max id : ℕ) → continuations fuel max id [] ≡ []
unfolding continuations
continuations-nil zero max id = refl
continuations-nil (suc fuel) max id = refl

continuations_next :
    (fuel max id : ℕ) (rest : List ℕ)
    → 0 < length rest
    → continuations (suc fuel) max id rest
      ≡ continuation_of id (take max rest) (leb (length rest) max)
        ∷ continuations fuel max id (drop max rest)
unfolding continuations
continuations_next fuel max id rest h =
    let left : (length rest == 0) ≡ false = ground arith in rw (left, continuations) refl

module _ (inherited : Text → Option Text) (now id : ℕ) (end_stream : Bool) (c : H2Connection) where
  -- How a block came is forgotten when it is complete.
  complete_same :
      (fs gs : List (List ℕ)) (n m : ℕ) (o : Option PendingHeaderBlock)
      → block_bytes fs ≡ block_bytes gs
      → complete_header_block inherited
          (block_of id end_stream fs n)
          (record c { pending_header_block = o })
        ≡ complete_header_block inherited (block_of id end_stream gs m) c
  unfolding complete_header_block complete_bytes deliver_block
  complete_same fs gs n m o e =
      ap (λ (b : List ℕ). complete_bytes inherited (block_of id end_stream gs m) b c) e

  -- What is left of the block, behind the fragments that came.
  abbrev Pending : List (List ℕ) → ℕ → H2Connection
  Pending fs n = record c { pending_header_block = some (block_of id end_stream fs n) }

  abbrev pub whole : List ℕ → Outcome
  whole block =
      complete_header_block inherited (block_of id end_stream (block ∷ []) (length block)) c

  pub take_fragment_last :
      (fs : List (List ℕ)) (n : ℕ) (o : Option PendingHeaderBlock)
      → n ≤ max_header_block_size
      → take_fragment inherited
          (block_of id end_stream fs n)
          true
          (record c { pending_header_block = o })
        ≡ whole (concat_bytes fs)
  unfolding take_fragment
  take_fragment_last fs n o bound =
      let fits : ltb max_header_block_size n ≡ false = ground arith in
      rw (fits, take_fragment)
        (complete_same fs (concat_bytes fs ∷ []) n (length (concat_bytes fs))
          (some (block_of id end_stream fs n)) (block_bytes-concat_bytes fs))

  pub take_fragment_more :
      (fs : List (List ℕ)) (n : ℕ) (o : Option PendingHeaderBlock)
      → n ≤ max_header_block_size
      → take_fragment inherited
          (block_of id end_stream fs n)
          false
          (record c { pending_header_block = o })
        ≡ (Pending fs n, none)
  unfolding take_fragment
  take_fragment_more fs n o bound =
      let fits : ltb max_header_block_size n ≡ false = ground arith in rw (fits, take_fragment) refl

  dispatch_continuation :
      (fs : List (List ℕ)) (n : ℕ) (fragment : List ℕ) (end_headers : Bool)
      → dispatch inherited now
          (continuation_frame (record {
            stream_id = id;
            header_block_fragment = fragment;
            end_headers = end_headers;
          }))
          (Pending fs n)
        ≡ take_fragment inherited
            (block_of id end_stream (fs ++ fragment ∷ []) (n + length fragment))
            end_headers
            (Pending fs n)
  unfolding dispatch handle on_continuation
  dispatch_continuation fs n fragment end_headers =
      let same : id == id ≡ true = (==_iff id id).1 refl in rw same refl

  -- The CONTINUATION frames, behind fragments that are pending.
  pub dispatch_continuations :
      (fuel max : ℕ) (rest : List ℕ) (fs : List (List ℕ)) (n : ℕ)
      → 0 < max
      → 0 < length rest
      → length rest ≤ fuel
      → n + length rest ≤ max_header_block_size
      → dispatch_all inherited now (continuations fuel max id rest) (Pending fs n)
        ≡ after_dispatch (λ x. x) (whole (concat_bytes fs ++ rest))
  unfolding dispatch_all after_dispatch
  dispatch_continuations zero max rest fs n positive some_left enough fits = absurd (omega arith)
  dispatch_continuations (suc fuel) max rest fs n positive some_left enough fits =
      let eh = leb (length rest) max in
      let fs1 = fs ++ take max rest ∷ [] in
      let n1 = n + length (take max rest) in
      let behind = continuations fuel max id (drop max rest) in
      let within : n1 ≤ max_header_block_size = omega (arith, length-take max rest) in
      let first =
        ap (λ (frames : List Frame). dispatch_all inherited now frames (Pending fs n))
          (continuations_next fuel max id rest some_left)
        ∙ ap (after_dispatch (dispatch_all inherited now behind))
            (dispatch_continuation fs n (take max rest) eh) in
      elim (Bool-cases eh) [
        | inl last ↦
            let fits_one : length rest ≤ max = ground arith in
            first
            ∙ ap
                (λ (b : Bool).
                  after_dispatch (dispatch_all inherited now behind)
                    (take_fragment inherited (block_of id end_stream fs1 n1) b (Pending fs n)))
                last
            ∙ ap (after_dispatch (dispatch_all inherited now behind))
                (take_fragment_last fs1 n1 (some (block_of id end_stream fs n)) within)
            ∙ ap
                (λ (frames : List Frame).
                  after_dispatch (dispatch_all inherited now frames) (whole (concat_bytes fs1)))
                (ap (continuations fuel max id) (drop_all max rest fits_one)
                  ∙ continuations-nil fuel max id)
            ∙ ap (λ (b : List ℕ). after_dispatch (λ x. x) (whole b))
                (concat_bytes-append_one fs (take max rest)
                  ∙ ap (◌++◌ (concat_bytes fs)) (take_all max rest fits_one))
        | inr more ↦
            let too_long : max < length rest = ground arith in
            first
            ∙ ap
                (λ (b : Bool).
                  after_dispatch (dispatch_all inherited now behind)
                    (take_fragment inherited (block_of id end_stream fs1 n1) b (Pending fs n)))
                more
            ∙ ap (after_dispatch (dispatch_all inherited now behind))
                (take_fragment_more fs1 n1 (some (block_of id end_stream fs n)) within)
            ∙ dispatch_continuations fuel max (drop max rest) fs1 n1 positive
                (omega (arith, length-drop max rest)) (omega (arith, length-drop max rest))
                (omega (arith, length-drop max rest, length-take max rest))
            ∙ ap (λ (b : List ℕ). after_dispatch (λ x. x) (whole b))
                (ap (λ (b : List ℕ). b ++ drop max rest)
                    (concat_bytes-append_one fs (take max rest))
                  ∙ append_assoc (concat_bytes fs) (take max rest) (drop max rest)
                  ∙ ap (◌++◌ (concat_bytes fs)) (take-append-drop max rest))
      ]
