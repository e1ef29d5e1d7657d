-- ===== src/Connection/Adapters.antt =====
-- web/src/h2/connection.ts: what goes into a body that is sent and comes out of a response.
use grpc_bridge.Prelude.{
  ℕ, ◌≡◌, refl, ap, ◌∙◌, Bool, false, Option, none, some, List, [], ◌∷◌, ◌++◌, length, ltb,
  if◌then◌else◌, if_case, append-nil, arith,
}
use grpc_bridge.Prelude.Int.{ℤ}
use grpc_bridge.Text.{Text, encode_utf8, decode_utf8}
use grpc_bridge.Bytes.{concat_bytes}
use grpc_bridge.Errors.{Error, connection_failure, cancel}
use grpc_bridge.Hpack.Decoder.{Header}
use grpc_bridge.Stream.Head.{HeadHead, Record}
use grpc_bridge.Stream.State.{H2Stream}
use grpc_bridge.Connection.Heads.{BodyInit, no_body, body_stream, body_text, body_bytes}

-- The values of a reader that are passed on.
unfoldable pub filled_reads : List (List ℕ) → List (List ℕ)
filled_reads [] = []
filled_reads (value ∷ reads) =
    let behind = filled_reads reads in if ltb 0 (length value) then value ∷ behind else behind

-- `iterateBody`; `reads` is what the reader of a stream gives until it is done or cancelled.
unfoldable pub iterate_body : List (List ℕ) → BodyInit → List (List ℕ)
unfolding filled_reads
iterate_body reads no_body = []
iterate_body reads (body_text s) = encode_utf8 s ∷ []
iterate_body reads (body_bytes bytes) = bytes ∷ []
iterate_body reads body_stream = filled_reads reads

-- `drain`, of the chunks that the reader gives.
abbrev pub drain_body : List (List ℕ) → List ℕ
drain_body chunks = concat_bytes chunks

-- `H2Response`, with what `trailers()`, `bytes()` and `text()` give once the body has been read.
pub record H2Response : Type 0 where
  pub end_stream : Bool
  pub status : Option ℤ  -- none is NaN
  pub headers : Record
  pub raw_headers : List Header
  pub trailers : Option Record
  pub bytes : List ℕ
  pub text_value : Text

abbrev or_false : Option Bool → Bool
or_false none = false
or_false (some b) = b

-- `buildResponse` of a stream, for the chunks that its reader gives.
abbrev pub build_response : H2Stream → HeadHead → List (List ℕ) → H2Response
build_response stream head chunks = record {
  end_stream = or_false head.end_stream;
  status = head.status;
  headers = head.headers;
  raw_headers = head.raw;
  trailers = stream.trailers;
  bytes = drain_body chunks;
  text_value = decode_utf8 (drain_body chunks);
}

-- `abortError`: a reason that is an error, or the default.
abbrev pub abort_error : Option Error → Error
abort_error (some reason) = reason
abort_error none = connection_failure cancel

-- The bytes of a body.
abbrev pub body_content : List (List ℕ) → BodyInit → List ℕ
body_content reads no_body = []
body_content reads body_stream = concat_bytes reads
body_content reads (body_text s) = encode_utf8 s
body_content reads (body_bytes bytes) = bytes

empty_value : (value : List ℕ) (rest : List ℕ) → ltb 0 (length value) ≡ false → rest ≡ value ++ rest
empty_value [] rest e = refl
empty_value (b ∷ value) rest e = absurd (ground arith)

concat_bytes-filled_reads :
    (reads : List (List ℕ)) → concat_bytes (filled_reads reads) ≡ concat_bytes reads
unfolding concat_bytes filled_reads
concat_bytes-filled_reads [] = refl
concat_bytes-filled_reads (value ∷ reads) =
    let behind = concat_bytes-filled_reads reads in
    if_case (λ (x : List (List ℕ)). concat_bytes x ≡ value ++ concat_bytes reads)
      (ltb 0 (length value)) (value ∷ filled_reads reads) (filled_reads reads)
      (λ e. ap (λ (x : List ℕ). value ++ x) behind)
      (λ e. behind ∙ empty_value value (concat_bytes reads) e)

-- The chunks of a body are its bytes, none lost and in order, though empty reads are left out.
drain_body-iterate_body :
    (reads : List (List ℕ)) (body : BodyInit)
    → drain_body (iterate_body reads body) ≡ body_content reads body
unfolding iterate_body concat_bytes
drain_body-iterate_body reads no_body = refl
drain_body-iterate_body reads body_stream = concat_bytes-filled_reads reads
drain_body-iterate_body reads (body_text s) = append-nil (encode_utf8 s)
drain_body-iterate_body reads (body_bytes bytes) = append-nil bytes
