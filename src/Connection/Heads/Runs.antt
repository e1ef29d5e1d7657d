-- ===== src/Connection/Heads/Runs.antt =====
-- The head of a concrete request, as a server reads it.
use grpc_bridge.Prelude.{
  ℕ, ◌≡◌, refl, ap, ◌∙◌, ◌&&◌, none, some, List, [], ◌∷◌, ◌++◌, map, leb, Bool-cases, inl, inr,
  arith,
}
use grpc_bridge.Errors.{ok}
use grpc_bridge.Text.{Text, text, text_eq, encode_utf8}
use grpc_bridge.Hpack.Table.{hpack_decoder}
use grpc_bridge.Hpack.Decoder.{Header, decode}
use grpc_bridge.Hpack.Encoder.{encode}
use grpc_bridge.Hpack.Encoder.RoundTrip.{AllSendable}
use grpc_bridge.Hpack.Runs.{lower_unit, lower_case, ascii-IsSendable}
use grpc_bridge.Connection.Heads.{
  is_among, authority_field, H2RequestInit, pairs, no_body, normalize_headers, request_fields,
  build_request_headers,
}
use grpc_bridge.Connection.Heads.Received.{
  unmarked, Given, Passes, request_line, decode-build_request_headers,
}

abbrev as_is : Text → Text
as_is s = s

abbrev post : H2RequestInit
post = record {
  method = some (text "POST");
  scheme = none;
  path = some (text "/demo.Echo/Say");
  authority = some (text "h");
  headers = some (
      pairs (
        (text "Host", text "x")
        ∷ (text "X-Trace", text "$!")
        ∷ (text ":path", text "/other")
        ∷ []));
  body = no_body;
}

lower_unit_once : (u : ℕ) → lower_unit (lower_unit u) ≡ lower_unit u
lower_unit_once u = elim (Bool-cases (leb 0x41 u && leb u 0x5a)) [
  | inl upper ↦ rw upper (ground arith)
  | inr other ↦ rw (other, other) refl
]

lower_case_once : (s : Text) → lower_case (lower_case s) ≡ lower_case s
lower_case_once [] = refl
lower_case_once (u ∷ s) =
    ap (λ (v : ℕ). v ∷ lower_case (lower_case s)) (lower_unit_once u)
    ∙ ap (◌∷◌ (lower_unit u)) (lower_case_once s)

post-AllSendable : AllSendable lower_case (build_request_headers lower_case as_is post)
unfolding encode_utf8 build_request_headers request_fields authority_field normalize_headers
    is_among text_eq
post-AllSendable = (
  ascii-IsSendable (text ":method") (text "POST") refl (omega arith) (omega arith),
  (
    ascii-IsSendable (text ":scheme") (text "http") refl (omega arith) (omega arith),
    (
      ascii-IsSendable (text ":authority") (text "h") refl (omega arith) (omega arith),
      (
        ascii-IsSendable (text ":path") (text "/demo.Echo/Say") refl (omega arith) (omega arith),
        (ascii-IsSendable (text "x-trace") (text "$!") refl (omega arith) (omega arith), tt),
      ),
    ),
  ),
)

decode-build_request_headers_example :
    (given : List (Text × Text)) × ((fields : List Header) × (Given post.headers given)
      × (Passes lower_case as_is given fields)
      × (build_request_headers lower_case as_is post ≡ request_line lower_case as_is post ++ fields)
      × (decode
            (hpack_decoder 4096)
            (encode lower_case (build_request_headers lower_case as_is post))
            none
          ≡ (hpack_decoder 4096, ok (request_line lower_case as_is post ++ map unmarked fields))))
decode-build_request_headers_example =
    decode-build_request_headers lower_case as_is post (hpack_decoder 4096) lower_case_once
      (refl, (refl, (refl, (refl, tt)))) post-AllSendable
