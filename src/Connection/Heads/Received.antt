-- ===== src/Connection/Heads/Received.antt =====
-- What the server's HPACK decoder reads of a request's head.
use grpc_bridge.Prelude.{
  ◌⊎◌, inl, inr, arith, Bool, true, false, ◌≡◌, refl, ap, ◌∙◌, false, ◌||◌, Option, none, some,
  List, [], ◌∷◌, ◌++◌, map, All, All-append, if_case,
}
use grpc_bridge.Errors.{ok}
use grpc_bridge.Text.{Text, text, text_eq}
use grpc_bridge.Hpack.Table.{HpackDecoder}
use grpc_bridge.Hpack.Decoder.{Header, decode}
use grpc_bridge.Hpack.Encoder.{encode}
use grpc_bridge.Hpack.Encoder.RoundTrip.{AllSendable, received, decode-encode}
use grpc_bridge.Stream.Head.{starts_with_colon}
use grpc_bridge.Connection.Heads.{
  field, or_else, forbidden_headers, is_among, authority_field, HeadersInit, pairs, entries_of,
  H2RequestInit, normalize_headers, request_fields, build_request_headers,
}

-- A header as it is read: whether it may be indexed is not kept.
abbrev pub unmarked : Header → Header
unmarked h = record h { never_index = false }

-- The caller's headers, however they were given.
pub data Given : Option HeadersInit → List (Text × Text) → Type 0 where
  not_given : Given none []
  given_pairs : (fields : List (Text × Text)) → Given (some (pairs fields)) fields
  given_object : (fields : List (Text × Text)) → Given (some (entries_of fields)) fields

-- What HTTP/2 does not allow in a request.
abbrev pub connection_specific : List Text
connection_specific =
    text "connection"
    ∷ text "host"
    ∷ text "keep-alive"
    ∷ text "proxy-connection"
    ∷ text "transfer-encoding"
    ∷ text "upgrade"
    ∷ []

abbrev pub value_or : Text → Option Text → Text
value_or default none = default
value_or default (some value) = value

-- The authority, unless it is empty.
abbrev pub authority_part : Option Text → List Header
authority_part none = []
authority_part (some []) = []
authority_part (some (u ∷ s)) =
    record { name = text ":authority"; value = u ∷ s; never_index = false } ∷ []

abbrev pub pseudo_names : List Text
pseudo_names = text ":method" ∷ text ":scheme" ∷ text ":authority" ∷ text ":path" ∷ []

module _ (to_lower : Text → Text) (to_upper : Text → Text) where
  -- The pseudo-headers, with their defaults.
  abbrev pub request_line : H2RequestInit → List Header
  request_line init =
      record {
        name = text ":method";
        value = to_upper (value_or (text "GET") init.method);
        never_index = false;
      }
      ∷ record {
        name = text ":scheme";
        value = value_or (text "http") init.scheme;
        never_index = false;
      }
      ∷ (authority_part init.authority
          ++ record {
            name = text ":path";
            value = value_or (text "/") init.path;
            never_index = false;
          }
            ∷ [])

  -- What is sent of the caller's headers: each one in lower case with its value, in order, but the ones
  -- whose names make a pseudo-header or are not allowed; credentials are not to be indexed.
  pub data Passes : List (Text × Text) → List Header → Type 0 where
    none_left : Passes [] []
    left_out :
        {name value : Text} {rest : List (Text × Text)} {out : List Header}
        → (starts_with_colon (to_lower name) ≡ true)
          ⊎ (is_among (to_lower name) connection_specific ≡ true)
        → Passes rest out
        → Passes ((name, value) ∷ rest) out
    passed :
        {name value : Text} {rest : List (Text × Text)} {out : List Header}
        → starts_with_colon (to_lower name) ≡ false
        → is_among (to_lower name) connection_specific ≡ false
        → Passes rest out
        → Passes ((name, value) ∷ rest) (
            record {
              name = to_lower name;
              value = value;
              never_index =
                  text_eq (to_lower name) (text "authorization")
                  || text_eq (to_lower name) (text "cookie");
            }
            ∷ out)

  true_cases : (a b : Bool) → a || b ≡ true → (a ≡ true) ⊎ (b ≡ true)
  true_cases true b e = inl refl
  true_cases false b e = inr e

  false_cases : (a b : Bool) → a || b ≡ false → (a ≡ false) × (b ≡ false)
  false_cases true b e = absurd (ground arith)
  false_cases false b e = (refl, e)

  request_fields-Passes :
      (fields : List (Text × Text)) → Passes fields (request_fields to_lower to_upper fields)
  unfolding request_fields
  request_fields-Passes [] = none_left
  request_fields-Passes ((raw_name, value) ∷ rest) =
      let name = to_lower raw_name in
      if_case (λ (out : List Header). Passes ((raw_name, value) ∷ rest) out)
        (starts_with_colon name || is_among name forbidden_headers) _ _
        (λ e.
          left_out (true_cases (starts_with_colon name) (is_among name forbidden_headers) e)
            (request_fields-Passes rest))
        (λ e.
          let (a, b) = false_cases (starts_with_colon name) (is_among name forbidden_headers) e in
          passed a b (request_fields-Passes rest))

  normalize_headers-Given :
      (headers : Option HeadersInit) → Given headers (normalize_headers headers)
  unfolding normalize_headers
  normalize_headers-Given none = not_given
  normalize_headers-Given (some (pairs fields)) = given_pairs fields
  normalize_headers-Given (some (entries_of fields)) = given_object fields

  path_behind :
      (a p : Option Text) (rest : List Header)
      → authority_field a ++ field (text ":path") (or_else p (text "/")) ∷ rest
        ≡ (authority_part a
            ++ record { name = text ":path"; value = value_or (text "/") p; never_index = false }
              ∷ [])
          ++ rest
  unfolding authority_field
  path_behind none none rest = refl
  path_behind none (some p) rest = refl
  path_behind (some []) none rest = refl
  path_behind (some []) (some p) rest = refl
  path_behind (some (u ∷ a)) none rest = refl
  path_behind (some (u ∷ a)) (some p) rest = refl

  value_or_lem : (o : Option Text) (default : Text) → or_else o default ≡ value_or default o
  value_or_lem none default = refl
  value_or_lem (some value) default = refl

  build_request_headers-request_line :
      (init : H2RequestInit)
      → build_request_headers to_lower to_upper init
        ≡ request_line init ++ request_fields to_lower to_upper (normalize_headers init.headers)
  unfolding build_request_headers
  build_request_headers-request_line init =
      let behind =
        path_behind init.authority init.path
          (request_fields to_lower to_upper (normalize_headers init.headers)) in
      ap
        (λ (method : Text).
          field (text ":method") (to_upper method)
          ∷ field (text ":scheme") (or_else init.scheme (text "http"))
          ∷ (authority_field init.authority
              ++ field (text ":path") (or_else init.path (text "/"))
                ∷ request_fields to_lower to_upper (normalize_headers init.headers)))
        (value_or_lem init.method (text "GET"))
      ∙ ap
          (λ (scheme : Text).
            field (text ":method") (to_upper (value_or (text "GET") init.method))
            ∷ field (text ":scheme") scheme
            ∷ (authority_field init.authority
                ++ field (text ":path") (or_else init.path (text "/"))
                  ∷ request_fields to_lower to_upper (normalize_headers init.headers)))
          (value_or_lem init.scheme (text "http"))
      ∙ ap
          (λ (rest : List Header).
            field (text ":method") (to_upper (value_or (text "GET") init.method))
            ∷ field (text ":scheme") (value_or (text "http") init.scheme)
            ∷ rest)
          behind

  unmarked_line :
      (init : H2RequestInit) (fields : List Header)
      → map unmarked (request_line init ++ fields) ≡ request_line init ++ map unmarked fields
  unmarked_line init fields =
      ap
        (λ (rest : List Header).
          field (text ":method") (to_upper (value_or (text "GET") init.method))
          ∷ field (text ":scheme") (value_or (text "http") init.scheme)
          ∷ rest)
        (behind init.authority)
    where
      behind :
          (a : Option Text)
          → map unmarked (
              (authority_part a ++ field (text ":path") (value_or (text "/") init.path) ∷ [])
              ++ fields)
            ≡ (authority_part a ++ field (text ":path") (value_or (text "/") init.path) ∷ [])
              ++ map unmarked fields
      behind none = refl
      behind (some []) = refl
      behind (some (u ∷ s)) = refl

  abbrev IsLower : Header → Type 0
  IsLower h = to_lower h.name ≡ h.name

  map-received :
      (headers : List Header)
      → All IsLower headers
      → map (received to_lower) headers ≡ map unmarked headers
  map-received [] h = refl
  map-received (x ∷ headers) (lower, more) =
      ap
        (λ (name : Text).
          record { name = name; value = x.value; never_index = false }
          ∷ map (received to_lower) headers)
        lower
      ∙ ap (◌∷◌ (unmarked x)) (map-received headers more)

  request_fields-IsLower :
      (fields : List (Text × Text))
      → ((s : Text) → to_lower (to_lower s) ≡ to_lower s)
      → All IsLower (request_fields to_lower to_upper fields)
  unfolding request_fields
  request_fields-IsLower [] once = tt
  request_fields-IsLower ((raw_name, value) ∷ rest) once =
      let name = to_lower raw_name in
      if_case (All IsLower) (starts_with_colon name || is_among name forbidden_headers) _ _
        (λ _. request_fields-IsLower rest once)
        (λ _. (once raw_name, request_fields-IsLower rest once))

  authority_field-IsLower :
      (o : Option Text)
      → to_lower (text ":authority") ≡ text ":authority"
      → All IsLower (authority_field o)
  unfolding authority_field
  authority_field-IsLower none e = tt
  authority_field-IsLower (some []) e = tt
  authority_field-IsLower (some (u ∷ s)) e = (e, tt)

  build_request_headers-IsLower :
      (init : H2RequestInit)
      → ((s : Text) → to_lower (to_lower s) ≡ to_lower s)
      → All (λ (name : Text). to_lower name ≡ name) pseudo_names
      → All IsLower (build_request_headers to_lower to_upper init)
  unfolding build_request_headers
  build_request_headers-IsLower init once (method, (scheme, (authority, (path, _)))) = (
    method,
    (
      scheme,
      All-append IsLower (authority_field init.authority) _
          (authority_field-IsLower init.authority authority)
          (path, request_fields-IsLower (normalize_headers init.headers) once),
    ),
  )

  -- The head of a request, and what the server's decoder reads of it whatever its table holds, is the method, the
  -- scheme, the authority unless it is empty, and the path, with their defaults, and behind them just
  -- the caller's headers: each in lower case with its value and in order, however they were given,
  -- but none that would be a pseudo-header or that HTTP/2 forbids. The encoder is told not to index
  -- credentials, which is not kept for the reader. This is for names and values that
  -- the encoder can send, and a `toLowerCase` that changes nothing the second time and leaves the
  -- pseudo-headers' names as they are.
  pub decode-build_request_headers :
      (init : H2RequestInit) (d : HpackDecoder)
      → ((s : Text) → to_lower (to_lower s) ≡ to_lower s)
      → All (λ (name : Text). to_lower name ≡ name) pseudo_names
      → AllSendable to_lower (build_request_headers to_lower to_upper init)
      → (given : List (Text × Text)) × ((fields : List Header) × (Given init.headers given)
          × (Passes given fields)
          × (build_request_headers to_lower to_upper init ≡ request_line init ++ fields)
          × (decode d (encode to_lower (build_request_headers to_lower to_upper init)) none
              ≡ (d, ok (request_line init ++ map unmarked fields))))
  decode-build_request_headers init d once names sendable =
      let headers = build_request_headers to_lower to_upper init in
      let given = normalize_headers init.headers in
      let same = map-received headers (build_request_headers-IsLower init once names) in
      (
        given,
        (
          request_fields to_lower to_upper given,
          normalize_headers-Given init.headers,
          request_fields-Passes given,
          build_request_headers-request_line init,
          decode-encode to_lower headers d sendable
              ∙ ap (λ (x : List Header). (d, ok x))
                  (same
                    ∙ ap (map unmarked) (build_request_headers-request_line init)
                    ∙ unmarked_line init (request_fields to_lower to_upper given)),
        ),
      )
