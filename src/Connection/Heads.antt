-- ===== src/Connection/Heads.antt =====
-- web/src/h2/connection.ts: the head of a pushed request, and the header list of a request.
pub mod Received
pub mod Runs
use grpc_bridge.Prelude.{
  ℕ, ◌+◌, ◌/◌, ◌%◌, Bool, true, false, ◌||◌, Option, none, some, List, [], ◌∷◌, ◌++◌, ltb,
  if◌then◌else◌,
}
use grpc_bridge.Text.{Text, text, text_eq}
use grpc_bridge.Hpack.Decoder.{Header}
use grpc_bridge.Stream.Head.{Record, assign, existing, starts_with_colon}

-- `FORBIDDEN_HEADERS`.
abbrev pub forbidden_headers : List Text
forbidden_headers =
    text "connection"
    ∷ text "host"
    ∷ text "keep-alive"
    ∷ text "proxy-connection"
    ∷ text "transfer-encoding"
    ∷ text "upgrade"
    ∷ []

unfoldable pub is_among : Text → List Text → Bool
is_among name [] = false
is_among name (n ∷ names) = text_eq name n || is_among name names

-- `pseudo(headers, name)`: the first value.
unfoldable pub pseudo : List Header → Text → Option Text
pseudo [] name = none
pseudo (h ∷ headers) name =
    let behind = pseudo headers name in if text_eq h.name name then some h.value else behind

-- `collectRequestHead`, of whose result only `headers` is read. `inherited` is what a plain object
-- has under a name that it has no entry of its own for.
module _ (inherited : Text → Option Text) where
  unfoldable pub add_request_header : Record → Header → Record
  add_request_header headers h =
      if starts_with_colon h.name then headers else (elim (existing inherited headers h.name) [
        | none ↦ assign headers h.name h.value
        | some old ↦ assign headers h.name (old ++ text ", " ++ h.value)
      ])

  unfoldable pub collect_request_head : Record → List Header → Record
  unfolding add_request_header
  collect_request_head headers [] = headers
  collect_request_head headers (h ∷ raw) = collect_request_head (add_request_header headers h) raw

-- `BodyInit`: nothing, a string, bytes or a stream.
pub data BodyInit : Type 0 where
  no_body body_stream : BodyInit
  body_text : Text → BodyInit
  body_bytes : List ℕ → BodyInit

unfoldable pub body_is_empty : BodyInit → Bool
body_is_empty no_body = true
body_is_empty (body_text []) = true
body_is_empty (body_text (u ∷ s)) = false
body_is_empty (body_bytes []) = true
body_is_empty (body_bytes (b ∷ bytes)) = false
body_is_empty body_stream = false

-- `HeadersInit`: pairs, or a plain object, whose `Object.entries` are listed.
pub data HeadersInit : Type 0 where
  pairs : List (Text × Text) → HeadersInit
  entries_of : Record → HeadersInit

pub record H2RequestInit : Type 0 where
  pub method : Option Text
  pub scheme : Option Text
  pub path : Option Text
  pub authority : Option Text
  pub headers : Option HeadersInit
  pub body : BodyInit

unfoldable pub normalize_headers : Option HeadersInit → List (Text × Text)
normalize_headers none = []
normalize_headers (some (pairs fields)) = fields
normalize_headers (some (entries_of fields)) = fields

abbrev pub field : Text → Text → Header
field name value = record { name = name; value = value; never_index = false }

abbrev pub or_else : Option Text → Text → Text
or_else none default = default
or_else (some value) default = value

-- The `:authority` field, which an empty string does without.
unfoldable pub authority_field : Option Text → List Header
authority_field none = []
authority_field (some []) = []
authority_field (some (u ∷ s)) = field (text ":authority") (u ∷ s) ∷ []

-- `to_lower` and `to_upper` are the string's `toLowerCase` and `toUpperCase`.
module _ (to_lower : Text → Text) (to_upper : Text → Text) where
  -- The loop over the caller's headers.
  unfoldable pub request_fields : List (Text × Text) → List Header
  unfolding is_among
  request_fields [] = []
  request_fields ((raw_name, value) ∷ rest) =
      let name = to_lower raw_name in
      let behind = request_fields rest in
      if starts_with_colon name || is_among name forbidden_headers
      then behind
      else record {
        name = name;
        value = value;
        never_index = text_eq name (text "authorization") || text_eq name (text "cookie");
      }
        ∷ behind

  unfoldable pub build_request_headers : H2RequestInit → List Header
  unfolding request_fields authority_field normalize_headers
  build_request_headers init =
      field (text ":method") (to_upper (or_else init.method (text "GET")))
        ∷ field (text ":scheme") (or_else init.scheme (text "http"))
        ∷ authority_field init.authority
      ++ field (text ":path") (or_else init.path (text "/"))
        ∷ request_fields (normalize_headers init.headers)
