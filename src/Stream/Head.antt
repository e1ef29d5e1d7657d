-- ===== src/Stream/Head.antt =====
-- web/src/h2/stream.ts: `collectHeaders`, which makes the head of a response of a header list.
use grpc_bridge.Prelude.{
  ℕ, zero, suc, ◌+◌, ◌-◌, ◌*◌, Bool, true, false, ◌&&◌, ◌||◌, Option, none, some, List, [], ◌∷◌,
  ◌++◌, leb, ◌==◌, if◌then◌else◌,
}
use grpc_bridge.Prelude.Int.{ℤ, pos, negsuc}
use mathlib.Core.Option.{map as map_option}
use grpc_bridge.Text.{Text, text, text_eq}
use grpc_bridge.Hpack.Decoder.{Header}

-- White space and line ends of ECMAScript, which `parseInt` skips.
abbrev pub is_space : ℕ → Bool
is_space u =
    (leb 9 u && leb u 13)
    || u == 32
    || u == 0xa0
    || u == 0xfeff
    || u == 0x1680
    || (leb 0x2000 u && leb u 0x200a)
    || u == 0x2028
    || u == 0x2029
    || u == 0x202f
    || u == 0x205f
    || u == 0x3000

unfoldable pub trim_start : Text → Text
trim_start [] = []
trim_start (u ∷ s) = let rest = trim_start s in if is_space u then rest else u ∷ s

-- The digits at the front; `seen` is what the ones before amount to.
unfoldable pub parse_digits : Option ℕ → Text → Option ℕ
parse_digits seen [] = seen
parse_digits seen (u ∷ s) = elim (leb 48 u && leb u 57) [
  | false ↦ seen
  | true ↦ elim seen [
    | none ↦ parse_digits (some (u - 48)) s
    | some n ↦ parse_digits (some (n * 10 + (u - 48))) s
  ]
]

abbrev pub negative : ℕ → ℤ
negative zero = pos 0
negative (suc n) = negsuc n

-- `Number.parseInt(value, 10)`; `none` is NaN.
unfoldable pub parse_int : Text → Option ℤ
unfolding trim_start parse_digits
parse_int s = elim (trim_start s) [
  | [] ↦ none
  | (u ∷ rest) ↦
      if u == 45
      then map_option negative (parse_digits none rest)
      else if u == 43
      then map_option pos (parse_digits none rest)
      else map_option pos (parse_digits none (u ∷ rest))
]

-- A plain object as a map: its own entries, in the order in which they were made.
abbrev pub Record : Type 0
Record = List (Text × Text)

unfoldable pub lookup : Record → Text → Option Text
lookup [] name = none
lookup ((n, v) ∷ entries) name =
    let rest = lookup entries name in if text_eq n name then some v else rest

unfoldable pub assign : Record → Text → Text → Record
assign [] name value = (name, value) ∷ []
assign ((n, v) ∷ entries) name value =
    let rest = assign entries name value in
    if text_eq n name then (n, value) ∷ entries else (n, v) ∷ rest

pub record HeadHead : Type 0 where
  pub end_stream : Option Bool
  pub status : Option ℤ  -- none is NaN
  pub headers : Record
  pub raw : List Header

abbrev pub starts_with_colon : Text → Bool
starts_with_colon [] = false
starts_with_colon (u ∷ s) = u == 58

-- A read of a plain object that has no such entry of its own finds what `Object.prototype` has, for
-- instance under "constructor"; `inherited` gives that as a string. (`__proto__`, whose assignment
-- makes no entry, is left out.)
module _ (inherited : Text → Option Text) where
  unfoldable pub existing : Record → Text → Option Text
  unfolding lookup
  existing headers name = elim (lookup headers name) [ some v ↦ some v | none ↦ inherited name ]

  unfoldable pub join_header : Record → Text → Text → Record
  unfolding existing assign
  join_header headers name value = elim (existing headers name) [
    | none ↦ assign headers name value
    | some old ↦
        assign headers name
          (old ++ (if text_eq name (text "cookie") then text "; " else text ", ") ++ value)
  ]

  -- One round of the loop.
  unfoldable pub collect_header : Option ℤ × Record → Header → Option ℤ × Record
  unfolding join_header parse_int
  collect_header (status, headers) h =
      if text_eq h.name (text ":status")
      then (parse_int h.value, headers)
      else if starts_with_colon h.name
      then (status, headers)
      else (status, join_header headers h.name h.value)

  unfoldable pub collect_loop : Option ℤ × Record → List Header → Option ℤ × Record
  unfolding collect_header
  collect_loop s [] = s
  collect_loop s (h ∷ raw) = collect_loop (collect_header s h) raw

  unfoldable pub collect_headers : List Header → HeadHead
  unfolding collect_loop
  collect_headers raw =
      let (status, headers) = collect_loop (none, []) raw in
      record { end_stream = none; status = status; headers = headers; raw = raw }
