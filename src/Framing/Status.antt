-- ===== src/Framing/Status.antt =====
-- web/src/framing.ts: `validateStatus`. The message of the error and its metadata are left out.
use grpc_bridge.Prelude.{
  ℕ, ltb, ◌≢◌, true, false, ◌∙◌, sym, ◌+◌, ◌-◌, ◌≤◌, ◌≡◌, refl, ◌&&◌, Option, none, some, [], ◌∷◌,
  leb, ◌==◌, if◌then◌else◌, Option-cases, Bool-cases, ap, inl, inr, arith,
}
use grpc_bridge.Errors.{Result, ok, err, connect_failure}
use grpc_bridge.Text.{Text, text}
use grpc_bridge.Stream.Head.{Record, lookup}

abbrev pub unknown : ℕ
unknown = 2

abbrev pub status_name : Text
status_name = text "grpc-status"

-- `trailers?.["grpc-status"] ?? headers["grpc-status"]`.
unfoldable pub raw_status : Record → Option Record → Option Text
raw_status headers none = lookup headers status_name
raw_status headers (some trailers) = elim (lookup trailers status_name) [
  | some raw ↦ some raw
  | none ↦ lookup headers status_name
]

-- `/^(?:[0-9]|1[0-6])$/`, with the number that such a text stands for.
unfoldable pub status_code : Text → Option ℕ
status_code (u ∷ []) = if leb 48 u && leb u 57 then some (u - 48) else none
status_code (u ∷ v ∷ []) = if u == 49 && (leb 48 v && leb v 54) then some (10 + (v - 48)) else none
status_code _ = none

-- Behind the look at the status; `raw !== "0"` is that its number is not 0.
unfoldable pub check_status : Option Text → Result (Unit {0})
unfolding status_code
check_status none = err (connect_failure unknown)
check_status (some raw) = elim (status_code raw) [
  | none ↦ err (connect_failure unknown)
  | some code ↦ if code == 0 then ok tt else err (connect_failure code)
]

unfoldable pub validate_status : Record → Option Record → Result (Unit {0})
unfolding check_status raw_status
validate_status headers trailers = check_status (raw_status headers trailers)

-- Where the status of a call is looked for: in the trailers, and else in the headers.
pub data FoundStatus (headers : Record) (trailers : Option Record) (raw : Option Text)
    : Type 0 where
  in_trailers :
      (t : Record) (status : Text)
      → trailers ≡ some t
      → lookup t (text "grpc-status") ≡ some status
      → raw ≡ some status
      → FoundStatus headers trailers raw
  not_in_trailers :
      (t : Record)
      → trailers ≡ some t
      → lookup t (text "grpc-status") ≡ none
      → raw ≡ lookup headers (text "grpc-status")
      → FoundStatus headers trailers raw
  no_trailers :
      trailers ≡ none → raw ≡ lookup headers (text "grpc-status") → FoundStatus headers trailers raw

-- A code from 0 to 16 in decimal.
abbrev pub decimal : ℕ → Text
decimal n = if ltb n 10 then (48 + n) ∷ [] else 49 ∷ (38 + n) ∷ []

-- What a status means for the call.
pub data StatusMeans (raw : Option Text) (result : Result (Unit {0})) : Type 0 where
  success : raw ≡ some (text "0") → result ≡ ok tt → StatusMeans raw result
  failure_of :
      (code : ℕ)
      → 1 ≤ code
      → code ≤ 16
      → raw ≡ some (decimal code)
      → result ≡ err (connect_failure code)
      → StatusMeans raw result
  malformed :
      ((code : ℕ) → code ≤ 16 → raw ≢ some (decimal code))
      → result ≡ err (connect_failure 2)
      → StatusMeans raw result

status_code_small : (raw : Text) (code : ℕ) → status_code raw ≡ some code → code ≤ 16
unfolding status_code
status_code_small [] code e = absurd (ground arith)
status_code_small (u ∷ []) code e = ground arith
status_code_small (u ∷ v ∷ []) code e = ground arith
status_code_small (u ∷ v ∷ w ∷ s) code e = absurd (ground arith)

status_code-decimal : (code : ℕ) → code ≤ 16 → status_code (decimal code) ≡ some code
unfolding status_code
status_code-decimal code h = elim (Bool-cases (ltb code 10)) [
  | inl one ↦ rw (one, status_code) (ground arith)
  | inr two ↦ rw (two, status_code) (ground arith)
]

decimal_of : (raw : Text) (code : ℕ) → status_code raw ≡ some code → raw ≡ decimal code
unfolding status_code
decimal_of [] code e = absurd (ground arith)
decimal_of (u ∷ []) code e =
    let one : ltb code 10 ≡ true = ground arith in
    let same : u ≡ 48 + code = ground arith in rw one (ap (λ (x : ℕ). x ∷ []) same)
decimal_of (u ∷ v ∷ []) code e =
    let two : ltb code 10 ≡ false = ground arith in
    let first : u ≡ 49 = ground arith in
    let same : v ≡ 38 + code = ground arith in
    rw two (ap (λ (x : ℕ). x ∷ v ∷ []) first ∙ ap (λ (x : ℕ). 49 ∷ x ∷ []) same)
decimal_of (u ∷ v ∷ w ∷ s) code e = absurd (ground arith)

not_some : {code : ℕ} → none ≡ some code → ⊥
not_some e = ground arith

check_status-StatusMeans : (raw : Option Text) → StatusMeans raw (check_status raw)
unfolding check_status
check_status-StatusMeans none = malformed (λ code h e. ground (arith, e)) refl
check_status-StatusMeans (some raw) = elim (Option-cases (status_code raw)) [
  | inl bad ↦
      malformed
        (λ code h e.
          let same : raw ≡ decimal code = ground arith in
          not_some (sym bad ∙ ap status_code same ∙ status_code-decimal code h))
        (rw (bad, check_status) refl)
  | inr (code, e) ↦
      let written = decimal_of raw code e in
      elim (Bool-cases (code == 0)) [
        | inl zero_code ↦
            let is_zero : code ≡ 0 = ground (arith, zero_code) in
            success (ap some (written ∙ ap decimal is_zero)) (rw (e, zero_code, check_status) refl)
        | inr other ↦
            failure_of code (ground (arith, other)) (status_code_small raw code e) (ap some written)
              (rw (e, other, check_status) refl)
      ]
]

raw_status-FoundStatus :
    (headers : Record) (trailers : Option Record)
    → FoundStatus headers trailers (raw_status headers trailers)
unfolding raw_status
raw_status-FoundStatus headers none = no_trailers refl refl
raw_status-FoundStatus headers (some t) = elim (Option-cases (lookup t status_name)) [
  | inl missing ↦ not_in_trailers t refl missing (rw (missing, raw_status) refl)
  | inr (status, e) ↦ in_trailers t status refl e (rw (e, raw_status) refl)
]

-- What a call ends with is decided by its status, which is that of the trailers if they have one, and
-- else that of the headers: "0" is success, a decimal from 1 to 16 is the failure with just that
-- code, and a status that is missing or is written in any other way is the failure Unknown.
pub validate_status-StatusMeans :
    (headers : Record) (trailers : Option Record)
    → (raw : Option Text) × (FoundStatus headers trailers raw)
      × StatusMeans raw (validate_status headers trailers)
unfolding validate_status
validate_status-StatusMeans headers trailers =
    let raw = raw_status headers trailers in
    (raw, raw_status-FoundStatus headers trailers, check_status-StatusMeans raw)
