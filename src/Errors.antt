-- ===== src/Errors.antt =====
-- web/src/h2/errors.ts: the HTTP/2 error codes, and the failures that the modelled code throws.
mod Codes
use mathlib.Core.Path.{subst}
use grpc_bridge.Prelude.{ℕ, ◌≡◌, refl, ◌⊎◌, inl, inr, Option, none}
pub use Codes.{
  ErrorCode, no_error, protocol_error, internal_error, flow_control_error, settings_timeout,
  stream_closed, frame_size_error, refused_stream, cancel, compression_error, connect_error,
  enhance_your_calm, inadequate_security, http_1_1_required, error_codes, error_code_name,
  error_code_value, error_code_name_zero, error_code_name_seven, error_code_name-error_code_value,
  error_code_value-error_code_name,
}

-- `H2Error.retry`: evidence from the transport that a call may be repeated.
pub data Retry : Type 0 where
  unsent refused : Retry

-- The message of the source's class is left out: no code reads it.
pub record H2Error : Type 0 where
  pub code : ErrorCode
  pub stream_id : Option ℕ
  pub retry : Option Retry

-- What a modelled function can throw. `range_error` is the RangeError of DataView and of typed
-- arrays; `unknown_frame_type` is the private class of frames/codec.ts; `connect_failure` is a
-- ConnectError with its numeric code; `abort_reason` is the reason of an aborted signal.
pub data Error : Type 0 where
  h2 : H2Error → Error
  range_error : Error
  unknown_frame_type : ℕ → Error
  connect_failure : ℕ → Error
  abort_reason : Error

-- `new H2Error(code)` and `new H2Error(code, message, streamId)`.
abbrev pub connection_failure : ErrorCode → Error
connection_failure c = h2 (record { code = c; stream_id = none; retry = none })

abbrev pub stream_failure : ErrorCode → Option ℕ → Error
stream_failure c id = h2 (record { code = c; stream_id = id; retry = none })

pub data Result {ℓ} (A : Type ℓ) : Type ℓ where
  ok : A → Result A
  err : Error → Result A

infixl 5 ◌>>=◌
abbrev pub ◌>>=◌ {ℓ κ} : {A : Type ℓ} {B : Type κ} → Result A → (A → Result B) → Result B
ok a >>= f = f a
err e >>= f = err e

pub Result-cases {ℓ} :
    {A : Type ℓ} (r : Result A) → ((a : A) × (r ≡ ok a)) ⊎ ((e : Error) × (r ≡ err e))
Result-cases (ok a) = inl (a, refl)
Result-cases (err e) = inr (e, refl)

-- What holds of the value, if there is one.
abbrev pub Holds {ℓ κ} : {A : Type ℓ} → (A → Type κ) → Result A → Type κ
Holds P (ok a) = P a
Holds P (err e) = Unit {κ}

pub bind-Holds {ℓ κ ι μ} :
    {A : Type ℓ} {B : Type κ} (P : A → Type ι) (Q : B → Type μ) (m : Result A) (k : A → Result B)
    → Holds P m
    → ((a : A) → P a → Holds Q (k a))
    → Holds Q (m >>= k)
bind-Holds P Q (ok a) k h f = f a h
bind-Holds P Q (err e) k h f = tt

pub Holds_at {ℓ κ} :
    {A : Type ℓ} (P : A → Type κ) (r : Result A) (a : A) → Holds P r → r ≡ ok a → P a
Holds_at P r a h e = subst (Holds P) e h
