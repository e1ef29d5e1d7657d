-- ===== src/Errors/Codes.antt =====
-- web/src/h2/errors.ts: ERROR_CODES, errorCodeName and errorCodeValue.
use mathlib.Core.Logic.{ite}
use grpc_bridge.Prelude.{ℕ, suc, ◌≡◌, refl, Option, some, List, [], ◌∷◌, get_elem?, arith}

pub data ErrorCode : Type 0 where
  no_error protocol_error internal_error flow_control_error settings_timeout : ErrorCode
  stream_closed frame_size_error refused_stream cancel compression_error : ErrorCode
  connect_error enhance_your_calm inadequate_security http_1_1_required : ErrorCode

pub ErrorCode-discrete : Discrete ErrorCode
ErrorCode-discrete = hlevel

abbrev pub error_codes : List ErrorCode
error_codes =
    no_error ∷ protocol_error ∷ internal_error ∷ flow_control_error ∷ settings_timeout
    ∷ stream_closed ∷ frame_size_error ∷ refused_stream ∷ cancel ∷ compression_error ∷ connect_error
    ∷ enhance_your_calm ∷ inadequate_security ∷ http_1_1_required ∷ []

unfoldable pub error_code_name : ℕ → Option ErrorCode
error_code_name code = get_elem? error_codes code

-- `Array.prototype.indexOf`, on an array that holds the value: every name is in ERROR_CODES.
index_of : ErrorCode → List ErrorCode → ℕ
unfolding ErrorCode-discrete
index_of c [] = 0
index_of c (x ∷ xs) = ite (ErrorCode-discrete x c) 0 (suc (index_of c xs))

unfoldable pub error_code_value : ErrorCode → ℕ
unfolding index_of
error_code_value c = index_of c error_codes

-- Every error code keeps its name through its number on the wire.
pub error_code_name-error_code_value :
    (c : ErrorCode) → error_code_name (error_code_value c) ≡ some c
unfolding error_code_name error_code_value
error_code_name-error_code_value no_error = refl
error_code_name-error_code_value _ = refl

pub error_code_value-error_code_name :
    (n : ℕ) (c : ErrorCode) → error_code_name n ≡ some c → error_code_value c ≡ n
unfolding error_code_name error_code_value
error_code_value-error_code_name n c e = ground arith

pub error_code_name_zero : error_code_name 0 ≡ some no_error
unfolding error_code_name
error_code_name_zero = refl

pub error_code_name_seven : error_code_name 7 ≡ some refused_stream
unfolding error_code_name
error_code_name_seven = refl
