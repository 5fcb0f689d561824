-- ===== src/Domain.antt =====
-- Src/domain: qualities, scalar values, tag values, errors and results (types.hpp), and the change
-- of quality that keeps the last engineering value (tag_value_util.hpp). A 64-bit timestamp is an
-- integer; a float or a double is a value of the types F32 and F64 that the program takes from
-- the platform.
use opc_server.Prelude.{ℕ, Bool, Option, none, some, if◌then◌else◌, true, false, String}
use opc_server.Prelude.Int.{ℤ, pos}

pub data Quality : Type 0 where
  good uncertain bad : Quality

-- `no_reason` is the source's `None`.
pub data QualityReason : Type 0 where
  no_reason no_communication device_failure timeout modbus_exception : QualityReason
  decoding_error stale write_pending write_rejected out_of_range : QualityReason

pub data ErrorCode : Type 0 where
  ok invalid_argument not_found timeout connection modbus_exception : ErrorCode
  decoding queue_full permission internal not_implemented : ErrorCode

pub record Error : Type 0 where
  pub code : ErrorCode
  pub message : String
  pub component : String
  pub retryable : Bool
  pub protocol_status : Option ℤ

-- std::expected
pub data Result {ℓ} (A : Type ℓ) : Type ℓ where
  ok : A → Result A
  err : Error → Result A

infixl 5 ◌>>=◌
abbrev pub ◌>>=◌ {ℓ κ} : {A : Type ℓ} {B : Type κ} → Result A → (A → Result B) → Result B
Result.ok a >>= f = f a
Result.err e >>= f = err e

-- An error with no protocol status.
abbrev pub make_error : ErrorCode → String → String → Bool → Error
make_error c m comp r = record {
  code = c;
  message = m;
  component = comp;
  retryable = r;
  protocol_status = none;
}

module _ (F32 F64 : Type 0) where
  pub data ScalarValue : Type 0 where
    monostate : ScalarValue
    bool : Bool → ScalarValue
    uint16 : ℕ → ScalarValue
    int16 : ℤ → ScalarValue
    uint32 : ℕ → ScalarValue
    int32 : ℤ → ScalarValue
    float : F32 → ScalarValue
    double : F64 → ScalarValue

pub record TagValue (V : Type 0) : Type 0 where
  pub value : V
  pub quality : Quality
  pub reason : QualityReason
  pub source_ts : ℤ
  pub server_ts : ℤ
  pub epoch : ℕ

-- `TagValue{}` over the empty scalar.
abbrev pub default_tag_value : {V : Type 0} → V → TagValue V
default_tag_value v = record {
  value = v;
  quality = bad;
  reason = no_communication;
  source_ts = pos 0;
  server_ts = pos 0;
  epoch = 0;
}

abbrev pub value_or {ℓ} : {A : Type ℓ} → Option A → A → A
value_or none a = a
value_or (some b) a = b

abbrev pub is_zero : ℤ → Bool
is_zero (pos ℕ.zero) = true
is_zero _ = false

abbrev pub old_source_ts : {V : Type 0} → Option (TagValue V) → ℤ → ℤ
old_source_ts none t = t
old_source_ts (some p) t = if is_zero t then p.source_ts else t

unfoldable pub with_quality :
    {V : Type 0} → V → Option (TagValue V) → Quality → QualityReason → ℤ → TagValue V
with_quality v previous q r ts =
    let out = value_or previous (default_tag_value v) in
    record out {
      quality = q;
      reason = r;
      server_ts = ts;
      source_ts = old_source_ts previous out.source_ts;
    }
