-- ===== src/Translator/Scale.antt =====
-- Scaling, and the conversion of scalars and of doubles to integers.
use opc_server.Prelude.{not, ◌||◌, if◌then◌else◌}
use opc_server.Prelude.Int.{ℤ, pos}
use opc_server.Domain.{ScalarValue, ErrorCode, Result}
use opc_server.Project.{Tag}
use opc_server.Platform.{Floats}
use opc_server.Translator.Bytes.{translator_error}

module _ (fl : Floats) where
  open fl use {F32, F64, add, sub, mul, div, round, is_finite, less, equal, of_int, to_int, widen}

  unfoldable pub apply_scale : F64 → Tag F64 → F64
  apply_scale raw tag = add (mul raw tag.scale) tag.offset

  unfoldable pub invert_scale : F64 → Tag F64 → Result F64
  invert_scale eng tag =
      let raw = div (sub eng tag.offset) tag.scale in
      if not (is_finite eng) || not (is_finite tag.scale) || not (is_finite tag.offset)
      then Result.err (translator_error ErrorCode.invalid_argument "non-finite scale/value")
      else if equal tag.scale (of_int (pos 0))
      then Result.err (translator_error ErrorCode.invalid_argument "scale is zero")
      else if not (is_finite raw)
      then Result.err (translator_error ErrorCode.invalid_argument "scaled value is out of range")
      else Result.ok raw

  unfoldable pub scalar_to_double : ScalarValue F32 F64 → Result F64
  scalar_to_double ScalarValue.monostate =
      Result.err (translator_error ErrorCode.invalid_argument "empty value")
  scalar_to_double (ScalarValue.bool b) = Result.ok (of_int (if b then pos 1 else pos 0))
  scalar_to_double (ScalarValue.uint16 n) = Result.ok (of_int (pos n))
  scalar_to_double (ScalarValue.int16 z) = Result.ok (of_int z)
  scalar_to_double (ScalarValue.uint32 n) = Result.ok (of_int (pos n))
  scalar_to_double (ScalarValue.int32 z) = Result.ok (of_int z)
  scalar_to_double (ScalarValue.float f) = Result.ok (widen f)
  scalar_to_double (ScalarValue.double d) = Result.ok d

  -- `lowest` and `highest` are the limits of the integer type T.
  unfoldable pub checked_integral : ℤ → ℤ → F64 → Result ℤ
  checked_integral lowest highest value =
      let rounded = round value in
      if not (is_finite value)
      then Result.err (translator_error ErrorCode.invalid_argument "non-finite integer value")
      else if less rounded (of_int lowest) || less (of_int highest) rounded
      then Result.err (translator_error ErrorCode.invalid_argument "integer value is out of range")
      else Result.ok (to_int rounded)
