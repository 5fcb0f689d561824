-- ===== src/Translator/Tests.antt =====
-- The translator's theorems at concrete tags, with integers in place of doubles.
use opc_server.Prelude.{ℕ, ◌≡◌, refl, List, [], ◌∷◌, none, some, length, arith}
use opc_server.Prelude.Int.{◌-ℤ◌, to_unsigned}
use opc_server.Domain.{Result, ScalarValue}
use opc_server.Samples.{ints, ints_laws, level, short_tag}
use opc_server.Translator.Bytes.{reorder_u16, register_count_for, effective_order}
use opc_server.Translator.Codec.{Scalar, encode, encode_as, to_raw, decode}
use opc_server.Translator.Scale.{scalar_to_double, invert_scale, checked_integral}
use opc_server.Translator.Bounds.{decode_total, decode_float64_faults}
use opc_server.Translator.RoundTrip.{IsOf, decode-encode}

abbrev level_42 : Scalar ints
level_42 = ScalarValue.uint16 42

decode-encode_example :
    (regs : List ℕ) × (encode ints level level_42 ≡ Result.ok regs)
    × (length regs ≡ 1)
    × (decode ints level regs ≡ some (Result.ok level_42))
unfolding effective_order register_count_for
decode-encode_example =
    decode-encode ints ints_laws level level_42 (IsOf.uint16 42 (omega arith)) (refl, refl) refl
      refl

abbrev one_register : List ℕ
one_register = 42 ∷ []

level_encodes : encode ints level level_42 ≡ Result.ok one_register
unfolding encode encode_as to_raw scalar_to_double invert_scale checked_integral ◌-ℤ◌ reorder_u16
    effective_order to_unsigned
level_encodes = refl

-- No register came back.
decode_total_example : (r : Result (Scalar ints)) × (decode ints level [] ≡ some r)
unfolding register_count_for
decode_total_example = decode_total ints level [] (omega arith)

-- Two registers came back, as many as were asked for.
decode_float64_faults_example : decode ints short_tag (1 ∷ 2 ∷ []) ≡ none
decode_float64_faults_example =
    decode_float64_faults ints short_tag 2 (1 ∷ 2 ∷ []) refl refl (omega arith) (omega arith)
