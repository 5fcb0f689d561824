-- ===== src/Translator/Codec.antt =====
-- Translator::decode and Translator::encode. `none` is an index out of the registers' range, which
-- C++ leaves undefined.
use opc_server.Prelude.{
  ℕ, ◌+◌, ◌*◌, ◌/◌, ◌%◌, ◌^◌, List, [], ◌∷◌, Option, none, some, String, not, ◌==◌, get_elem?,
  if◌then◌else◌,
}
use opc_server.Prelude.Int.{pos, negsuc, to_unsigned}
use opc_server.Domain.{ScalarValue, ErrorCode, Result, ◌>>=◌}
use opc_server.Project.{Tag, TagType}
use opc_server.Platform.{Floats}
use opc_server.Translator.Bytes.{
  translator_error, ensure_count, effective_order, reorder_u16, regs_to_be_bytes, be_bytes_to_regs,
  bytes_to_u32, u32_to_bytes, to_signed,
}
use opc_server.Translator.Scale.{apply_scale, invert_scale, scalar_to_double, checked_integral}

-- A register that is read, or undefined behaviour.
abbrev pub with_register : {A : Type 0} → List ℕ → ℕ → (ℕ → Option A) → Option A
with_register regs i k = elim (get_elem? regs i) [ none ↦ none | some r ↦ k r ]

module _ (fl : Floats) where
  open fl use {
    F32, F64, less, abs, of_int, widen, narrow, max_f32, bits32, of_bits32, bits64, of_bits64,
  }

  abbrev pub Scalar : Type 0
  Scalar = ScalarValue F32 F64

  unfoldable pub decode_u16 : Tag F64 → String → ℕ → Result Scalar
  decode_u16 tag order r = do
    raw ← reorder_u16 r order
    scaled ← checked_integral fl (pos 0) (pos 0xffff) (apply_scale fl (of_int (pos raw)) tag)
    Result.ok (ScalarValue.uint16 (to_unsigned scaled 0x10000))

  unfoldable pub decode_i16 : Tag F64 → String → ℕ → Result Scalar
  decode_i16 tag order r = do
    raw ← reorder_u16 r order
    scaled ←
        checked_integral fl (negsuc 0x7fff) (pos 0x7fff)
          (apply_scale fl (of_int (to_signed 0x8000 raw)) tag)
    Result.ok (ScalarValue.int16 scaled)

  unfoldable pub decode_u32 : Tag F64 → String → List ℕ → Result Scalar
  decode_u32 tag order regs = do
    bytes ← regs_to_be_bytes regs order
    scaled ←
        checked_integral fl (pos 0) (pos 0xffff_ffff)
          (apply_scale fl (of_int (pos (bytes_to_u32 bytes))) tag)
    Result.ok (ScalarValue.uint32 (to_unsigned scaled 0x1_0000_0000))

  unfoldable pub decode_i32 : Tag F64 → String → List ℕ → Result Scalar
  decode_i32 tag order regs = do
    bytes ← regs_to_be_bytes regs order
    scaled ←
        checked_integral fl (negsuc 0x7fff_ffff) (pos 0x7fff_ffff)
          (apply_scale fl (of_int (to_signed 0x8000_0000 (bytes_to_u32 bytes))) tag)
    Result.ok (ScalarValue.int32 scaled)

  unfoldable pub decode_f32 : Tag F64 → String → List ℕ → Result Scalar
  decode_f32 tag order regs = do
    bytes ← regs_to_be_bytes regs order
    let raw = of_bits32 (bytes_to_u32 bytes)
    Result.ok (ScalarValue.float (narrow (apply_scale fl (widen raw) tag)))

  -- `bits = (bits << 16) | registers[i]` for i from 0 to 3, in 64 bits.
  abbrev pub shift_in : ℕ → ℕ → ℕ
  shift_in bits r = bits * 2 ^ 16 % 2 ^ 64 + r

  unfoldable pub decode_f64 : Tag F64 → List ℕ → Option (Result Scalar)
  decode_f64 tag regs = with_register regs 0 λ r0. with_register regs 1 λ r1.
      with_register regs 2 λ r2. with_register regs 3 λ r3. some (
        Result.ok (
          ScalarValue.double (
            apply_scale fl (of_bits64 (shift_in (shift_in (shift_in (shift_in 0 r0) r1) r2) r3))
              tag)))

  unfoldable pub decode_as : TagType → Tag F64 → String → List ℕ → Option (Result Scalar)
  decode_as TagType.bool tag order regs =
      with_register regs 0 λ r. some (Result.ok (ScalarValue.bool (not (r == 0))))
  decode_as TagType.uint16 tag order regs = with_register regs 0 λ r. some (decode_u16 tag order r)
  decode_as TagType.int16 tag order regs = with_register regs 0 λ r. some (decode_i16 tag order r)
  decode_as TagType.uint32 tag order regs = some (decode_u32 tag order regs)
  decode_as TagType.int32 tag order regs = some (decode_i32 tag order regs)
  decode_as TagType.float32 tag order regs = some (decode_f32 tag order regs)
  decode_as TagType.float64 tag order regs = decode_f64 tag regs

  unfoldable pub decode : Tag F64 → List ℕ → Option (Result Scalar)
  decode tag regs = elim (ensure_count tag regs) [
    | Result.err e ↦ some (Result.err e)
    | Result.ok _ ↦ decode_as tag.type tag (effective_order tag) regs
  ]

  -- The engineering value as a raw double.
  unfoldable pub to_raw : Tag F64 → Scalar → Result F64
  to_raw tag v = do eng ← scalar_to_double fl v; invert_scale fl eng tag

  unfoldable pub encode_words : String → ℕ → Result (List ℕ)
  encode_words order bits = do
    words ← be_bytes_to_regs (u32_to_bytes bits) order
    Result.ok (words.0 ∷ words.1 ∷ [])

  unfoldable pub encode_as : TagType → Tag F64 → String → Scalar → Result (List ℕ)
  encode_as TagType.bool tag order (ScalarValue.bool b) = Result.ok ((if b then 1 else 0) ∷ [])
  encode_as TagType.bool tag order _ =
      Result.err (translator_error ErrorCode.invalid_argument "bool expected")
  encode_as TagType.uint16 tag order v = do
    raw_d ← to_raw tag v
    checked ← checked_integral fl (pos 0) (pos 0xffff) raw_d
    raw ← reorder_u16 (to_unsigned checked 0x10000) order
    Result.ok (raw ∷ [])
  encode_as TagType.int16 tag order v = do
    raw_d ← to_raw tag v
    checked ← checked_integral fl (negsuc 0x7fff) (pos 0x7fff) raw_d
    raw ← reorder_u16 (to_unsigned checked 0x10000) order
    Result.ok (raw ∷ [])
  encode_as TagType.uint32 tag order v = do
    raw_d ← to_raw tag v
    checked ← checked_integral fl (pos 0) (pos 0xffff_ffff) raw_d
    encode_words order (to_unsigned checked 0x1_0000_0000)
  encode_as TagType.int32 tag order v = do
    raw_d ← to_raw tag v
    checked ← checked_integral fl (negsuc 0x7fff_ffff) (pos 0x7fff_ffff) raw_d
    encode_words order (to_unsigned checked 0x1_0000_0000)
  encode_as TagType.float32 tag order v = do
    raw_d ← to_raw tag v
    if less max_f32 (abs raw_d)
        then Result.err
            (translator_error ErrorCode.invalid_argument "float32 value is out of range")
        else encode_words order (bits32 (narrow raw_d))
  encode_as TagType.float64 tag order v = do
    raw_d ← to_raw tag v
    let bits = bits64 raw_d
    Result.ok (
        (bits / 2 ^ 48 % 2 ^ 16)
        ∷ (bits / 2 ^ 32 % 2 ^ 16)
        ∷ (bits / 2 ^ 16 % 2 ^ 16)
        ∷ (bits % 2 ^ 16)
        ∷ [])

  unfoldable pub encode : Tag F64 → Scalar → Result (List ℕ)
  encode tag v = encode_as tag.type tag (effective_order tag) v
