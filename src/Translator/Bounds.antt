-- ===== src/Translator/Bounds.antt =====
-- How many registers encode makes, and when decode reads out of the registers' range.
use opc_server.Prelude.{
  ℕ, ◌≡◌, ◌<◌, ◌≤◌, refl, List, [], ◌∷◌, none, some, length, arith, String, Bool-cases, ◌⊎◌, inl,
  inr,
}
use opc_server.Prelude.Int.{pos, ltb_ℤ, ◌≤ℤ◌}
use opc_server.Domain.{Result, ScalarValue, Error, ErrorCode, value_or}
use opc_server.Project.{Tag, TagType}
use opc_server.Platform.{Floats}
use opc_server.Translator.Bytes.{
  register_count_for, ensure_count, effective_order, translator_error, be_bytes_to_regs,
  reorder_u16,
}
use opc_server.Translator.Codec.{
  Scalar, decode, decode_as, decode_f64, encode, encode_as, encode_words,
}

module _ (fl : Floats) where
  open fl use {F32, F64}

  encode_as-length :
      (type : TagType) (tag : Tag F64) (order : String) (v : Scalar fl) (regs : List ℕ)
      → encode_as fl type tag order v ≡ Result.ok regs
      → length regs ≡ register_count_for type
  unfolding encode_as encode_words register_count_for be_bytes_to_regs reorder_u16
  encode_as-length TagType.bool tag order (ScalarValue.bool b) regs e = ground arith
  encode_as-length TagType.bool tag order _ regs e = ground arith
  encode_as-length TagType.uint16 tag order v regs e = ground arith
  encode_as-length TagType.int16 tag order v regs e = ground arith
  encode_as-length TagType.uint32 tag order v regs e = ground arith
  encode_as-length TagType.int32 tag order v regs e = ground arith
  encode_as-length TagType.float32 tag order v regs e = ground arith
  encode_as-length TagType.float64 tag order v regs e = ground arith

  -- What encoding gives is always as many registers as the tag's type takes, whatever the value, the
  -- scale, the byte order and the platform's floating point.
  pub length-encode :
      (tag : Tag F64) (v : Scalar fl) (regs : List ℕ)
      → encode fl tag v ≡ Result.ok regs
      → length regs ≡ register_count_for tag.type
  unfolding encode
  length-encode tag v regs e = encode_as-length tag.type tag _ v regs e

  decode_f64_total :
      (tag : Tag F64) (regs : List ℕ)
      → 4 ≤ length regs
      → (r : Result (Scalar fl)) × (decode_f64 fl tag regs ≡ some r)
  unfolding decode_f64
  decode_f64_total tag [] h = absurd (omega arith)
  decode_f64_total tag (a ∷ []) h = absurd (omega arith)
  decode_f64_total tag (a ∷ b ∷ []) h = absurd (omega arith)
  decode_f64_total tag (a ∷ b ∷ c ∷ []) h = absurd (omega arith)
  decode_f64_total tag (a ∷ b ∷ c ∷ d ∷ regs) h = (_, refl)

  decode_as_total :
      (type : TagType) (tag : Tag F64) (order : String) (regs : List ℕ)
      → register_count_for type ≤ length regs
      → (r : Result (Scalar fl)) × (decode_as fl type tag order regs ≡ some r)
  unfolding decode_as register_count_for
  decode_as_total TagType.bool tag order [] h = absurd (omega arith)
  decode_as_total TagType.bool tag order (r ∷ regs) h = (_, refl)
  decode_as_total TagType.uint16 tag order [] h = absurd (omega arith)
  decode_as_total TagType.uint16 tag order (r ∷ regs) h = (_, refl)
  decode_as_total TagType.int16 tag order [] h = absurd (omega arith)
  decode_as_total TagType.int16 tag order (r ∷ regs) h = (_, refl)
  decode_as_total TagType.uint32 tag order regs h = (_, refl)
  decode_as_total TagType.int32 tag order regs h = (_, refl)
  decode_as_total TagType.float32 tag order regs h = (_, refl)
  decode_as_total TagType.float64 tag order regs h = decode_f64_total tag regs h

  -- The quantity, if one is set, covers the registers that the type takes.
  abbrev pub Covers : Tag F64 → Type 0
  Covers tag =
      pos (register_count_for tag.type) ≤ℤ value_or tag.quantity (pos (register_count_for tag.type))

  ensure_count-ok :
      (tag : Tag F64) (regs : List ℕ)
      → Covers tag
      → ((e : Error) × (ensure_count tag regs ≡ Result.err e))
        ⊎ ((ensure_count tag regs ≡ Result.ok tt) × (register_count_for tag.type ≤ length regs))
  unfolding ensure_count
  ensure_count-ok tag regs h =
      elim (Bool-cases
        (ltb_ℤ (pos (length regs)) (value_or tag.quantity (pos (register_count_for tag.type))))) [
          | inl e ↦
              inl (translator_error ErrorCode.decoding "not enough registers for tag type", rw e)
          | inr e ↦ inr (rw e, ground arith)
        ]

  -- Where the tag's quantity, if set, is at least the number of registers of its type, decoding never
  -- reads out of the registers' range, however many registers came back: it gives a value or an
  -- error.
  pub decode_total :
      (tag : Tag F64) (regs : List ℕ)
      → Covers tag
      → (r : Result (Scalar fl)) × (decode fl tag regs ≡ some r)
  unfolding decode
  decode_total tag regs h = elim (ensure_count-ok tag regs h) [
    | inl (e, p) ↦ (Result.err e, rw (p, decode))
    | inr (p, n) ↦
        let order = effective_order tag in
        let (r, q) = decode_as_total tag.type tag order regs n in (r, rw (p, decode) q)
  ]

  decode_f64_short :
      (tag : Tag F64) (regs : List ℕ) → length regs < 4 → decode_f64 fl tag regs ≡ none
  unfolding decode_f64
  decode_f64_short tag [] h = refl
  decode_f64_short tag (a ∷ []) h = refl
  decode_f64_short tag (a ∷ b ∷ []) h = refl
  decode_f64_short tag (a ∷ b ∷ c ∷ []) h = refl
  decode_f64_short tag (a ∷ b ∷ c ∷ d ∷ regs) h = absurd (omega arith)

  -- A float64 tag whose quantity is set below four reads out of the registers' range whenever at
  -- least the quantity and fewer than four registers came back.
  pub decode_float64_faults :
      (tag : Tag F64) (q : ℕ) (regs : List ℕ)
      → tag.type ≡ TagType.float64
      → tag.quantity ≡ some (pos q)
      → q ≤ length regs
      → length regs < 4
      → decode fl tag regs ≡ none
  unfolding decode decode_as ensure_count
  decode_float64_faults tag q regs ty qty enough short =
      ground (arith, decode_f64_short tag regs short)
