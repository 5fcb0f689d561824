-- ===== src/Translator/RoundTrip.antt =====
-- Writing an integer value and reading it back.
use native.Mathlib.Nat.{mod-eq_of_lt}
use opc_server.Prelude.{
  ℕ, ◌^◌, ◌≡◌, ◌<◌, ◌≤◌, refl, ◌∙◌, List, [], ◌∷◌, none, some, Bool, true, String, arith, length,
}
use opc_server.Prelude.Int.{ℤ, pos, negsuc, to_unsigned, ◌≤ℤ◌}
use opc_server.Domain.{Result, ScalarValue}
use opc_server.Project.{Tag, TagType}
use opc_server.Platform.{Floats, IntegerLaws}
use opc_server.Translator.Bytes.{
  register_count_for, ensure_count, effective_order, u32_to_bytes, regs_to_be_bytes,
  be_bytes_to_regs,
}
use opc_server.Translator.BytesLaws.{
  is_order16, is_order32, reorder_u16-reorder_u16, regs_to_be_bytes-be_bytes_to_regs,
  bytes_to_u32-u32_to_bytes, to_signed-to_unsigned16, to_signed-to_unsigned32, to_unsigned-lt,
}
use opc_server.Translator.Scale.{scalar_to_double}
use opc_server.Translator.Codec.{
  Scalar, decode, decode_as, decode_u16, decode_i16, decode_u32, decode_i32, encode, encode_as,
  encode_words,
}
use opc_server.Translator.Unscaled.{
  IsExact-between, IsUnscaled, checked_integral-exact, to_raw-unscaled, loaded,
}

word-round_trip :
    (order : String) (n : ℕ)
    → is_order32 order ≡ true
    → (w : ℕ × ℕ) × (be_bytes_to_regs (u32_to_bytes n) order ≡ Result.ok w)
      × (regs_to_be_bytes (w.0 ∷ w.1 ∷ []) order ≡ Result.ok (u32_to_bytes n))
unfolding u32_to_bytes
word-round_trip order n o =
    regs_to_be_bytes-be_bytes_to_regs order _ _ _ _ (omega arith) (omega arith) (omega arith)
      (omega arith) o

to_unsigned-pos : (n m : ℕ) → n < m → to_unsigned (pos n) m ≡ n
unfolding to_unsigned
to_unsigned-pos n m h = mod-eq_of_lt h

module _ (fl : Floats) (laws : IntegerLaws fl) where
  open fl use {F32, F64, of_int, add, mul}

  decode-eq :
      (tag : Tag F64) (regs : List ℕ)
      → tag.quantity ≡ none
      → register_count_for tag.type ≤ length regs
      → decode fl tag regs ≡ decode_as fl tag.type tag (effective_order tag) regs
  unfolding decode ensure_count
  decode-eq tag regs q h = ground arith

  -- The values of an integer type.
  pub data IsOf : TagType → Scalar fl → Type 0 where
    uint16 : (n : ℕ) → n < 2 ^ 16 → IsOf TagType.uint16 (ScalarValue.uint16 n)
    int16 :
        (z : ℤ) → negsuc 0x7fff ≤ℤ z → z ≤ℤ pos 0x7fff → IsOf TagType.int16 (ScalarValue.int16 z)
    uint32 : (n : ℕ) → n < 2 ^ 32 → IsOf TagType.uint32 (ScalarValue.uint32 n)
    int32 :
        (z : ℤ)
        → negsuc 0x7fff_ffff ≤ℤ z
        → z ≤ℤ pos 0x7fff_ffff
        → IsOf TagType.int32 (ScalarValue.int32 z)

  -- The byte orders of an integer type.
  abbrev pub is_order : TagType → String → Bool
  is_order TagType.uint16 order = is_order16 order
  is_order TagType.int16 order = is_order16 order
  is_order _ order = is_order32 order

  abbrev RoundTrips : TagType → Tag F64 → String → Scalar fl → Type 0
  RoundTrips type tag order v =
      (regs : List ℕ) × (encode_as fl type tag order v ≡ Result.ok regs)
      × (length regs ≡ register_count_for type)
      × (decode_as fl type tag order regs ≡ some (Result.ok v))

  round_trip-uint16 :
      (tag : Tag F64) (order : String) (n : ℕ)
      → n < 2 ^ 16
      → IsUnscaled fl laws tag
      → is_order16 order ≡ true
      → RoundTrips TagType.uint16 tag order (ScalarValue.uint16 n)
  unfolding decode_as encode_as register_count_for decode_u16 to_unsigned scalar_to_double
  round_trip-uint16 tag order n h u o =
      let (w, there, back) = reorder_u16-reorder_u16 order n (omega arith) o in
      (
        w ∷ [],
        ground (
          arith,
          there,
          to_raw-unscaled fl laws tag (ScalarValue.uint16 n) (pos n) refl u,
          checked_integral-exact fl laws (pos 0) (pos 0xffff) (pos n),
        ),
        refl,
        ground (arith, back, loaded fl laws tag (pos 0) (pos 0xffff) (pos n) u),
      )

  round_trip-int16 :
      (tag : Tag F64) (order : String) (z : ℤ)
      → negsuc 0x7fff ≤ℤ z
      → z ≤ℤ pos 0x7fff
      → IsUnscaled fl laws tag
      → is_order16 order ≡ true
      → RoundTrips TagType.int16 tag order (ScalarValue.int16 z)
  unfolding decode_as encode_as register_count_for decode_i16 scalar_to_double
  round_trip-int16 tag order z lo hi u o =
      let n = to_unsigned z 0x10000 in
      let (w, there, back) =
        reorder_u16-reorder_u16 order n (to_unsigned-lt z 0x10000 (omega arith)) o in
      (
        w ∷ [],
        ground (
          arith,
          there,
          to_raw-unscaled fl laws tag (ScalarValue.int16 z) z refl u
              (IsExact-between z (omega arith) (omega arith)),
          checked_integral-exact fl laws (negsuc 0x7fff) (pos 0x7fff) z (omega arith) (omega arith)
              lo hi (IsExact-between z (omega arith) (omega arith)),
        ),
        refl,
        ground (
          arith,
          back,
          to_signed-to_unsigned16 z lo hi,
          loaded fl laws tag (negsuc 0x7fff) (pos 0x7fff) z u (omega arith) (omega arith) lo hi
              (IsExact-between z (omega arith) (omega arith)),
        ),
      )

  round_trip-uint32 :
      (tag : Tag F64) (order : String) (n : ℕ)
      → n < 2 ^ 32
      → IsUnscaled fl laws tag
      → is_order32 order ≡ true
      → RoundTrips TagType.uint32 tag order (ScalarValue.uint32 n)
  unfolding decode_as encode_as register_count_for decode_u32 encode_words scalar_to_double
  round_trip-uint32 tag order n h u o =
      let b = u32_to_bytes n in
      let (w, there, back) = word-round_trip order n o in
      (
        w.0 ∷ w.1 ∷ [],
        ground (
          arith,
          there,
          to_unsigned-pos n 0x1_0000_0000 h,
          to_raw-unscaled fl laws tag (ScalarValue.uint32 n) (pos n) refl u (omega arith),
          checked_integral-exact fl laws (pos 0) (pos 0xffff_ffff) (pos n) (omega arith)
              (omega arith) (omega arith) (omega arith) (omega arith),
        ),
        refl,
        ground (
          arith,
          back,
          to_unsigned-pos n 0x1_0000_0000 h,
          bytes_to_u32-u32_to_bytes n h,
          loaded fl laws tag (pos 0) (pos 0xffff_ffff) (pos n) u (omega arith) (omega arith)
              (omega arith) (omega arith) (omega arith),
        ),
      )

  round_trip-int32 :
      (tag : Tag F64) (order : String) (z : ℤ)
      → negsuc 0x7fff_ffff ≤ℤ z
      → z ≤ℤ pos 0x7fff_ffff
      → IsUnscaled fl laws tag
      → is_order32 order ≡ true
      → RoundTrips TagType.int32 tag order (ScalarValue.int32 z)
  unfolding decode_as encode_as register_count_for decode_i32 encode_words scalar_to_double
  round_trip-int32 tag order z lo hi u o =
      let n = to_unsigned z 0x1_0000_0000 in
      let (w, there, back) = word-round_trip order n o in
      (
        w.0 ∷ w.1 ∷ [],
        ground (
          arith,
          there,
          to_raw-unscaled fl laws tag (ScalarValue.int32 z) z refl u
              (IsExact-between z (omega arith) (omega arith)),
          checked_integral-exact fl laws (negsuc 0x7fff_ffff) (pos 0x7fff_ffff) z (omega arith)
              (omega arith) lo hi (IsExact-between z (omega arith) (omega arith)),
        ),
        refl,
        ground (
          arith,
          back,
          bytes_to_u32-u32_to_bytes n (to_unsigned-lt z 0x1_0000_0000 (omega arith)),
          to_signed-to_unsigned32 z lo hi,
          loaded fl laws tag (negsuc 0x7fff_ffff) (pos 0x7fff_ffff) z u (omega arith) (omega arith)
              lo hi (IsExact-between z (omega arith) (omega arith)),
        ),
      )

  round_trip_as :
      (type : TagType) (tag : Tag F64) (order : String) (v : Scalar fl)
      → IsOf type v
      → IsUnscaled fl laws tag
      → is_order type order ≡ true
      → RoundTrips type tag order v
  round_trip_as _ tag order _ (uint16 n h) u o = round_trip-uint16 tag order n h u o
  round_trip_as _ tag order _ (int16 z lo hi) u o = round_trip-int16 tag order z lo hi u o
  round_trip_as _ tag order _ (uint32 n h) u o = round_trip-uint32 tag order n h u o
  round_trip_as _ tag order _ (int32 z lo hi) u o = round_trip-int32 tag order z lo hi u o

  -- For a tag of an integer type with scale 1, offset 0, no quantity set and a byte order of its
  -- type, every value of the type is encoded, in as many registers as the type takes, and decoding
  -- these registers gives the value back; on a platform whose doubles treat integers as IEEE 754
  -- does.
  pub decode-encode :
      (tag : Tag F64) (v : Scalar fl)
      → IsOf tag.type v
      → IsUnscaled fl laws tag
      → tag.quantity ≡ none
      → is_order tag.type (effective_order tag) ≡ true
      → (regs : List ℕ) × (encode fl tag v ≡ Result.ok regs)
        × (length regs ≡ register_count_for tag.type)
        × (decode fl tag regs ≡ some (Result.ok v))
  unfolding encode
  decode-encode tag v i u q o =
      let (regs, there, size, back) = round_trip_as tag.type tag (effective_order tag) v i u o in
      (regs, there, size, decode-eq tag regs q (omega (arith, size)) ∙ back)
