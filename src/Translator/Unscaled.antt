-- ===== src/Translator/Unscaled.antt =====
-- Integers with scale 1 and offset 0 through scaling, unscaling and the range check.
use opc_server.Prelude.{◌≡◌, ap, ◌∙◌, arith}
use opc_server.Prelude.Int.{ℤ, pos, negsuc, ◌≤ℤ◌}
use opc_server.Domain.{Result}
use opc_server.Project.{Tag}
use opc_server.Platform.{Floats, IntegerLaws, IsExact}
use opc_server.Translator.Scale.{apply_scale, invert_scale, scalar_to_double, checked_integral}
use opc_server.Translator.Codec.{Scalar, to_raw}

pub IsExact-between : (z : ℤ) → negsuc 0x7fff_ffff ≤ℤ z → z ≤ℤ pos 0x7fff_ffff → IsExact z
IsExact-between (pos n) lo hi = omega arith
IsExact-between (negsuc n) lo hi = omega arith

module _ (fl : Floats) (laws : IntegerLaws fl) where
  open fl use {F32, F64, of_int, add, mul}

  -- `scale` 1 and `offset` 0.
  abbrev pub IsUnscaled : Tag F64 → Type 0
  IsUnscaled tag = (tag.scale ≡ of_int (pos 1)) × (tag.offset ≡ of_int (pos 0))

  pub apply_scale-unscaled :
      (tag : Tag F64) (z : ℤ)
      → IsUnscaled tag
      → IsExact z
      → apply_scale fl (of_int z) tag ≡ of_int z
  unfolding apply_scale
  apply_scale-unscaled tag z (s, o) h =
      ap (λ x. add (mul (of_int z) x) tag.offset) s
      ∙ ap (λ x. add (mul (of_int z) (of_int (pos 1))) x) o
      ∙ ap (λ x. add x (of_int (pos 0))) (laws.mul_one z h)
      ∙ laws.add_zero z h

  pub invert_scale-unscaled :
      (tag : Tag F64) (z : ℤ)
      → IsUnscaled tag
      → IsExact z
      → invert_scale fl (of_int z) tag ≡ Result.ok (of_int z)
  unfolding invert_scale
  invert_scale-unscaled tag z (s, o) h = rw (
    s,
    o,
    laws.sub_zero z h,
    laws.div_one z h,
    laws.finite z h,
    laws.finite (pos 1) (omega arith),
    laws.finite (pos 0) (omega arith),
    laws.one_ne_zero,
  )

  pub checked_integral-exact :
      (lo hi z : ℤ)
      → IsExact lo
      → IsExact hi
      → lo ≤ℤ z
      → z ≤ℤ hi
      → IsExact z
      → checked_integral fl lo hi (of_int z) ≡ Result.ok z
  unfolding checked_integral
  checked_integral-exact lo hi z el eh l h ez =
      rw
        (
          laws.finite z ez,
          laws.rounds z ez,
          laws.ordered z lo ez el,
          laws.ordered hi z eh ez,
          laws.back z ez,
        )
        (ground arith)

  pub to_raw-unscaled :
      (tag : Tag F64) (v : Scalar fl) (z : ℤ)
      → scalar_to_double fl v ≡ Result.ok (of_int z)
      → IsUnscaled tag
      → IsExact z
      → to_raw fl tag v ≡ Result.ok (of_int z)
  unfolding to_raw
  to_raw-unscaled tag v z e u h = ground (arith, invert_scale-unscaled tag z u h, e)

  -- A raw integer in range, read: scaling and checking give it back.
  pub loaded :
      (tag : Tag F64) (lo hi z : ℤ)
      → IsUnscaled tag
      → IsExact lo
      → IsExact hi
      → lo ≤ℤ z
      → z ≤ℤ hi
      → IsExact z
      → checked_integral fl lo hi (apply_scale fl (of_int z) tag) ≡ Result.ok z
  loaded tag lo hi z u el eh l h e =
      ap (checked_integral fl lo hi) (apply_scale-unscaled tag z u e)
      ∙ checked_integral-exact lo hi z el eh l h e
