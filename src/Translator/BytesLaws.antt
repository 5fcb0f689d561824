-- ===== src/Translator/BytesLaws.antt =====
-- Byte orders, bytes and 32-bit words, and two's complement words and integers.
use opc_server.Prelude.{
  ℕ, ◌+◌, ◌*◌, ◌/◌, ◌%◌, ◌^◌, ◌≡◌, ◌<◌, [], ◌∷◌, String, Bool, true, ◌||◌, arith, if◌then◌else◌,
}
use opc_server.Prelude.Int.{ℤ, pos, negsuc, to_unsigned, ◌≤ℤ◌}
use opc_server.Prelude.Eq.{◌=?◌, string_eq}
use opc_server.Domain.{Result}
use opc_server.Translator.Bytes.{
  Bytes4, reorder_u16, regs_to_be_bytes, be_bytes_to_regs, bytes_to_u32, u32_to_bytes, to_signed,
}

abbrev pub is_order16 : String → Bool
is_order16 order = order =? "" || order =? "AB" || order =? "BA"

abbrev pub is_order32 : String → Bool
is_order32 order = order =? "ABCD" || order =? "CDAB" || order =? "BADC" || order =? "DCBA"

-- For each of the 16-bit orders, reordering a 16-bit register twice gives it back.
pub reorder_u16-reorder_u16 :
    (order : String) (raw : ℕ)
    → raw < 0x10000
    → is_order16 order ≡ true
    → (w : ℕ) × (reorder_u16 raw order ≡ Result.ok w) × (reorder_u16 w order ≡ Result.ok raw)
unfolding reorder_u16
reorder_u16-reorder_u16 order raw h o = (
  (if order =? "" || order =? "AB" then raw else (raw % 256 * 256 + raw / 256 % 256)),
  ground arith,
  ground arith,
)

abbrev regs_of : String → Bytes4 → ℕ × ℕ
regs_of order (a, b, c, d) =
    if order =? "ABCD"
    then (a * 256 + b, c * 256 + d)
    else if order =? "CDAB"
    then (c * 256 + d, a * 256 + b)
    else if order =? "BADC"
    then (b * 256 + a, d * 256 + c)
    else (d * 256 + c, b * 256 + a)

-- For each of the 32-bit orders, four bytes laid out in two registers are read back.
pub regs_to_be_bytes-be_bytes_to_regs :
    (order : String) (a b c d : ℕ)
    → a < 256
    → b < 256
    → c < 256
    → d < 256
    → is_order32 order ≡ true
    → (w : ℕ × ℕ) × (be_bytes_to_regs (a, b, c, d) order ≡ Result.ok w)
      × (regs_to_be_bytes (w.0 ∷ w.1 ∷ []) order ≡ Result.ok (a, b, c, d))
unfolding regs_to_be_bytes be_bytes_to_regs
regs_to_be_bytes-be_bytes_to_regs order a b c d ha hb hc hd o =
    (regs_of order (a, b, c, d), ground arith, ground arith)

pub bytes_to_u32-u32_to_bytes : (v : ℕ) → v < 2 ^ 32 → bytes_to_u32 (u32_to_bytes v) ≡ v
unfolding bytes_to_u32 u32_to_bytes
bytes_to_u32-u32_to_bytes v h = omega arith

pub to_signed-to_unsigned16 :
    (z : ℤ) → negsuc 0x7fff ≤ℤ z → z ≤ℤ pos 0x7fff → to_signed 0x8000 (to_unsigned z 0x10000) ≡ z
unfolding to_signed to_unsigned
to_signed-to_unsigned16 (pos n) lo hi = ground arith
to_signed-to_unsigned16 (negsuc n) lo hi = ground arith

pub to_signed-to_unsigned32 :
    (z : ℤ)
    → negsuc 0x7fff_ffff ≤ℤ z
    → z ≤ℤ pos 0x7fff_ffff
    → to_signed 0x8000_0000 (to_unsigned z 0x1_0000_0000) ≡ z
unfolding to_signed to_unsigned
to_signed-to_unsigned32 (pos n) lo hi = ground arith
to_signed-to_unsigned32 (negsuc n) lo hi = ground arith

pub to_unsigned-lt : (z : ℤ) (m : ℕ) → 0 < m → to_unsigned z m < m
unfolding to_unsigned
to_unsigned-lt (pos n) m h = omega arith
to_unsigned-lt (negsuc n) m h = omega arith
