-- ===== src/Translator/Bytes.antt =====
-- Register counts, byte orders, and words as bytes. `a << 8 | b` on bytes is `a * 256 + b`; the
-- masked halves that `reorder_u16` joins are disjoint, so its `|` is a sum too.
use opc_server.Prelude.{
  ℕ, Bool, ◌+◌, ◌*◌, ◌/◌, ◌%◌, ◌-◌, ◌^◌, List, String, length, get_or, ltb, if◌then◌else◌, ◌||◌,
}
use opc_server.Prelude.Int.{ℤ, pos, negsuc, ltb_ℤ}
use opc_server.Prelude.Eq.{◌=?◌, string_eq}
use opc_server.Domain.{Error, ErrorCode, Result, make_error, value_or}
use opc_server.Project.{Tag, TagType}

abbrev pub translator_error : ErrorCode → String → Error
translator_error code message = make_error code message "core.translator" Bool.false

unfoldable pub register_count_for : TagType → ℕ
register_count_for TagType.bool = 1
register_count_for TagType.uint16 = 1
register_count_for TagType.int16 = 1
register_count_for TagType.uint32 = 2
register_count_for TagType.int32 = 2
register_count_for TagType.float32 = 2
register_count_for TagType.float64 = 4

unfoldable pub ensure_count : {F64 : Type 0} → Tag F64 → List ℕ → Result (Unit {0})
unfolding register_count_for
ensure_count tag registers =
    let need = value_or tag.quantity (pos (register_count_for tag.type)) in
    if ltb_ℤ (pos (length registers)) need
    then Result.err (translator_error ErrorCode.decoding "not enough registers for tag type")
    else Result.ok tt

abbrev pub default_order : TagType → String
default_order TagType.uint16 = "AB"
default_order TagType.int16 = "AB"
default_order TagType.bool = ""
default_order _ = "ABCD"

unfoldable pub effective_order : {F64 : Type 0} → Tag F64 → String
effective_order tag = if tag.byte_order =? "" then default_order tag.type else tag.byte_order

unfoldable pub reorder_u16 : ℕ → String → Result ℕ
reorder_u16 raw order =
    if order =? "" || order =? "AB"
    then Result.ok raw
    else if order =? "BA"
    then Result.ok (raw % 256 * 256 + raw / 256 % 256)
    else Result.err (translator_error ErrorCode.decoding "unsupported byteOrder for 16-bit")

-- std::array<uint8_t, 4>
abbrev pub Bytes4 : Type 0
Bytes4 = ℕ × ℕ × ℕ × ℕ

abbrev pub permute : String → Bytes4 → Result Bytes4
permute order (a, b, c, d) =
    if order =? "ABCD"
    then Result.ok (a, b, c, d)
    else if order =? "CDAB"
    then Result.ok (c, d, a, b)
    else if order =? "BADC"
    then Result.ok (b, a, d, c)
    else if order =? "DCBA"
    then Result.ok (d, c, b, a)
    else Result.err (translator_error ErrorCode.decoding "unsupported byteOrder for 32-bit")

unfoldable pub regs_to_be_bytes : List ℕ → String → Result Bytes4
regs_to_be_bytes regs order =
    let r0 = get_or regs 0 0 in
    let r1 = get_or regs 1 0 in
    if ltb (length regs) 2
    then Result.err (translator_error ErrorCode.decoding "need 2 registers")
    else permute order (r0 / 256 % 256, r0 % 256, r1 / 256 % 256, r1 % 256)

abbrev pub join_wire : Result Bytes4 → Result (ℕ × ℕ)
join_wire (Result.err e) = Result.err e
join_wire (Result.ok (a, b, c, d)) = Result.ok (a * 256 + b, c * 256 + d)

unfoldable pub be_bytes_to_regs : Bytes4 → String → Result (ℕ × ℕ)
be_bytes_to_regs be order = join_wire (permute order be)

unfoldable pub bytes_to_u32 : Bytes4 → ℕ
bytes_to_u32 (a, b, c, d) = a * 2 ^ 24 + b * 2 ^ 16 + c * 2 ^ 8 + d

unfoldable pub u32_to_bytes : ℕ → Bytes4
u32_to_bytes v = (v / 2 ^ 24 % 256, v / 2 ^ 16 % 256, v / 2 ^ 8 % 256, v % 256)

-- static_cast<intN_t> of an unsigned N-bit value, with `half` = 2 ^ (N - 1).
unfoldable pub to_signed : ℕ → ℕ → ℤ
to_signed half w = if ltb w half then pos w else negsuc (half + half - w - 1)
