-- ===== src/Modbus/Pdu.antt =====
-- Request PDUs.
use Prim.Native.Nat.{bit_or}
use opc_server.Prelude.{
  ℕ, suc, ◌+◌, ◌*◌, ◌/◌, ◌%◌, ◌^◌, List, [], ◌∷◌, ◌++◌, Bool, false, ◌==◌, ◌||◌, ltb, if◌then◌else◌,
  length, get_or, set, replicate,
}
use opc_server.Domain.{ErrorCode, Result}
use opc_server.Modbus.Frame.{append_u16, proto_err, u16_mod}

unfoldable pub make_read_registers_pdu : ℕ → ℕ → ℕ → List ℕ
make_read_registers_pdu function address quantity =
    append_u16 (append_u16 (function ∷ []) address) quantity

unfoldable pub make_read_bits_pdu : ℕ → ℕ → ℕ → List ℕ
unfolding make_read_registers_pdu
make_read_bits_pdu function address quantity = make_read_registers_pdu function address quantity

unfoldable pub make_write_single_register_pdu : ℕ → ℕ → List ℕ
make_write_single_register_pdu address value = append_u16 (append_u16 (0x06 ∷ []) address) value

-- `for (auto v : values) append_u16(pdu, v)`
unfoldable pub append_all : List ℕ → List ℕ → List ℕ
append_all pdu [] = pdu
append_all pdu (v ∷ vs) = append_all (append_u16 pdu v) vs

unfoldable pub make_write_multiple_registers_pdu : ℕ → List ℕ → List ℕ
make_write_multiple_registers_pdu address values =
    append_all
      (append_u16 (append_u16 (0x10 ∷ []) address) (length values % u16_mod)
        ++ (length values * 2 % 256) ∷ [])
      values

unfoldable pub make_write_single_coil_pdu : ℕ → Bool → List ℕ
make_write_single_coil_pdu address value =
    append_u16 (append_u16 (0x05 ∷ []) address) (if value then 0xff00 else 0)

-- `packed[i / 8] |= 1 << (i % 8)`; the cell is in range where the caller has enough of them.
abbrev pub set_bit : List ℕ → ℕ → List ℕ
set_bit packed i = set packed (i / 8) (bit_or (get_or packed (i / 8) 0) (2 ^ (i % 8)))

-- The loop over `values`, of which those from index `i` on are left.
unfoldable pub pack_bits : List ℕ → List ℕ → ℕ → List ℕ
pack_bits packed [] i = packed
pack_bits packed (v ∷ vs) i = pack_bits (if v == 0 then packed else set_bit packed i) vs (suc i)

unfoldable pub make_write_multiple_coils_pdu : ℕ → List ℕ → Result (List ℕ)
unfolding proto_err pack_bits
make_write_multiple_coils_pdu address values =
    let quantity = length values % u16_mod in
    let byte_count = (quantity + 7) / 8 % 256 in
    if length values == 0 || ltb 1968 (length values)
    then Result.err (proto_err ErrorCode.invalid_argument "FC15 quantity out of range" false)
    else Result.ok (
        append_u16 (append_u16 (0x0f ∷ []) address) quantity
        ++ byte_count ∷ pack_bits (replicate byte_count 0) values 0)
