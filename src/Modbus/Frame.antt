-- ===== src/Modbus/Frame.antt =====
-- The MBAP frame: pack_mbap and unpack_adu.
use opc_server.Prelude.{
  ℕ, ◌+◌, ◌*◌, ◌/◌, ◌%◌, List, [], ◌∷◌, ◌++◌, some, Bool, true, false, String, ◌==◌, ◌||◌, ltb,
  if◌then◌else◌, length, get_or, drop, not,
}
use opc_server.Prelude.Int.{pos, negsuc}
use opc_server.Domain.{Error, ErrorCode, Result, make_error}

abbrev pub u16_mod : ℕ
u16_mod = 0x10000

unfoldable pub proto_err : ErrorCode → String → Bool → Error
proto_err code message retryable = make_error code message "adapters.modbus" retryable

-- Two bytes, the high one first.
abbrev pub append_u16 : List ℕ → ℕ → List ℕ
append_u16 out v = out ++ (v / 256 % 256) ∷ (v % 256) ∷ []

abbrev pub join_u16 : ℕ → ℕ → ℕ
join_u16 hi lo = hi * 256 + lo

unfoldable pub pack_mbap : ℕ → ℕ → List ℕ → List ℕ
pack_mbap transaction_id unit pdu =
    append_u16 (append_u16 (append_u16 [] transaction_id) 0) ((1 + length pdu) % u16_mod)
    ++ unit ∷ pdu

pub record UnpackedAdu : Type 0 where
  pub transaction_id : ℕ
  pub unit : ℕ
  pub pdu : List ℕ

-- Every index read stands behind the test of the size; `get_or` has 0 elsewhere.
unfoldable pub unpack_adu : List ℕ → Result UnpackedAdu
unfolding proto_err
unpack_adu adu =
    let at = λ (i : ℕ). get_or adu i 0 in
    let len = join_u16 (at 4) (at 5) in
    if ltb (length adu) 8
    then Result.err (proto_err ErrorCode.decoding "short Modbus ADU" false)
    else if ltb len 2 || not (6 + len == length adu)
    then Result.err (proto_err ErrorCode.decoding "bad MBAP length" false)
    else if at 7 / 128 % 2 == 1
    then Result.err (record (proto_err ErrorCode.modbus_exception "modbus exception" true) {
      protocol_status = some (if ltb 2 len then pos (at 8) else negsuc 0);
    })
    else Result.ok
        (record { transaction_id = join_u16 (at 0) (at 1); unit = at 6; pdu = drop 7 adu })
