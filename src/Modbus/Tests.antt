-- ===== src/Modbus/Tests.antt =====
-- The protocol's theorems at concrete frames.
use opc_server.Prelude.{
  ℕ, ◌+◌, ◌/◌, ◌≡◌, ◌<◌, ◌↔◌, ◌⊎◌, refl, List, [], ◌∷◌, none, some, true, false, length, drop,
  String, arith,
}
use opc_server.Prelude.Int.{pos}
use opc_server.Domain.{ErrorCode, Result}
use opc_server.Modbus.Frame.{UnpackedAdu, pack_mbap, unpack_adu, proto_err}
use opc_server.Modbus.Pdu.{make_write_multiple_registers_pdu, make_write_multiple_coils_pdu}
use opc_server.Modbus.Response.{decode_register_response, decode_bits_response}
use opc_server.Modbus.FrameRoundTrip.{unpack_adu-pack_mbap, unpack_adu-exception}
use opc_server.Modbus.Registers.{
  decode_register_response_total, decode_register_response-make_write_multiple_registers_pdu,
  rejects,
}
use opc_server.Modbus.Bits.{
  decode_bits_response-make_write_multiple_coils_pdu, decode_bits_response_faults,
}

unpack_adu-pack_mbap_example :
    unpack_adu (pack_mbap 258 17 (3 ∷ 2 ∷ 0 ∷ 9 ∷ []))
    ≡ Result.ok (record { transaction_id = 258; unit = 17; pdu = 3 ∷ 2 ∷ 0 ∷ 9 ∷ [] })
unpack_adu-pack_mbap_example =
    unpack_adu-pack_mbap 258 17 3 (2 ∷ 0 ∷ 9 ∷ []) (omega arith) (omega arith) (omega arith)

unpack_adu-exception_example :
    unpack_adu (pack_mbap 258 17 (131 ∷ 2 ∷ []))
    ≡ Result.err (record (proto_err ErrorCode.modbus_exception "modbus exception" true) {
      protocol_status = some (pos 2);
    })
unpack_adu-exception_example = unpack_adu-exception 258 17 3 2 (omega arith)

abbrev frame : List ℕ
frame = 1 ∷ 2 ∷ 0 ∷ 0 ∷ 0 ∷ 3 ∷ 17 ∷ 3 ∷ 0 ∷ []

abbrev frame_unpacked : UnpackedAdu
frame_unpacked = record { transaction_id = 258; unit = 17; pdu = 3 ∷ 0 ∷ [] }

unpack_frame : unpack_adu frame ≡ Result.ok frame_unpacked
unfolding unpack_adu
unpack_frame = refl

decode_register_response_total_example :
    ((ws : List ℕ) × (decode_register_response (3 ∷ 2 ∷ 1 ∷ 44 ∷ []) 1 ≡ some (Result.ok ws))
      × (length ws ≡ 1))
    ⊎ ((m : String) × (decode_register_response (3 ∷ 2 ∷ 1 ∷ 44 ∷ []) 1 ≡ some (rejects m)))
decode_register_response_total_example = decode_register_response_total (3 ∷ 2 ∷ 1 ∷ 44 ∷ []) 1

decode_register_response-make_write_multiple_registers_pdu_example :
    decode_register_response (3 ∷ drop 5 (make_write_multiple_registers_pdu 40 (300 ∷ 7 ∷ []))) 2
    ≡ some (Result.ok (300 ∷ 7 ∷ []))
decode_register_response-make_write_multiple_registers_pdu_example =
    decode_register_response-make_write_multiple_registers_pdu 40 3 (300 ∷ 7 ∷ []) (omega arith)
      (omega arith, (omega arith, tt))

decode_bits_response-make_write_multiple_coils_pdu_example :
    (pdu : List ℕ) × (make_write_multiple_coils_pdu 40 (1 ∷ 0 ∷ 5 ∷ []) ≡ Result.ok pdu)
    × (decode_bits_response (1 ∷ drop 5 pdu) 3 ≡ some (Result.ok (true ∷ false ∷ true ∷ [])))
decode_bits_response-make_write_multiple_coils_pdu_example =
    decode_bits_response-make_write_multiple_coils_pdu 40 1 (1 ∷ 0 ∷ 5 ∷ []) (omega arith)
      (omega arith)

-- A response of one data byte to a request for nine coils.
decode_bits_response_faults_example :
    (decode_bits_response (1 ∷ 1 ∷ 255 ∷ []) 9 ≡ none) ↔ (1 < (9 + 7) / 8)
decode_bits_response_faults_example = decode_bits_response_faults 1 1 (255 ∷ []) 9 (omega arith)
