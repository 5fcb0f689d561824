-- ===== src/Modbus/FrameRoundTrip.antt =====
-- What unpack_adu makes of a frame that pack_mbap built, and what it accepts.
use opc_server.Prelude.{
  ℕ, ◌+◌, ◌*◌, ◌/◌, ◌%◌, ◌≡◌, ◌<◌, ◌≤◌, List, [], ◌∷◌, some, length, drop, arith, get_or, true,
}
use opc_server.Prelude.Int.{pos}
use opc_server.Domain.{ErrorCode, Result}
use opc_server.Modbus.Frame.{UnpackedAdu, pack_mbap, unpack_adu, proto_err, u16_mod}

-- Unpacking a packed frame gives back the transaction, the unit and the PDU, for every 16-bit
-- transaction and every PDU whose function code has its top bit clear and whose length fits.
pub unpack_adu-pack_mbap :
    (transaction unit function : ℕ) (rest : List ℕ)
    → transaction < u16_mod
    → function < 128
    → 2 + length rest < u16_mod
    → unpack_adu (pack_mbap transaction unit (function ∷ rest))
      ≡ Result.ok (record { transaction_id = transaction; unit = unit; pdu = function ∷ rest })
unfolding unpack_adu pack_mbap
unpack_adu-pack_mbap t u f rest ht hf hl = ground arith

-- A packed exception response, a function code with its top bit set and an exception code, is the
-- error `modbus exception`, retryable, with that code as its protocol status.
pub unpack_adu-exception :
    (transaction unit function code : ℕ)
    → function < 128
    → unpack_adu (pack_mbap transaction unit ((function + 128) ∷ code ∷ []))
      ≡ Result.err (record (proto_err ErrorCode.modbus_exception "modbus exception" true) {
        protocol_status = some (pos code);
      })
unfolding unpack_adu pack_mbap
unpack_adu-exception t u f code hf = ground arith

-- Whatever frame is accepted has the header's seven bytes and then its PDU, which is not empty,
-- begins with a function code whose top bit is clear, and is as long as the length field says.
pub unpack_adu_accepts :
    (adu : List ℕ) (u : UnpackedAdu)
    → unpack_adu adu ≡ Result.ok u
    → (u.pdu ≡ drop 7 adu)
      × (8 ≤ length adu)
      × (get_or adu 4 0 * 256 + get_or adu 5 0 + 6 ≡ length adu)
      × (get_or adu 7 0 / 128 % 2 ≡ 0)
      × (u.transaction_id ≡ get_or adu 0 0 * 256 + get_or adu 1 0)
      × (u.unit ≡ get_or adu 6 0)
unfolding unpack_adu
unpack_adu_accepts adu u e = ground arith
