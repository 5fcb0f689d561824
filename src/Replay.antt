-- ===== src/Replay.antt =====
-- Src/adapters/frame_replay.cpp: a transport that answers from a journal of frames. What becomes of
-- the decoded PDU reads out of its range is `none`.
pub mod Laws
pub mod Text
pub mod TextLaws
mod Tests
use opc_server.Prelude.{
  ℕ, ◌+◌, ◌*◌, List, [], ◌∷◌, Option, none, some, Bool, true, false, not, ◌==◌, ◌&&◌, ltb, leb,
  ◌||◌, ◌-◌, if◌then◌else◌, length, get_or, get_elem?, drop, String,
}
use opc_server.Prelude.Int.{ℤ}
use opc_server.Domain.{Result, Error, ErrorCode, make_error}
use opc_server.Dispatcher.State.{EndpointAddress}
use opc_server.Modbus.Frame.{join_u16}
use opc_server.Modbus.Response.{read_words, read_bits}
use opc_server.Transport.{FrameRecord}

unfoldable pub replay_err : ErrorCode → String → Bool → Error
replay_err code message retryable = make_error code message "adapters.frame_replay" retryable

-- The response in the bytes of a frame without error; every index read stands behind the test of
-- the size.
unfoldable pub pdu_from_bytes : List ℕ → Result (List ℕ)
pdu_from_bytes rx =
    let len = join_u16 (get_or rx 4 0) (get_or rx 5 0) in
    let doubled = (length rx == 7 + len) && not (ltb len 2) in
    let pdu_off = if doubled then 8 else 7 in
    if ltb (length rx) 8
    then Result.err (replay_err ErrorCode.decoding "short replay RX" false)
    else if not doubled && not (length rx == 6 + len)
    then Result.err (replay_err ErrorCode.decoding "RX length mismatch" false)
    else if leb (length rx) pdu_off
    then Result.err (replay_err ErrorCode.decoding "short replay PDU" false)
    else Result.ok (drop pdu_off rx)

unfoldable pub pdu_from : Option String → Option ℤ → List ℕ → Result (List ℕ)
pdu_from (some message) code rx = Result.err (replay_err ErrorCode.connection message true)
pdu_from none (some code) rx =
    Result.err (record (replay_err ErrorCode.modbus_exception "modbus exception" true) {
      protocol_status = some code;
    })
pdu_from none none rx = pdu_from_bytes rx

module _ {F64 : Type 0} where
  unfoldable pub pdu_from_rx : FrameRecord F64 → Result (List ℕ)
  pdu_from_rx frame = pdu_from frame.error frame.exception_code frame.rx

abbrev as_ok : {A : Type 0} → Option A → Option (Result A)
as_ok none = none
as_ok (some a) = some (Result.ok a)

unfoldable pub decode_registers : List ℕ → ℕ → Option (Result (List ℕ))
decode_registers pdu quantity =
    let byte_count = get_or pdu 1 0 in
    if ltb (length pdu) 2
    then some (Result.err (replay_err ErrorCode.decoding "short register PDU" false))
    else if ltb (length pdu) (2 + byte_count) || not (byte_count == quantity * 2)
    then some (Result.err (replay_err ErrorCode.decoding "register byte count mismatch" false))
    else as_ok (read_words pdu quantity 0)

unfoldable pub decode_bits : List ℕ → ℕ → Option (Result (List Bool))
decode_bits pdu quantity =
    let byte_count = get_or pdu 1 0 in
    if ltb (length pdu) 2
    then some (Result.err (replay_err ErrorCode.decoding "short bit PDU" false))
    else if ltb (length pdu) (2 + byte_count)
    then some (Result.err (replay_err ErrorCode.decoding "bit byte count mismatch" false))
    else as_ok (read_bits pdu quantity 0)

pub record ReplayModbusTransport (F64 : Type 0) : Type 0 where
  pub frames : List (FrameRecord F64)
  pub next : ℕ
  pub connected : Bool

-- What is made of the response, unless there is an error in its place.
abbrev pub then_decode :
    {A S : Type 0} → (List ℕ → Option (Result A)) → Result (List ℕ) × S → Option (Result A) × S
then_decode decode (Result.err e, s) = (some (Result.err e), s)
then_decode decode (Result.ok pdu, s) = (decode pdu, s)

abbrev pub acknowledged : {S : Type 0} → Result (List ℕ) × S → Result (Unit {0}) × S
acknowledged (Result.err e, s) = (Result.err e, s)
acknowledged (Result.ok pdu, s) = (Result.ok tt, s)

module _ {F64 : Type 0} where
  -- The constructor.
  abbrev pub new_replay : List (FrameRecord F64) → ReplayModbusTransport F64
  new_replay frames = record { frames = frames; next = 0; connected = false }

  abbrev pub connect :
      ReplayModbusTransport F64 → EndpointAddress → Result (Unit {0}) × ReplayModbusTransport F64
  connect s address = (Result.ok tt, record s { connected = true })

  abbrev pub close : ReplayModbusTransport F64 → ReplayModbusTransport F64
  close s = record s { connected = false }

  abbrev pub is_connected : ReplayModbusTransport F64 → Bool
  is_connected s = s.connected

  abbrev pub taken :
      ReplayModbusTransport F64
      → Option (FrameRecord F64)
      → Result (FrameRecord F64) × ReplayModbusTransport F64
  taken s none = (Result.err (replay_err ErrorCode.not_found "replay exhausted" false), s)
  taken s (some frame) = (Result.ok frame, record s { next = s.next + 1 })

  unfoldable pub consume :
      ReplayModbusTransport F64 → Result (FrameRecord F64) × ReplayModbusTransport F64
  consume s =
      if not s.connected
      then (Result.err (replay_err ErrorCode.connection "not connected" true), s)
      else taken s (get_elem? s.frames s.next)

  abbrev pub as_pdu : Result (FrameRecord F64) → Result (List ℕ)
  as_pdu (Result.err e) = Result.err e
  as_pdu (Result.ok frame) = pdu_from_rx frame

  unfoldable pub next_pdu : ReplayModbusTransport F64 → Result (List ℕ) × ReplayModbusTransport F64
  next_pdu s = let (frame, s') = consume s in (as_pdu frame, s')

  -- read_holding_registers; read_input_registers calls it.
  unfoldable pub read_holding_registers :
      ℕ → ℕ → ℕ → ReplayModbusTransport F64 → Option (Result (List ℕ)) × ReplayModbusTransport F64
  read_holding_registers unit address quantity s =
      then_decode (λ pdu. decode_registers pdu quantity) (next_pdu s)

  -- read_coils; read_discrete_inputs calls it.
  unfoldable pub read_coils :
      ℕ
      → ℕ
      → ℕ
      → ReplayModbusTransport F64
      → Option (Result (List Bool)) × ReplayModbusTransport F64
  read_coils unit address quantity s = then_decode (λ pdu. decode_bits pdu quantity) (next_pdu s)

  -- The four write operations.
  unfoldable pub write : ReplayModbusTransport F64 → Result (Unit {0}) × ReplayModbusTransport F64
  write s = acknowledged (next_pdu s)

  unfoldable pub remaining : ReplayModbusTransport F64 → ℕ
  remaining s = length s.frames - s.next
