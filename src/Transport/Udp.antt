-- ===== src/Transport/Udp.antt =====
-- Src/adapters/modbus_udp_transport.cpp. The socket calls are a parameter, over a world W. A
-- response timeout is set on the socket, which is what makes recv give `would_block`.
use opc_server.Prelude.{
  ℕ, ◌+◌, ◌%◌, ◌^◌, List, Option, none, some, Bool, true, false, not, ◌==◌, if◌then◌else◌, String,
}
use opc_server.Prelude.Int.{ℤ, pos, negsuc, ltb_ℤ}
use opc_server.Prelude.Text.{concat}
use opc_server.Domain.{Result, Error, ErrorCode, make_error}
use opc_server.Modbus.Frame.{pack_mbap, unpack_adu, UnpackedAdu}
use opc_server.Modbus.Response.{
  modbus_read_registers, modbus_read_bits, modbus_write_single_register,
  modbus_write_multiple_registers, modbus_write_single_coil, modbus_write_multiple_coils,
}
use opc_server.Dispatcher.State.{EndpointAddress}
use opc_server.Transport.{FrameRecord, Clocks, Wire, open_frame, finish}

pub data Received : Type 0 where
  datagram : List ℕ → Received
  would_block : Received
  recv_failed : Received

-- The calls of POSIX: `socket` gives a descriptor or a negative number; `connect` gives an error's
-- text where it fails; `recv` is into the buffer of 260 bytes, which cuts a longer datagram.
pub record Socket (W : Type 0) : Type 0 where
  pub socket : W → ℤ × W
  pub inet_pton : String → Bool
  pub connect : ℤ → EndpointAddress → W → Option String × W
  pub close : ℤ → W → W
  pub send : ℤ → List ℕ → W → Bool × W
  pub recv : ℤ → W → Received × W

pub record Udp (F64 W : Type 0) : Type 0 where
  pub fd : ℤ
  pub wire : Wire F64 W

unfoldable pub udp_err : ErrorCode → String → Bool → Error
udp_err code message retryable = make_error code message "adapters.modbus_udp" retryable

-- The transport's descriptor is valid.
abbrev pub is_valid : ℤ → Bool
is_valid fd = not (ltb_ℤ fd (pos 0))

module _ {F64 W : Type 0} (zero_f64 : F64) (clocks : Clocks F64 W) (net : Socket W) where
  abbrev pub with_world : Udp F64 W → W → Udp F64 W
  with_world s w = record s { wire = record s.wire { world = w } }

  unfoldable pub close : Udp F64 W → Udp F64 W
  close s =
      if is_valid s.fd
      then record s { fd = negsuc 0; wire = record s.wire { world = net.close s.fd s.wire.world } }
      else s

  abbrev pub is_connected : Udp F64 W → Bool
  is_connected s = is_valid s.fd

  unfoldable pub connected :
      Udp F64 W → EndpointAddress → Option String × W → Result (Unit {0}) × Udp F64 W
  connected s address (none, w) = (Result.ok tt, with_world s w)
  connected s address (some why, w) = (
    Result.err (udp_err ErrorCode.connection (concat "udp connect failed: " why) true),
    close (with_world s w),
  )

  unfoldable pub connect : Udp F64 W → EndpointAddress → Result (Unit {0}) × Udp F64 W
  connect s address =
      let s1 = close s in
      let (fd, w) = net.socket s1.wire.world in
      let s2 = record (with_world s1 w) { fd = fd } in
      if not (is_valid fd)
      then (Result.err (udp_err ErrorCode.connection "socket() failed" true), s2)
      else if not (net.inet_pton address.host)
      then (
        Result.err
            (udp_err ErrorCode.invalid_argument (concat "invalid host IPv4: " address.host) false),
        close s2,
      )
      else connected s2 address (net.connect fd address s2.wire.world)

  abbrev pub finished :
      Udp F64 W → FrameRecord F64 → ℤ → Result (List ℕ) → Result (List ℕ) × Udp F64 W
  finished s frame t0 result = (result, record s { wire = finish clocks s.wire frame t0 result })

  -- What is made of a datagram that was unpacked.
  unfoldable pub match_answer :
      Udp F64 W → FrameRecord F64 → ℤ → ℕ → Result UnpackedAdu → Result (List ℕ) × Udp F64 W
  match_answer s frame t0 tid (Result.err e) = finished s frame t0 (Result.err e)
  match_answer s frame t0 tid (Result.ok unpacked) = finished s frame t0 (
      if not (unpacked.transaction_id == tid)
      then Result.err (udp_err ErrorCode.decoding "transaction id mismatch" false)
      else Result.ok unpacked.pdu)

  unfoldable pub answer :
      Udp F64 W → FrameRecord F64 → ℤ → ℕ → Received → Result (List ℕ) × Udp F64 W
  answer s frame t0 tid Received.would_block =
      finished s frame t0 (Result.err (udp_err ErrorCode.timeout "recv timeout" true))
  answer s frame t0 tid Received.recv_failed =
      finished s frame t0 (Result.err (udp_err ErrorCode.connection "recv failed" true))
  answer s frame t0 tid (Received.datagram bytes) =
      match_answer s (record frame { rx = bytes }) t0 tid (unpack_adu bytes)

  unfoldable pub exchange :
      Udp F64 W → FrameRecord F64 → ℤ → ℕ → Bool × W → Result (List ℕ) × Udp F64 W
  exchange s frame t0 tid (false, w) =
      finished (with_world s w) frame t0
        (Result.err (udp_err ErrorCode.connection "send failed" true))
  exchange s frame t0 tid (true, w) =
      let (received, w') = net.recv s.fd w in answer (with_world s w') frame t0 tid received

  unfoldable pub transact : ℕ → List ℕ → Udp F64 W → Result (List ℕ) × Udp F64 W
  transact unit pdu s =
      let tid = s.wire.transaction_id in
      let req = pack_mbap tid unit pdu in
      let (frame, wire) =
        open_frame clocks (record s.wire { transaction_id = (tid + 1) % 2 ^ 16 }) zero_f64 req in
      let (t0, w) = clocks.steady_now wire.world in
      let s1 = record s { wire = record wire { world = w } } in
      if not (is_valid s.fd)
      then (Result.err (udp_err ErrorCode.connection "not connected" true), s)
      else exchange s1 frame t0 tid (net.send s.fd req w)

  abbrev pub read_holding_registers : ℕ → ℕ → ℕ → Udp F64 W → Option (Result (List ℕ)) × Udp F64 W
  read_holding_registers = modbus_read_registers transact 0x03

  abbrev pub read_input_registers : ℕ → ℕ → ℕ → Udp F64 W → Option (Result (List ℕ)) × Udp F64 W
  read_input_registers = modbus_read_registers transact 0x04

  abbrev pub read_coils : ℕ → ℕ → ℕ → Udp F64 W → Option (Result (List Bool)) × Udp F64 W
  read_coils = modbus_read_bits transact 0x01

  abbrev pub read_discrete_inputs : ℕ → ℕ → ℕ → Udp F64 W → Option (Result (List Bool)) × Udp F64 W
  read_discrete_inputs = modbus_read_bits transact 0x02

  abbrev pub write_single_register : ℕ → ℕ → ℕ → Udp F64 W → Option (Result (Unit {0})) × Udp F64 W
  write_single_register = modbus_write_single_register transact

  abbrev pub write_multiple_registers :
      ℕ → ℕ → List ℕ → Udp F64 W → Option (Result (Unit {0})) × Udp F64 W
  write_multiple_registers = modbus_write_multiple_registers transact

  abbrev pub write_single_coil : ℕ → ℕ → Bool → Udp F64 W → Option (Result (Unit {0})) × Udp F64 W
  write_single_coil = modbus_write_single_coil transact

  abbrev pub write_multiple_coils :
      ℕ → ℕ → List ℕ → Udp F64 W → Option (Result (Unit {0})) × Udp F64 W
  write_multiple_coils = modbus_write_multiple_coils transact
