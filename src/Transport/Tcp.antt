-- ===== src/Transport/Tcp.antt =====
-- Src/adapters/modbus_tcp_transport.cpp: one transaction after the other. The socket's operations
-- are a parameter, over a world W: each ends with what its completion handler is given. The
-- deadline's timer cancels the socket, so an operation that takes too long ends as aborted. The
-- strand orders transactions; a completion that is posted to an executor is given here at once.
use opc_server.Prelude.{
  ℕ, ◌+◌, ◌/◌, ◌%◌, ◌^◌, List, ◌++◌, Option, none, some, Bool, true, false, not, ◌==◌, ◌&&◌, ◌||◌,
  ltb, if◌then◌else◌, String, length, get_or, drop, ◌⊎◌, inl, inr,
}
use opc_server.Prelude.Int.{ℤ, pos, negsuc, ◌-ℤ◌}
use opc_server.Prelude.Text.{concat}
use opc_server.Domain.{Result, Error, ErrorCode, make_error}
use opc_server.Modbus.Frame.{pack_mbap, join_u16}
use opc_server.Modbus.Response.{
  modbus_read_registers, modbus_read_bits, modbus_write_single_register,
  modbus_write_multiple_registers, modbus_write_single_coil, modbus_write_multiple_coils,
}
use opc_server.Dispatcher.State.{EndpointAddress}
use opc_server.Transport.{FrameRecord, Clocks, Wire, open_frame, emit_frame, note}

pub data IoKind : Type 0 where
  operation_aborted eof other : IoKind

-- asio::error_code, where it is an error.
pub record IoError : Type 0 where
  pub kind : IoKind
  pub message : String

-- The resolver's answer: `unresolved` has its error's text, or none where it found nothing.
pub data Resolution : Type 0 where
  resolved : Resolution
  unresolved : Option String → Resolution

pub record Stream (W : Type 0) : Type 0 where
  pub resolve : String → ℕ → W → Resolution × W
  pub async_connect : W → Option IoError × W
  pub async_write : List ℕ → W → Option IoError × W
  -- reads as many bytes as asked for, or ends with an error
  pub async_read : ℕ → W → (IoError ⊎ List ℕ) × W
  pub reset : W → W
  pub close : W → W

pub record Tcp (F64 W : Type 0) : Type 0 where
  pub connected : Bool
  pub is_open : Bool
  pub completion_executor : Bool
  pub wire : Wire F64 W

unfoldable pub make_err : ErrorCode → String → Bool → Error
make_err code message retryable = make_error code message "adapters.modbus_tcp" retryable

abbrev pub timed_out : Error
timed_out = make_err ErrorCode.timeout "operation timeout" true

unfoldable pub connect_error : IoKind → String → Error
connect_error IoKind.operation_aborted message = timed_out
connect_error _ message = make_err ErrorCode.connection (concat "connect failed: " message) true

unfoldable pub write_error : IoKind → String → Error
write_error IoKind.operation_aborted message = timed_out
write_error _ message = make_err ErrorCode.connection (concat "send failed: " message) true

unfoldable pub read_error : IoKind → String → Error
read_error IoKind.operation_aborted message = timed_out
read_error IoKind.eof message = make_err ErrorCode.connection "peer closed" true
read_error IoKind.other message =
    make_err ErrorCode.connection (concat "recv failed: " message) true

-- The errors after which `finish` gives the connection up.
abbrev pub is_lost : ErrorCode → Bool
is_lost ErrorCode.connection = true
is_lost ErrorCode.timeout = true
is_lost _ = false

abbrev pub loses : {A : Type 0} → Result A → Bool
loses (Result.ok a) = false
loses (Result.err e) = is_lost e.code

abbrev pub or_host : Option String → String → String
or_host none host = host
or_host (some message) host = message

module _ {F64 W : Type 0} (zero_f64 : F64) (clocks : Clocks F64 W) (net : Stream W) where
  abbrev pub with_world : Tcp F64 W → W → Tcp F64 W
  with_world s w = record s { wire = record s.wire { world = w } }

  abbrev pub set_frame_log : Tcp F64 W → Bool → Tcp F64 W
  set_frame_log s log = record s { wire = record s.wire { has_frame_log = log } }

  abbrev pub set_endpoint_id : Tcp F64 W → String → Tcp F64 W
  set_endpoint_id s id = record s { wire = record s.wire { endpoint_id = id } }

  abbrev pub set_completion_executor : Tcp F64 W → Bool → Tcp F64 W
  set_completion_executor s executor = record s { completion_executor = executor }

  abbrev pub is_connected : Tcp F64 W → Bool
  is_connected s = s.connected && s.is_open

  unfoldable pub reset_socket : Tcp F64 W → Tcp F64 W
  reset_socket s = record (with_world s (net.reset s.wire.world)) { is_open = false }

  unfoldable pub mark_disconnected : Tcp F64 W → Tcp F64 W
  mark_disconnected s = record (with_world s (net.close s.wire.world)) {
    connected = false;
    is_open = false;
  }

  unfoldable pub close : Tcp F64 W → Tcp F64 W
  close s = record (with_world s (net.close s.wire.world)) { connected = false; is_open = false }

  -- The handler of asio::async_connect.
  unfoldable pub connect_done : Tcp F64 W → Option IoError → Result (Unit {0}) × Tcp F64 W
  connect_done s none = (Result.ok tt, record s { connected = true; is_open = true })
  connect_done s (some e) =
      (Result.err (connect_error e.kind e.message), record (reset_socket s) { connected = false })

  unfoldable pub connect_to :
      Tcp F64 W → EndpointAddress → Resolution → Result (Unit {0}) × Tcp F64 W
  connect_to s address (Resolution.unresolved why) = (
    Result.err (
        make_err ErrorCode.invalid_argument (concat "resolve failed: " (or_host why address.host))
          false),
    s,
  )
  connect_to s address Resolution.resolved =
      let (done, w) = net.async_connect s.wire.world in connect_done (with_world s w) done

  -- connect; async_connect gives its handler the same result.
  unfoldable pub connect : EndpointAddress → Tcp F64 W → Result (Unit {0}) × Tcp F64 W
  connect address s =
      let s1 = record (reset_socket s) { connected = false } in
      let (resolution, w) = net.resolve address.host address.port s1.wire.world in
      connect_to (with_world s1 w) address resolution

  -- `finish` of async_transact.
  unfoldable pub finish :
      Tcp F64 W → FrameRecord F64 → ℤ → Result (List ℕ) → Result (List ℕ) × Tcp F64 W
  finish s frame t0 result =
      let (t1, w) = clocks.steady_now s.wire.world in
      let noted = note clocks (record frame { rtt_ms = clocks.millis (t1 -ℤ t0) }) result in
      let timed = with_world s w in
      let kept = if loses result then mark_disconnected timed else timed in
      (result, record kept { wire = emit_frame clocks kept.wire noted })

  -- The bytes of a response after the header's six, all of them read.
  unfoldable pub body_result : List ℕ → Result (List ℕ)
  body_result body =
      if ltb (length body) 2
      then Result.err (make_err ErrorCode.decoding "short PDU" false)
      else if get_or body 1 0 / 128 % 2 == 1
      then Result.err (record (make_err ErrorCode.modbus_exception "modbus exception" true) {
        protocol_status = some (if ltb 2 (length body) then pos (get_or body 2 0) else negsuc 0);
      })
      else Result.ok (drop 1 body)

  unfoldable pub after_body :
      Tcp F64 W → FrameRecord F64 → ℤ → List ℕ → IoError ⊎ List ℕ → Result (List ℕ) × Tcp F64 W
  after_body s frame t0 mbap (inl e) = finish s frame t0 (Result.err (read_error e.kind e.message))
  after_body s frame t0 mbap (inr body) =
      finish s (record frame { rx = mbap ++ body }) t0 (body_result body)

  unfoldable pub after_header :
      Tcp F64 W → FrameRecord F64 → ℤ → IoError ⊎ List ℕ → Result (List ℕ) × Tcp F64 W
  after_header s frame t0 (inl e) = finish s frame t0 (Result.err (read_error e.kind e.message))
  after_header s frame t0 (inr mbap) =
      let len = join_u16 (get_or mbap 4 0) (get_or mbap 5 0) in
      let (body, w) = net.async_read len s.wire.world in
      if ltb len 2 || ltb 254 len
      then finish s frame t0 (Result.err (make_err ErrorCode.decoding "bad MBAP length" false))
      else after_body (with_world s w) frame t0 mbap body

  unfoldable pub after_write :
      Tcp F64 W → FrameRecord F64 → ℤ → Option IoError → Result (List ℕ) × Tcp F64 W
  after_write s frame t0 (some e) = finish s frame t0 (Result.err (write_error e.kind e.message))
  after_write s frame t0 none =
      let (mbap, w) = net.async_read 6 s.wire.world in after_header (with_world s w) frame t0 mbap

  -- transact, and what async_transact gives its handler.
  unfoldable pub transact : ℕ → List ℕ → Tcp F64 W → Result (List ℕ) × Tcp F64 W
  transact unit pdu s =
      let tid = s.wire.transaction_id in
      let req = pack_mbap tid unit pdu in
      let (frame, wire) =
        open_frame clocks (record s.wire { transaction_id = (tid + 1) % 2 ^ 16 }) zero_f64 req in
      let (t0, w) = clocks.steady_now wire.world in
      let (written, w') = net.async_write req w in
      if not s.connected || not s.is_open
      then (Result.err (make_err ErrorCode.connection "not connected" true), s)
      else after_write (record s { wire = record wire { world = w' } }) frame t0 written

  abbrev pub read_holding_registers : ℕ → ℕ → ℕ → Tcp F64 W → Option (Result (List ℕ)) × Tcp F64 W
  read_holding_registers = modbus_read_registers transact 0x03

  abbrev pub read_input_registers : ℕ → ℕ → ℕ → Tcp F64 W → Option (Result (List ℕ)) × Tcp F64 W
  read_input_registers = modbus_read_registers transact 0x04

  abbrev pub read_coils : ℕ → ℕ → ℕ → Tcp F64 W → Option (Result (List Bool)) × Tcp F64 W
  read_coils = modbus_read_bits transact 0x01

  abbrev pub read_discrete_inputs : ℕ → ℕ → ℕ → Tcp F64 W → Option (Result (List Bool)) × Tcp F64 W
  read_discrete_inputs = modbus_read_bits transact 0x02

  abbrev pub write_single_register : ℕ → ℕ → ℕ → Tcp F64 W → Option (Result (Unit {0})) × Tcp F64 W
  write_single_register = modbus_write_single_register transact

  abbrev pub write_multiple_registers :
      ℕ → ℕ → List ℕ → Tcp F64 W → Option (Result (Unit {0})) × Tcp F64 W
  write_multiple_registers = modbus_write_multiple_registers transact

  abbrev pub write_single_coil : ℕ → ℕ → Bool → Tcp F64 W → Option (Result (Unit {0})) × Tcp F64 W
  write_single_coil = modbus_write_single_coil transact

  abbrev pub write_multiple_coils :
      ℕ → ℕ → List ℕ → Tcp F64 W → Option (Result (Unit {0})) × Tcp F64 W
  write_multiple_coils = modbus_write_multiple_coils transact
