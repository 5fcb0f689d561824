-- ===== src/Transport/TcpAsync.antt =====
-- The asynchronous operations of Src/adapters/modbus_tcp_transport.cpp: what the handler is given.
use opc_server.Prelude.{ℕ, List, Option, some, Bool}
use opc_server.Domain.{Result}
use opc_server.Modbus.Pdu.{
  make_read_registers_pdu, make_read_bits_pdu, make_write_single_register_pdu,
  make_write_multiple_registers_pdu, make_write_single_coil_pdu, make_write_multiple_coils_pdu,
}
use opc_server.Modbus.Response.{
  decode_register_response, decode_bits_response, after_tx, acknowledged,
}
use opc_server.Transport.{Clocks}
use opc_server.Transport.Tcp.{Stream, Tcp, transact}

module _ {F64 W : Type 0} (zero_f64 : F64) (clocks : Clocks F64 W) (net : Stream W) where
  unfoldable pub async_read_holding_registers :
      ℕ → ℕ → ℕ → Tcp F64 W → Option (Result (List ℕ)) × Tcp F64 W
  async_read_holding_registers unit address quantity s =
      after_tx (λ resp. decode_register_response resp quantity)
        (transact zero_f64 clocks net unit (make_read_registers_pdu 0x03 address quantity) s)

  unfoldable pub async_read_input_registers :
      ℕ → ℕ → ℕ → Tcp F64 W → Option (Result (List ℕ)) × Tcp F64 W
  async_read_input_registers unit address quantity s =
      after_tx (λ resp. decode_register_response resp quantity)
        (transact zero_f64 clocks net unit (make_read_registers_pdu 0x04 address quantity) s)

  unfoldable pub async_read_coils : ℕ → ℕ → ℕ → Tcp F64 W → Option (Result (List Bool)) × Tcp F64 W
  async_read_coils unit address quantity s =
      after_tx (λ resp. decode_bits_response resp quantity)
        (transact zero_f64 clocks net unit (make_read_bits_pdu 0x01 address quantity) s)

  unfoldable pub async_read_discrete_inputs :
      ℕ → ℕ → ℕ → Tcp F64 W → Option (Result (List Bool)) × Tcp F64 W
  async_read_discrete_inputs unit address quantity s =
      after_tx (λ resp. decode_bits_response resp quantity)
        (transact zero_f64 clocks net unit (make_read_bits_pdu 0x02 address quantity) s)

  unfoldable pub async_write_single_register :
      ℕ → ℕ → ℕ → Tcp F64 W → Option (Result (Unit {0})) × Tcp F64 W
  async_write_single_register unit address value s =
      after_tx acknowledged
        (transact zero_f64 clocks net unit (make_write_single_register_pdu address value) s)

  unfoldable pub async_write_multiple_registers :
      ℕ → ℕ → List ℕ → Tcp F64 W → Option (Result (Unit {0})) × Tcp F64 W
  async_write_multiple_registers unit address values s =
      after_tx acknowledged
        (transact zero_f64 clocks net unit (make_write_multiple_registers_pdu address values) s)

  unfoldable pub async_write_single_coil :
      ℕ → ℕ → Bool → Tcp F64 W → Option (Result (Unit {0})) × Tcp F64 W
  async_write_single_coil unit address value s =
      after_tx acknowledged
        (transact zero_f64 clocks net unit (make_write_single_coil_pdu address value) s)

  unfoldable pub async_write_multiple_coils :
      ℕ → ℕ → List ℕ → Tcp F64 W → Option (Result (Unit {0})) × Tcp F64 W
  async_write_multiple_coils unit address values s =
      elim (make_write_multiple_coils_pdu address values) [
        | Result.err e ↦ (some (Result.err e), s)
        | Result.ok pdu ↦ after_tx acknowledged (transact zero_f64 clocks net unit pdu s)
      ]
