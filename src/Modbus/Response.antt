-- ===== src/Modbus/Response.antt =====
-- Response decoding, and the client operations over a transaction function. `none` is a read out
-- of the response's range, which C++ leaves undefined.
use opc_server.Prelude.{
  ℕ, zero, suc, ◌+◌, ◌*◌, ◌/◌, ◌%◌, ◌^◌, List, [], ◌∷◌, Option, none, some, Bool, false, ◌==◌, ◌||◌,
  ltb, if◌then◌else◌, length, get_elem?, not,
}
use opc_server.Domain.{ErrorCode, Result}
use opc_server.Modbus.Frame.{proto_err, join_u16}
use opc_server.Modbus.Pdu.{
  make_read_registers_pdu, make_read_bits_pdu, make_write_single_register_pdu,
  make_write_multiple_registers_pdu, make_write_single_coil_pdu, make_write_multiple_coils_pdu,
}

infixl 5 ◌>>=◌
abbrev ◌>>=◌ : {A B : Type 0} → Option A → (A → Option B) → Option B
none >>= f = none
some a >>= f = f a

-- `for (i = 0; i < quantity; ++i)`, with the rounds left.
unfoldable pub read_words : List ℕ → ℕ → ℕ → Option (List ℕ)
read_words resp zero i = some []
read_words resp (suc n) i = do
  hi ← get_elem? resp (2 + i * 2)
  lo ← get_elem? resp (3 + i * 2)
  rest ← read_words resp n (suc i)
  some (join_u16 hi lo ∷ rest)

unfoldable pub read_bits : List ℕ → ℕ → ℕ → Option (List Bool)
read_bits resp zero i = some []
read_bits resp (suc n) i = do
  byte ← get_elem? resp (2 + i / 8)
  rest ← read_bits resp n (suc i)
  some ((byte / 2 ^ (i % 8) % 2 == 1) ∷ rest)

abbrev as_ok : {A : Type 0} → Option A → Option (Result A)
as_ok none = none
as_ok (some a) = some (Result.ok a)

unfoldable pub decode_register_response : List ℕ → ℕ → Option (Result (List ℕ))
unfolding proto_err read_words
decode_register_response resp quantity =
    if ltb (length resp) 2
    then some (Result.err (proto_err ErrorCode.decoding "short register response" false))
    else get_elem? resp 1 >>= λ byte_count.
        if ltb (length resp) (2 + byte_count) || not (byte_count == quantity * 2)
        then some (Result.err (proto_err ErrorCode.decoding "register byte count mismatch" false))
        else as_ok (read_words resp quantity 0)

unfoldable pub decode_bits_response : List ℕ → ℕ → Option (Result (List Bool))
unfolding proto_err read_bits
decode_bits_response resp quantity =
    if ltb (length resp) 2
    then some (Result.err (proto_err ErrorCode.decoding "short bit response" false))
    else get_elem? resp 1 >>= λ byte_count.
        if ltb (length resp) (2 + byte_count)
        then some (Result.err (proto_err ErrorCode.decoding "bit byte count mismatch" false))
        else as_ok (read_bits resp quantity 0)

abbrev pub after_tx :
    {A W : Type 0} → (List ℕ → Option (Result A)) → Result (List ℕ) × W → Option (Result A) × W
after_tx k (Result.err e, w) = (some (Result.err e), w)
after_tx k (Result.ok resp, w) = (k resp, w)

abbrev pub acknowledged : List ℕ → Option (Result (Unit {0}))
acknowledged resp = some (Result.ok tt)

-- `tx` sends a PDU to a unit and gives the response; `W` is what it acts on.
module _ {W : Type 0} (tx : ℕ → List ℕ → W → Result (List ℕ) × W) where
  unfoldable pub modbus_read_registers : ℕ → ℕ → ℕ → ℕ → W → Option (Result (List ℕ)) × W
  modbus_read_registers function unit address quantity w =
      after_tx (λ resp. decode_register_response resp quantity)
        (tx unit (make_read_registers_pdu function address quantity) w)

  unfoldable pub modbus_read_bits : ℕ → ℕ → ℕ → ℕ → W → Option (Result (List Bool)) × W
  modbus_read_bits function unit address quantity w =
      after_tx (λ resp. decode_bits_response resp quantity)
        (tx unit (make_read_bits_pdu function address quantity) w)

  unfoldable pub modbus_write_single_register : ℕ → ℕ → ℕ → W → Option (Result (Unit {0})) × W
  modbus_write_single_register unit address value w =
      after_tx acknowledged (tx unit (make_write_single_register_pdu address value) w)

  unfoldable pub modbus_write_multiple_registers :
      ℕ → ℕ → List ℕ → W → Option (Result (Unit {0})) × W
  modbus_write_multiple_registers unit address values w =
      after_tx acknowledged (tx unit (make_write_multiple_registers_pdu address values) w)

  unfoldable pub modbus_write_single_coil : ℕ → ℕ → Bool → W → Option (Result (Unit {0})) × W
  modbus_write_single_coil unit address value w =
      after_tx acknowledged (tx unit (make_write_single_coil_pdu address value) w)

  unfoldable pub modbus_write_multiple_coils : ℕ → ℕ → List ℕ → W → Option (Result (Unit {0})) × W
  modbus_write_multiple_coils unit address values w =
      elim (make_write_multiple_coils_pdu address values) [
        | Result.err e ↦ (some (Result.err e), w)
        | Result.ok pdu ↦ after_tx acknowledged (tx unit pdu w)
      ]
