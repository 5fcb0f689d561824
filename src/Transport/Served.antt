-- ===== src/Transport/Served.antt =====
-- Reads over the UDP transport from a device that serves its registers, over a network that keeps
-- datagrams in order and loses none.
use opc_server.Prelude.{
  ℕ, zero, suc, ◌+◌, ◌*◌, ◌/◌, ◌%◌, ◌^◌, ◌<◌, ◌≤◌, ◌≡◌, List, [], ◌∷◌, ◌++◌, Option, some, true,
  not, ◌==◌, refl, ap, sym, ◌∙◌, arith, if◌then◌else◌, length, subst,
}
use opc_server.Prelude.Int.{ℤ, pos}
use opc_server.Domain.{Result}
use opc_server.Modbus.Frame.{pack_mbap, unpack_adu, join_u16, u16_mod}
use opc_server.Modbus.Pdu.{make_read_registers_pdu}
use opc_server.Modbus.Registers.{flat, length-flat, AllBelow, decode_register_response-flat}
use opc_server.Modbus.Response.{modbus_read_registers, after_tx, decode_register_response}
use opc_server.Transport.{open_frame}
use opc_server.Transport.Udp.{
  Udp, transact, exchange, is_valid, finished, with_world, read_holding_registers,
}
use opc_server.Transport.Desync.{
  IsPdu, unpacked_lem, reply, ordered, mismatch, still, exchange_lem, finish-world,
}

-- The registers of a unit from an address on.
abbrev pub range : (ℕ → ℕ → ℕ) → ℕ → ℕ → ℕ → List ℕ
range cells unit address zero = []
range cells unit address (suc n) = cells unit address ∷ range cells unit (suc address) n

-- A device's response to a request to read registers; a request of another form is an error.
abbrev pub serve : (ℕ → ℕ → ℕ) → ℕ → List ℕ → List ℕ
serve cells unit (f ∷ a1 ∷ a0 ∷ q1 ∷ q0 ∷ []) =
    f ∷ (join_u16 q1 q0 * 2) ∷ flat (range cells unit (join_u16 a1 a0) (join_u16 q1 q0))
serve cells unit _ = 0x83 ∷ 1 ∷ []

length-range : (cells : ℕ → ℕ → ℕ) (unit a n : ℕ) → length (range cells unit a n) ≡ n
length-range cells unit a zero = refl
length-range cells unit a (suc n) = ap suc (length-range cells unit (suc a) n)

AllBelow-range :
    (cells : ℕ → ℕ → ℕ) (unit a n : ℕ)
    → ((u i : ℕ) → cells u i < u16_mod)
    → AllBelow u16_mod (range cells unit a n)
AllBelow-range cells unit a zero small = tt
AllBelow-range cells unit a (suc n) small =
    (small unit a, AllBelow-range cells unit (suc a) n small)

serve_lem :
    (cells : ℕ → ℕ → ℕ) (unit function address quantity : ℕ)
    → address < u16_mod
    → quantity < u16_mod
    → serve cells unit (make_read_registers_pdu function address quantity)
      ≡ function ∷ (quantity * 2) ∷ flat (range cells unit address quantity)
unfolding make_read_registers_pdu
serve_lem cells unit f a q ha hq =
    subst
      (λ n.
        f ∷ n * 2 ∷ flat (range cells unit (join_u16 (a / 256 % 256) (a % 256)) n)
        ≡ f ∷ q * 2 ∷ flat (range cells unit a q))
      {x = q} {y = join_u16 (q / 256 % 256) (q % 256)} (omega arith)
      (ap (λ n. f ∷ q * 2 ∷ flat (range cells unit n q)) {x = join_u16 (a / 256 % 256) (a % 256)}
        {y = a} (omega arith))

IsPdu-make_read_registers_pdu :
    (address quantity : ℕ) → IsPdu (make_read_registers_pdu 0x03 address quantity)
unfolding make_read_registers_pdu
IsPdu-make_read_registers_pdu address quantity = (omega arith, omega arith)

-- The transport is connected and no datagram is waiting.
pub record IsReady {F64 : Type 0} (s : Udp F64 (List (List ℕ))) : Type 0 where
  pub valid : is_valid s.fd ≡ true
  pub idle : s.wire.world ≡ []
  pub small : s.wire.transaction_id < 0x10000

module _ {F64 : Type 0} (zero_f64 : F64) (millis : ℤ → F64) where
  transact-IsReady :
      (respond : ℕ → List ℕ → List ℕ) (unit : ℕ) (pdu : List ℕ) (s : Udp F64 (List (List ℕ)))
      → IsPdu pdu
      → IsPdu (respond unit pdu)
      → IsReady s
      → let (r, s') = transact zero_f64 (still millis) (ordered respond) unit pdu s in
        (r ≡ Result.ok (respond unit pdu)) × IsReady s'
  unfolding transact open_frame
  transact-IsReady respond unit pdu s asked given ready =
      let tid = s.wire.transaction_id in
      let req = pack_mbap tid unit pdu in
      let own = pack_mbap tid unit (respond unit pdu) in
      let numbered : Udp F64 (List (List ℕ)) = record s {
        wire = record s.wire { transaction_id = (tid + 1) % 2 ^ 16 };
      } in
      let frame = (open_frame (still millis) numbered.wire zero_f64 req).0 in
      let arrived : s.wire.world ++ reply respond (unpack_adu req) ≡ own ∷ [] =
        rw (ready.idle, unpacked_lem tid unit pdu ready.small asked) refl in
      let run : transact zero_f64 (still millis) (ordered respond) unit pdu s
          ≡ finished zero_f64 (still millis) (ordered respond)
              (with_world zero_f64 (still millis) (ordered respond) numbered [])
              (record frame { rx = own }) (pos 0) (Result.ok (respond unit pdu)) =
        rw ready.valid refl
        ∙ ap
            (λ w.
              exchange zero_f64 (still millis) (ordered respond) numbered frame (pos 0) tid
                (true, w))
            arrived
        ∙ exchange_lem zero_f64 millis respond numbered frame (pos 0) tid tid unit
            (respond unit pdu) [] ready.small given
        ∙ ap
            (λ b.
              finished zero_f64 (still millis) (ordered respond)
                (with_world zero_f64 (still millis) (ordered respond) numbered [])
                (record frame { rx = own }) (pos 0)
                (if not b then Result.err mismatch else Result.ok (respond unit pdu)))
            {x = tid == tid} {y = true} (ground arith) in
      let (world, number) =
        finish-world zero_f64 millis respond (record numbered.wire { world = [] })
          (record frame { rx = own }) (pos 0) (Result.ok (respond unit pdu)) in
      (
        ap (λ out. out.0) run,
        subst (λ out. IsReady out.1) (sym run)
            (record { valid = ready.valid; idle = world; small = omega (arith, number) }),
      )

  -- From a device that serves its 16-bit registers, over a network that loses nothing, reading at
  -- most 125 of them on a connected transport with no datagram waiting gives the registers from the
  -- address on, and leaves the transport as ready.
  pub read_holding_registers-serve :
      (cells : ℕ → ℕ → ℕ) (unit address quantity : ℕ) (s : Udp F64 (List (List ℕ)))
      → ((u i : ℕ) → cells u i < u16_mod)
      → address < u16_mod
      → quantity ≤ 125
      → IsReady s
      → let (r, s') =
          read_holding_registers zero_f64
            (still millis)
            (ordered (serve cells))
            unit
            address
            quantity
            s in
        (r ≡ some (Result.ok (range cells unit address quantity))) × IsReady s'
  unfolding modbus_read_registers
  read_holding_registers-serve cells unit address quantity s small ha hq ready =
      let pdu = make_read_registers_pdu 0x03 address quantity in
      let values = range cells unit address quantity in
      let served = serve_lem cells unit 0x03 address quantity ha (omega (arith, hq)) in
      let size = length-range cells unit address quantity in
      let (r, after) =
        transact-IsReady (serve cells) unit pdu s (IsPdu-make_read_registers_pdu address quantity)
          (subst IsPdu (sym served) (omega arith, omega (arith, hq, size, length-flat values)))
          ready in
      let out = transact zero_f64 (still millis) (ordered (serve cells)) unit pdu s in
      let decode : List ℕ → Option (Result (List ℕ)) =
        λ resp. decode_register_response resp quantity in
      let whole : after_tx decode out ≡ (decode (serve cells unit pdu), out.1) =
        ap (λ x. after_tx decode (x, out.1)) r in
      (
        ap (λ x. x.0) whole
            ∙ ap decode served
            ∙ subst
                (λ n.
                  decode_register_response (3 ∷ n * 2 ∷ flat values) n ≡ some (Result.ok values))
                size
                (decode_register_response-flat 3 values (omega (arith, hq, size))
                  (AllBelow-range cells unit address quantity small)),
        subst (λ x. IsReady x.1) (sym whole) after,
      )
