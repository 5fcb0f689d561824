-- ===== src/Transport/Desync.antt =====
-- The UDP transport against a peer that answers every request, over a network that keeps datagrams
-- in order: what a late answer does to the transactions after it. The world is the datagrams that
-- have arrived and were not yet received.
use opc_server.Prelude.{
  ℕ, ◌+◌, ◌<◌, ◌≡◌, ◌≤◌, ◌≢◌, List, [], ◌∷◌, ◌++◌, none, true, false, not, ◌==◌, refl, arith,
  if◌then◌else◌, length, take, take_all, Bool-cases, inl, inr,
}
use opc_server.Prelude.Int.{ℤ, pos}
use opc_server.Domain.{Result, Error, ErrorCode, is_zero}
use opc_server.Modbus.Frame.{pack_mbap, unpack_adu, UnpackedAdu}
use opc_server.Modbus.FrameRoundTrip.{unpack_adu-pack_mbap}
use opc_server.Transport.{FrameRecord, Clocks, Wire, finish, emit_frame, stamp}
use opc_server.Transport.Udp.{
  Udp, Socket, Received, exchange, answer, match_answer, is_valid, finished, with_world, udp_err,
}

-- A PDU that is no exception, and whose frame fits the buffer of 260 bytes.
abbrev pub IsPdu : List ℕ → Type 0
IsPdu [] = 1 < 0
IsPdu (function ∷ rest) = (function < 128) × (8 + length rest ≤ 260)

abbrev pub unpacked : ℕ → ℕ → List ℕ → UnpackedAdu
unpacked tid unit pdu = record { transaction_id = tid; unit = unit; pdu = pdu }

pub unpacked_lem :
    (tid unit : ℕ) (pdu : List ℕ)
    → tid < 0x10000
    → IsPdu pdu
    → unpack_adu (pack_mbap tid unit pdu) ≡ Result.ok (unpacked tid unit pdu)
unpacked_lem tid unit [] small fits = absurd (ground (arith, fits))
unpacked_lem tid unit (f ∷ rest) small (plain, fits) =
    unpack_adu-pack_mbap tid unit f rest small plain (omega (arith, fits))

whole-pack_mbap :
    (tid unit : ℕ) (pdu : List ℕ)
    → IsPdu pdu
    → take 260 (pack_mbap tid unit pdu) ≡ pack_mbap tid unit pdu
whole-pack_mbap tid unit [] fits = absurd (omega (arith, fits))
whole-pack_mbap tid unit (f ∷ rest) (plain, fits) =
    take_all 260 (pack_mbap tid unit (f ∷ rest)) (unfold pack_mbap in omega (arith, fits))

-- The peer's datagrams for a request: the response to its PDU, under its number.
abbrev pub reply : (ℕ → List ℕ → List ℕ) → Result UnpackedAdu → List (List ℕ)
reply respond (Result.err e) = []
reply respond (Result.ok u) = pack_mbap u.transaction_id u.unit (respond u.unit u.pdu) ∷ []

-- recv into a buffer of 260 bytes: what is longer is cut.
abbrev pub first_datagram : List (List ℕ) → Received × List (List ℕ)
first_datagram [] = (Received.would_block, [])
first_datagram (d ∷ ds) = (Received.datagram (take 260 d), ds)

abbrev pub ordered : (ℕ → List ℕ → List ℕ) → Socket (List (List ℕ))
ordered respond = record {
  socket = λ w. (pos 3, w);
  inet_pton = λ host. true;
  connect = λ fd address w. (none, []);
  close = λ fd w. [];
  send = λ fd req w. (true, w ++ reply respond (unpack_adu req));
  recv = λ fd w. first_datagram w;
}

abbrev pub mismatch : Error
mismatch = udp_err ErrorCode.decoding "transaction id mismatch" false

-- Clocks that leave the network as it is.
abbrev pub still : {F64 : Type 0} → (ℤ → F64) → Clocks F64 (List (List ℕ))
still millis = record {
  wall_now_ms = λ w. (pos 1, w);
  steady_now = λ w. (pos 0, w);
  millis = millis;
}

module _ {F64 : Type 0} (zero_f64 : F64) (millis : ℤ → F64) (respond : ℕ → List ℕ → List ℕ) where
  stamp-world : (frame : FrameRecord F64) (w : List (List ℕ)) → (stamp (still millis) frame w).1 ≡ w
  unfolding stamp
  stamp-world frame w = elim (Bool-cases (is_zero frame.ts_ms)) [
    | inl e ↦ rw e refl
    | inr e ↦ rw e refl
  ]

  emit_frame-world :
      (s : Wire F64 (List (List ℕ))) (frame : FrameRecord F64)
      → ((emit_frame (still millis) s frame).world ≡ s.world)
        × ((emit_frame (still millis) s frame).transaction_id ≡ s.transaction_id)
  unfolding emit_frame
  emit_frame-world s frame = elim (Bool-cases s.has_frame_log) [
    | inl e ↦ (rw e (stamp-world _ s.world), rw e refl)
    | inr e ↦ (rw e refl, rw e refl)
  ]

  pub finish-world :
      (s : Wire F64 (List (List ℕ))) (frame : FrameRecord F64) (t0 : ℤ) (r : Result (List ℕ))
      → ((finish (still millis) s frame t0 r).world ≡ s.world)
        × ((finish (still millis) s frame t0 r).transaction_id ≡ s.transaction_id)
  unfolding finish
  finish-world s frame t0 r = emit_frame-world s _

  -- What is made of a datagram that packs a PDU under some number.
  pub exchange_lem :
      (s : Udp F64 (List (List ℕ))) (frame : FrameRecord F64) (t0 : ℤ) (tid number unit : ℕ)
      (pdu : List ℕ) (later : List (List ℕ))
      → number < 0x10000
      → IsPdu pdu
      → let datagram = pack_mbap number unit pdu in
        exchange zero_f64 (still millis) (ordered respond) s frame t0 tid (true, datagram ∷ later)
        ≡ finished zero_f64
            (still millis)
            (ordered respond)
            (with_world zero_f64 (still millis) (ordered respond) s later)
            (record frame { rx = datagram })
            t0
            (if not (number == tid) then Result.err mismatch else Result.ok pdu)
  unfolding exchange answer match_answer
  exchange_lem s frame t0 tid number unit pdu later small whole =
      rw (whole-pack_mbap number unit pdu whole, unpacked_lem number unit pdu small whole) refl

module _ {F64 : Type 0} (zero_f64 : F64) (millis : ℤ → F64) (respond : ℕ → List ℕ → List ℕ)
    (fits : (unit : ℕ) (pdu : List ℕ) → IsPdu pdu → IsPdu (respond unit pdu)) where
  -- The only datagram waiting answers an earlier transaction.
  pub record IsLate (s : Udp F64 (List (List ℕ))) : Type 0 where
    pub stale : ℕ
    pub unit : ℕ
    pub pdu : List ℕ
    pub waiting : s.wire.world ≡ pack_mbap stale unit pdu ∷ []
    pub is_stale : stale ≢ s.wire.transaction_id
    pub small : stale < 0x10000
    pub next_small : s.wire.transaction_id < 0x10000
    pub whole : IsPdu pdu
    pub valid : is_valid s.fd ≡ true
