-- ===== src/Replay/Laws.antt =====
-- Reading back the response of a journalled frame.
use mathlib.Core.List.{append_assoc}
use opc_server.Prelude.{
  ℕ, zero, suc, map, ◌++◌, get_elem?, get_elem?-append, length-append, ◌+◌, ◌%◌, ◌/◌, ◌≡◌, ◌≤◌,
  List, [], ◌∷◌, some, Bool, true, false, not, ◌==◌, ◌||◌, ltb, if◌then◌else◌, length, get_or, drop,
  arith, refl, ap, sym, ◌∙◌,
}
use opc_server.Prelude.Int.{pos, negsuc}
use opc_server.Domain.{Result, Error, ErrorCode}
use opc_server.Modbus.Frame.{join_u16, unpack_adu, UnpackedAdu, proto_err}
use opc_server.Transport.{FrameRecord}
use opc_server.Replay.{
  replay_err, pdu_from_bytes, pdu_from_rx, ReplayModbusTransport, consume, next_pdu, remaining,
}

-- What a replay makes of a live result: an error of any kind comes back as a lost connection.
abbrev pub replayed : Result (List ℕ) → Result (List ℕ)
replayed (Result.ok pdu) = Result.ok pdu
replayed (Result.err e) = Result.err (replay_err ErrorCode.connection e.message true)

-- The response of a result that is not an error stands in the bytes received.
abbrev pub IsAnswer : List ℕ → Result (List ℕ) → Type 0
IsAnswer rx (Result.ok pdu) = pdu_from_bytes rx ≡ Result.ok pdu
IsAnswer rx (Result.err e) = Unit

pub pdu_from_bytes_lem :
    (rx : List ℕ)
    → 8 ≤ length rx
    → length rx ≡ 6 + join_u16 (get_or rx 4 0) (get_or rx 5 0)
    → pdu_from_bytes rx ≡ Result.ok (drop 7 rx)
unfolding pdu_from_bytes
pdu_from_bytes_lem rx big size = ground arith

-- The tests of unpack_adu that a frame which it takes has passed.
unpack_adu_size :
    (short bad exception : Bool) (e1 e2 e3 : Error) (u v : UnpackedAdu)
    → (if short
        then Result.err e1
        else if bad
        then Result.err e2
        else if exception
        then Result.err e3
        else Result.ok u)
      ≡ Result.ok v
    → (short ≡ false) × (bad ≡ false) × (u ≡ v)
unpack_adu_size true bad exception e1 e2 e3 u v h = absurd (ground (arith, h))
unpack_adu_size false true exception e1 e2 e3 u v h = absurd (ground (arith, h))
unpack_adu_size false false true e1 e2 e3 u v h = absurd (ground (arith, h))
unpack_adu_size false false false e1 e2 e3 u v h = (refl, refl, ground (arith, h))

pub pdu_from_bytes-unpack_adu :
    (rx : List ℕ) (u : UnpackedAdu)
    → unpack_adu rx ≡ Result.ok u
    → pdu_from_bytes rx ≡ Result.ok u.pdu
unfolding unpack_adu
pdu_from_bytes-unpack_adu rx u h =
    let len : ℕ = join_u16 (get_or rx 4 0) (get_or rx 5 0) in
    let (big, size, same) =
      unpack_adu_size (ltb (length rx) 8) (ltb len 2 || not (6 + len == length rx))
        (get_or rx 7 0 / 128 % 2 == 1) (proto_err ErrorCode.decoding "short Modbus ADU" false)
        (proto_err ErrorCode.decoding "bad MBAP length" false)
        (record (proto_err ErrorCode.modbus_exception "modbus exception" true) {
          protocol_status = some (if ltb 2 len then pos (get_or rx 8 0) else negsuc 0);
        })
        (record {
          transaction_id = join_u16 (get_or rx 0 0) (get_or rx 1 0);
          unit = get_or rx 6 0;
          pdu = drop 7 rx;
        })
        u h in
    pdu_from_bytes_lem rx (ground (arith, big)) (ground (arith, size))
    ∙ ap (λ v. Result.ok v.pdu) same

-- As many responses as a number says, one after the other.
unfoldable pub next_pdus :
    {F64 : Type 0}
    → ℕ
    → ReplayModbusTransport F64
    → List (Result (List ℕ)) × ReplayModbusTransport F64
next_pdus zero s = ([], s)
next_pdus (suc n) s = let (r, s1) = next_pdu s in let (rs, s2) = next_pdus n s1 in (r ∷ rs, s2)

module _ {F64 : Type 0} where
  next_pdu_found :
      (s : ReplayModbusTransport F64) (frame : FrameRecord F64)
      → s.connected ≡ true
      → get_elem? s.frames s.next ≡ some frame
      → next_pdu s ≡ (pdu_from_rx frame, record s { next = s.next + 1 })
  unfolding next_pdu consume
  next_pdu_found s frame on found = rw (on, found) refl

  -- Reading on from the frames `old`, a connected replay gives the responses of `frames` in order.
  pub next_pdus-append :
      (old frames : List (FrameRecord F64)) (s : ReplayModbusTransport F64)
      → s.connected ≡ true
      → s.frames ≡ old ++ frames
      → s.next ≡ length old
      → ((next_pdus (length frames) s).0 ≡ map pdu_from_rx frames)
        × (remaining (next_pdus (length frames) s).1 ≡ 0)
  unfolding next_pdus remaining
  next_pdus-append old [] s on at here =
      (refl, omega (arith, here, ap length at, length-append old []))
  next_pdus-append old (frame ∷ frames) s on at here =
      let found : get_elem? s.frames s.next ≡ some frame =
        ap (λ fs. get_elem? fs s.next) at
        ∙ get_elem?-append old (frame ∷ frames) s.next 0 (omega (arith, here)) in
      let step : next_pdu s ≡ (pdu_from_rx frame, record s { next = s.next + 1 }) =
        next_pdu_found s frame on found in
      let (rs, left) =
        next_pdus-append (old ++ frame ∷ []) frames (record s { next = s.next + 1 }) on
          (at ∙ sym (append_assoc old (frame ∷ []) frames))
          (omega (arith, here, length-append old (frame ∷ []))) in
      (
        rw step (ap (pdu_from_rx frame ∷◌) rs),
        ap (λ out. remaining (next_pdus (length frames) out.1).1) step ∙ left,
      )
