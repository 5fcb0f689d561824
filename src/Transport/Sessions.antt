-- ===== src/Transport/Sessions.antt =====
-- Sessions over the UDP transport with a journal, and their replay.
use mathlib.Core.List.{append_assoc, append-nil, map}
use opc_server.Prelude.{
  ℕ, suc, ◌+◌, ◌%◌, ◌^◌, ◌≡◌, List, [], ◌∷◌, ◌++◌, Bool, true, false, not, ◌==◌, refl, ap, sym, ◌∙◌,
  if◌then◌else◌, length,
}
use opc_server.Dispatcher.State.{EndpointAddress}
use opc_server.Prelude.Int.{ℤ}
use opc_server.Domain.{Result, Error}
use opc_server.Modbus.Frame.{pack_mbap, unpack_adu, UnpackedAdu}
use opc_server.Transport.{FrameRecord, Clocks, open_frame, finish}
use opc_server.Transport.Udp.{
  Udp, Socket, Received, transact, exchange, answer, match_answer, is_valid, finished, with_world,
}
use opc_server.Transport.Journal.{Journaled, Journaled-world, IsClean, noted-Journaled}
use opc_server.Replay.{new_replay, pdu_from_rx, connect, remaining}
use opc_server.Replay.Laws.{
  replayed, IsAnswer, next_pdus, next_pdus-append, pdu_from_bytes-unpack_adu,
}

module _ {F64 W : Type 0} (zero_f64 : F64) (clocks : Clocks F64 W) (net : Socket W) where
  -- A transaction from `s` gives the result `r` and leaves `out`: a frame was logged, and the
  -- descriptor is as before.
  abbrev pub Logs : Udp F64 W → List ℕ → Result (List ℕ) × Udp F64 W → Type 0
  Logs s tx (r, out) = Journaled s.wire out.wire tx r × (out.fd ≡ s.fd)

  finished-Logs :
      (s : Udp F64 W) (frame : FrameRecord F64) (t0 : ℤ) (tx : List ℕ) (r : Result (List ℕ))
      → s.wire.has_frame_log ≡ true
      → IsClean frame tx
      → IsAnswer frame.rx r
      → Logs s tx (finished zero_f64 clocks net s frame t0 r)
  unfolding finish
  finished-Logs s frame t0 tx r wired clean given =
      (noted-Journaled clocks s.wire _ frame _ tx r wired clean given, refl)

  IsAnswer-matched :
      (rx : List ℕ) (other : Bool) (e : Error) (u : UnpackedAdu)
      → unpack_adu rx ≡ Result.ok u
      → IsAnswer rx (if other then Result.err e else Result.ok u.pdu)
  IsAnswer-matched rx true e u same = tt
  IsAnswer-matched rx false e u same = pdu_from_bytes-unpack_adu rx u same

  match_answer-Logs :
      (s : Udp F64 W) (frame : FrameRecord F64) (t0 : ℤ) (tid : ℕ) (tx : List ℕ)
      (r : Result UnpackedAdu)
      → unpack_adu frame.rx ≡ r
      → s.wire.has_frame_log ≡ true
      → IsClean frame tx
      → Logs s tx (match_answer zero_f64 clocks net s frame t0 tid r)
  unfolding match_answer
  match_answer-Logs s frame t0 tid tx (Result.err e) same wired clean =
      finished-Logs s frame t0 tx (Result.err e) wired clean tt
  match_answer-Logs s frame t0 tid tx (Result.ok u) same wired clean =
      finished-Logs s frame t0 tx _ wired clean
        (IsAnswer-matched frame.rx (not (u.transaction_id == tid)) _ u same)

  answer-Logs :
      (s : Udp F64 W) (frame : FrameRecord F64) (t0 : ℤ) (tid : ℕ) (tx : List ℕ)
      (received : Received)
      → s.wire.has_frame_log ≡ true
      → IsClean frame tx
      → Logs s tx (answer zero_f64 clocks net s frame t0 tid received)
  unfolding answer
  answer-Logs s frame t0 tid tx Received.would_block wired clean =
      finished-Logs s frame t0 tx (Result.err _) wired clean tt
  answer-Logs s frame t0 tid tx Received.recv_failed wired clean =
      finished-Logs s frame t0 tx (Result.err _) wired clean tt
  answer-Logs s frame t0 tid tx (Received.datagram bytes) wired clean =
      match_answer-Logs s (record frame { rx = bytes }) t0 tid tx (unpack_adu bytes) refl wired
        clean

  Logs-with_world :
      (s : Udp F64 W) (w : W) (tx : List ℕ) (out : Result (List ℕ) × Udp F64 W)
      → Logs (with_world zero_f64 clocks net s w) tx out
      → Logs s tx out
  Logs-with_world s w tx (r, out) (h, same) = (Journaled-world s.wire out.wire w tx r h, same)

  exchange-Logs :
      (s : Udp F64 W) (frame : FrameRecord F64) (t0 : ℤ) (tid : ℕ) (tx : List ℕ) (sent : Bool × W)
      → s.wire.has_frame_log ≡ true
      → IsClean frame tx
      → Logs s tx (exchange zero_f64 clocks net s frame t0 tid sent)
  unfolding exchange
  exchange-Logs s frame t0 tid tx (false, w) wired clean =
      Logs-with_world s w tx _ (
        finished-Logs (with_world zero_f64 clocks net s w) frame t0 tx (Result.err _) wired clean
          tt)
  exchange-Logs s frame t0 tid tx (true, w) wired clean =
      let (received, w') = net.recv s.fd w in
      Logs-with_world s w' tx _
        (answer-Logs (with_world zero_f64 clocks net s w') frame t0 tid tx received wired clean)

  -- With a journal, a transaction on a valid descriptor takes the next 16-bit number, logs one
  -- frame, which holds the request as packed and replays to the transaction's result (an error as
  -- a lost connection with the error's text), and keeps the descriptor.
  pub transact-Logs :
      (unit : ℕ) (pdu : List ℕ) (s : Udp F64 W)
      → is_valid s.fd ≡ true
      → s.wire.has_frame_log ≡ true
      → Logs
          (record s {
            wire = record s.wire { transaction_id = (s.wire.transaction_id + 1) % 2 ^ 16 };
          })
          (pack_mbap s.wire.transaction_id unit pdu)
          (transact zero_f64 clocks net unit pdu s)
  unfolding transact open_frame
  transact-Logs unit pdu s valid wired =
      let tid = s.wire.transaction_id in
      let req = pack_mbap tid unit pdu in
      let numbered = record s { wire = record s.wire { transaction_id = (tid + 1) % 2 ^ 16 } } in
      let (frame, wire) = open_frame clocks numbered.wire zero_f64 req in
      let (t0, w) = clocks.steady_now wire.world in
      Logs-with_world numbered w req _ (
        rw valid (
          exchange-Logs (with_world zero_f64 clocks net numbered w) frame t0 tid req
            (net.send s.fd req w) wired (refl, refl, refl)))

  -- Transactions in order: their results, and the transport after them.
  unfoldable pub session : List (ℕ × List ℕ) → Udp F64 W → List (Result (List ℕ)) × Udp F64 W
  session [] s = ([], s)
  session ((unit, pdu) ∷ requests) s =
      let (r, s1) = transact zero_f64 clocks net unit pdu s in
      let (rs, s2) = session requests s1 in (r ∷ rs, s2)

  session-Journaled :
      (requests : List (ℕ × List ℕ)) (s : Udp F64 W)
      → is_valid s.fd ≡ true
      → s.wire.has_frame_log ≡ true
      → (frames : List (FrameRecord F64)) × ((session requests s).1.wire.frame_log
          ≡ s.wire.frame_log ++ frames)
        × (map pdu_from_rx frames ≡ map replayed (session requests s).0)
        × (length frames ≡ length requests)
  unfolding session
  session-Journaled [] s valid wired = ([], sym (append-nil s.wire.frame_log), refl, refl)
  session-Journaled ((unit, pdu) ∷ requests) s valid wired =
      let (logged, same) = transact-Logs unit pdu s valid wired in
      let next = (transact zero_f64 clocks net unit pdu s).1 in
      let (frames, log, results, many) =
        session-Journaled requests next (ap is_valid same ∙ valid) logged.wired in
      (
        logged.frame ∷ frames,
        log
            ∙ ap (λ fs. fs ++ frames) logged.log
            ∙ append_assoc s.wire.frame_log (logged.frame ∷ []) frames,
        (rw (logged.replays, results) refl),
        ap suc many,
      )

  -- The journal of a session of transactions on a valid descriptor, started with an empty journal,
  -- replays to the session's results in order, each error as a lost connection with its text; the
  -- replay is then at its end.
  pub session-next_pdus :
      (requests : List (ℕ × List ℕ)) (s : Udp F64 W) (address : EndpointAddress)
      → is_valid s.fd ≡ true
      → s.wire.has_frame_log ≡ true
      → s.wire.frame_log ≡ []
      → let (results, after) = session requests s in
        let (_, replay) = connect (new_replay after.wire.frame_log) address in
        ((next_pdus (length requests) replay).0 ≡ map replayed results)
        × (remaining (next_pdus (length requests) replay).1 ≡ 0)
  session-next_pdus requests s address valid wired empty =
      let (frames, log, results, many) = session-Journaled requests s valid wired in
      let after = (session requests s).1 in
      let (read, left) =
        next_pdus-append [] frames (connect (new_replay after.wire.frame_log) address).1 refl
          (log ∙ ap (λ old. old ++ frames) empty) refl in
      (
        ap (λ n. (next_pdus n (connect (new_replay after.wire.frame_log) address).1).0) (sym many)
            ∙ read
            ∙ results,
        ap (λ n. remaining (next_pdus n (connect (new_replay after.wire.frame_log) address).1).1)
              (sym many)
            ∙ left,
      )
