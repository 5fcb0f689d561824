-- ===== src/Transport/Journal.antt =====
-- A transaction's frame in the journal, and that it replays to the transaction's result.
use opc_server.Prelude.{
  ℕ, ◌≡◌, List, [], ◌∷◌, ◌++◌, none, true, Bool-cases, inl, inr, ap, refl, if◌then◌else◌,
}
use opc_server.Prelude.Int.{ℤ}
use opc_server.Prelude.Eq.{◌=?◌, string_eq}
use opc_server.Domain.{Result, is_zero}
use opc_server.Transport.{FrameRecord, Clocks, Wire, note, stamp, emit_frame}
use opc_server.Replay.{pdu_from, pdu_from_rx}
use opc_server.Replay.Laws.{replayed, IsAnswer}

-- A frame of the request `tx` that no error was noted in.
abbrev pub IsClean : {F64 : Type 0} → FrameRecord F64 → List ℕ → Type 0
IsClean frame tx = (frame.tx ≡ tx) × (frame.error ≡ none) × (frame.exception_code ≡ none)

module _ {F64 W : Type 0} where
  -- From `before` to `after` one frame was logged, of the request `tx` and with the result `r`.
  pub record Journaled (before after : Wire F64 W) (tx : List ℕ) (r : Result (List ℕ))
      : Type 0 where
    pub frame : FrameRecord F64
    pub log : after.frame_log ≡ before.frame_log ++ frame ∷ []
    pub sent : frame.tx ≡ tx
    pub replays : pdu_from_rx frame ≡ replayed r
    pub number : after.transaction_id ≡ before.transaction_id
    pub wired : after.has_frame_log ≡ true

  stamp_lem :
      (clocks : Clocks F64 W) (frame : FrameRecord F64) (w : W)
      → (t : ℤ) × ((stamp clocks frame w).0 ≡ record frame { ts_ms = t })
  unfolding stamp
  stamp_lem clocks frame w = elim (Bool-cases (is_zero frame.ts_ms)) [
    | inl e ↦ ((clocks.wall_now_ms w).0, rw e refl)
    | inr e ↦ (frame.ts_ms, rw e refl)
  ]

  emit_frame-Journaled :
      (clocks : Clocks F64 W) (s : Wire F64 W) (frame : FrameRecord F64) (tx : List ℕ)
      (r : Result (List ℕ))
      → s.has_frame_log ≡ true
      → frame.tx ≡ tx
      → pdu_from frame.error frame.exception_code frame.rx ≡ replayed r
      → Journaled s (emit_frame clocks s frame) tx r
  unfolding emit_frame pdu_from_rx
  emit_frame-Journaled clocks s frame tx r wired sent replays =
      let id = if frame.endpoint_id =? "" then s.endpoint_id else frame.endpoint_id in
      let (t, same) = stamp_lem clocks (record frame { endpoint_id = id }) s.world in
      rw wired (record {
        frame = record frame { endpoint_id = id; ts_ms = t };
        log = ap (λ f. s.frame_log ++ f ∷ []) same;
        sent = sent;
        replays = replays;
        number = refl;
        wired = refl;
      })

  -- The world and the next transaction's number before do not matter to the journal.
  pub Journaled-world :
      (s after : Wire F64 W) (w : W) (tx : List ℕ) (r : Result (List ℕ))
      → Journaled (record s { world = w }) after tx r
      → Journaled s after tx r
  Journaled-world s after w tx r h = record {
    frame = h.frame;
    log = h.log;
    sent = h.sent;
    replays = h.replays;
    number = h.number;
    wired = h.wired;
  }

  -- The frame of `finish`, with the time and the result noted, is logged.
  pub noted-Journaled :
      (clocks : Clocks F64 W) (s : Wire F64 W) (w : W) (frame : FrameRecord F64) (rtt : F64)
      (tx : List ℕ) (r : Result (List ℕ))
      → s.has_frame_log ≡ true
      → IsClean frame tx
      → IsAnswer frame.rx r
      → Journaled s
          (emit_frame clocks
            (record s { world = w })
            (note clocks (record frame { rtt_ms = rtt }) r))
          tx
          r
  unfolding note pdu_from
  noted-Journaled clocks s w frame rtt tx (Result.ok pdu) wired (sent, fine, plain) answer =
      Journaled-world s _ w tx (Result.ok pdu) (
        emit_frame-Journaled clocks (record s { world = w }) (record frame { rtt_ms = rtt }) tx
          (Result.ok pdu) wired sent (rw (fine, plain) answer))
  noted-Journaled clocks s w frame rtt tx (Result.err e) wired (sent, fine, plain) answer =
      Journaled-world s _ w tx (Result.err e) (
        emit_frame-Journaled clocks (record s { world = w })
          (note clocks (record frame { rtt_ms = rtt }) (Result.err e)) tx (Result.err e) wired sent
          refl)
