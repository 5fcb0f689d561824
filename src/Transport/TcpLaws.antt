-- ===== src/Transport/TcpLaws.antt =====
-- A transaction over TCP: its frame in the journal, when the connection is given up, and what it
-- makes of a well-formed response.
use opc_server.Prelude.{
  ℕ, ◌+◌, ◌/◌, ◌%◌, ◌^◌, ◌≡◌, List, [], ◌∷◌, ◌++◌, Option, none, some, Bool, true, false, not, ◌==◌,
  ◌&&◌, ◌||◌, ltb, refl, arith, Bool-cases, inl, inr, ◌⊎◌, if◌then◌else◌, length, get_or, drop,
}
use opc_server.Prelude.Int.{ℤ}
use opc_server.Domain.{Result, Error}
use opc_server.Modbus.Frame.{pack_mbap, join_u16}
use opc_server.Transport.{FrameRecord, Clocks, open_frame}
use opc_server.Transport.Tcp.{
  Tcp, Stream, IoError, transact, after_write, after_header, after_body, body_result, finish,
  mark_disconnected, loses, with_world,
}
use opc_server.Transport.Journal.{Journaled, Journaled-world, IsClean, noted-Journaled}
use opc_server.Replay.{pdu_from_bytes}
use opc_server.Replay.Laws.{IsAnswer, pdu_from_bytes_lem}

-- asio::async_read fills the buffer unless it ends with an error.
abbrev pub IsFull : {W : Type 0} → Stream W → Type 0
IsFull {W} net =
    (n : ℕ) (w : W) (bytes : List ℕ) → (net.async_read n w).0 ≡ inr bytes → length bytes ≡ n

IsAnswer-guarded :
    (rx pdu : List ℕ) (short exception : Bool) (e1 e2 : Error)
    → (short ≡ false → pdu_from_bytes rx ≡ Result.ok pdu)
    → IsAnswer rx
        (if short then Result.err e1 else if exception then Result.err e2 else Result.ok pdu)
IsAnswer-guarded rx pdu true exception e1 e2 h = tt
IsAnswer-guarded rx pdu false true e1 e2 h = tt
IsAnswer-guarded rx pdu false false e1 e2 h = h refl

module _ {F64 W : Type 0} (zero_f64 : F64) (clocks : Clocks F64 W) (net : Stream W) where
  -- A transaction from `s` gives the result `r` and leaves `out`: a frame was logged, and the
  -- connection is as before, or given up where the result is a lost connection or a timeout.
  abbrev pub Logs : Tcp F64 W → List ℕ → Result (List ℕ) × Tcp F64 W → Type 0
  Logs s tx out =
      Journaled s.wire out.1.wire tx out.0
      × (out.1.connected ≡ s.connected && not (loses out.0))
      × (out.1.is_open ≡ s.is_open && not (loses out.0))

  Logs-with_world :
      (s : Tcp F64 W) (w : W) (tx : List ℕ) (out : Result (List ℕ) × Tcp F64 W)
      → Logs (with_world zero_f64 clocks net s w) tx out
      → Logs s tx out
  Logs-with_world s w tx (r, out) (h, up, open_as) =
      (Journaled-world s.wire out.wire w tx r h, up, open_as)

  finish-Logs :
      (s : Tcp F64 W) (frame : FrameRecord F64) (t0 : ℤ) (tx : List ℕ) (r : Result (List ℕ))
      → s.wire.has_frame_log ≡ true
      → IsClean frame tx
      → IsAnswer frame.rx r
      → Logs s tx (finish zero_f64 clocks net s frame t0 r)
  unfolding finish mark_disconnected
  finish-Logs s frame t0 tx r wired clean given = elim (Bool-cases (loses r)) [
    | inl e ↦
        rw e (
          noted-Journaled clocks s.wire _ frame _ tx r wired clean given,
          ground arith,
          ground arith,
        )
    | inr e ↦
        rw e (
          noted-Journaled clocks s.wire _ frame _ tx r wired clean given,
          ground arith,
          ground arith,
        )
  ]

  body_result-IsAnswer :
      (mbap body : List ℕ)
      → length mbap ≡ 6
      → length body ≡ join_u16 (get_or mbap 4 0) (get_or mbap 5 0)
      → IsAnswer (mbap ++ body) (body_result zero_f64 clocks net body)
  unfolding body_result
  body_result-IsAnswer [] body six size = absurd (omega (arith, six))
  body_result-IsAnswer (a ∷ []) body six size = absurd (omega (arith, six))
  body_result-IsAnswer (a ∷ b ∷ []) body six size = absurd (omega (arith, six))
  body_result-IsAnswer (a ∷ b ∷ c ∷ []) body six size = absurd (omega (arith, six))
  body_result-IsAnswer (a ∷ b ∷ c ∷ d ∷ []) body six size = absurd (omega (arith, six))
  body_result-IsAnswer (a ∷ b ∷ c ∷ d ∷ e ∷ []) body six size = absurd (omega (arith, six))
  body_result-IsAnswer (a ∷ b ∷ c ∷ d ∷ e ∷ f ∷ g ∷ rest) body six size =
      absurd (omega (arith, six))
  body_result-IsAnswer (a ∷ b ∷ c ∷ d ∷ e ∷ f ∷ []) body six size =
      IsAnswer-guarded (a ∷ b ∷ c ∷ d ∷ e ∷ f ∷ body) (drop 1 body) (ltb (length body) 2)
        (get_or body 1 0 / 128 % 2 == 1) _ _
        (λ long.
          pdu_from_bytes_lem (a ∷ b ∷ c ∷ d ∷ e ∷ f ∷ body) (ground (arith, long))
            (omega (arith, size)))

  after_body-Logs :
      (s : Tcp F64 W) (frame : FrameRecord F64) (t0 : ℤ) (tx mbap : List ℕ)
      (body : IoError ⊎ List ℕ)
      → s.wire.has_frame_log ≡ true
      → IsClean frame tx
      → length mbap ≡ 6
      → ((bytes : List ℕ)
          → body ≡ inr bytes
          → length bytes ≡ join_u16 (get_or mbap 4 0) (get_or mbap 5 0))
      → Logs s tx (after_body zero_f64 clocks net s frame t0 mbap body)
  unfolding after_body
  after_body-Logs s frame t0 tx mbap (inl e) wired clean six size =
      finish-Logs s frame t0 tx (Result.err _) wired clean tt
  after_body-Logs s frame t0 tx mbap (inr body) wired clean six size =
      finish-Logs s (record frame { rx = mbap ++ body }) t0 tx _ wired clean
        (body_result-IsAnswer mbap body six (size body refl))

  after_header-Logs :
      (s : Tcp F64 W) (frame : FrameRecord F64) (t0 : ℤ) (tx : List ℕ) (mbap : IoError ⊎ List ℕ)
      → IsFull net
      → s.wire.has_frame_log ≡ true
      → IsClean frame tx
      → ((bytes : List ℕ) → mbap ≡ inr bytes → length bytes ≡ 6)
      → Logs s tx (after_header zero_f64 clocks net s frame t0 mbap)
  unfolding after_header
  after_header-Logs s frame t0 tx (inl e) full wired clean six =
      finish-Logs s frame t0 tx (Result.err _) wired clean tt
  after_header-Logs s frame t0 tx (inr mbap) full wired clean six =
      let len = join_u16 (get_or mbap 4 0) (get_or mbap 5 0) in
      let w = (net.async_read len s.wire.world).1 in
      elim (Bool-cases (ltb len 2 || ltb 254 len)) [
        | inl e ↦ rw e (finish-Logs s frame t0 tx (Result.err _) wired clean tt)
        | inr e ↦ rw e (
            Logs-with_world s w tx
              (after_body zero_f64 clocks net (with_world zero_f64 clocks net s w) frame t0 mbap
                (net.async_read len s.wire.world).0)
              (after_body-Logs (with_world zero_f64 clocks net s w) frame t0 tx mbap _ wired clean
                (six mbap refl) (full len s.wire.world)))
      ]

  after_write-Logs :
      (s : Tcp F64 W) (frame : FrameRecord F64) (t0 : ℤ) (tx : List ℕ) (written : Option IoError)
      → IsFull net
      → s.wire.has_frame_log ≡ true
      → IsClean frame tx
      → Logs s tx (after_write zero_f64 clocks net s frame t0 written)
  unfolding after_write
  after_write-Logs s frame t0 tx (some e) full wired clean =
      finish-Logs s frame t0 tx (Result.err _) wired clean tt
  after_write-Logs s frame t0 tx none full wired clean =
      let w = (net.async_read 6 s.wire.world).1 in
      Logs-with_world s w tx
        (after_header zero_f64 clocks net (with_world zero_f64 clocks net s w) frame t0
          (net.async_read 6 s.wire.world).0)
        (after_header-Logs (with_world zero_f64 clocks net s w) frame t0 tx _ full wired clean
          (full 6 s.wire.world))

  -- With a journal and reads that fill their buffer, a transaction on a connected socket takes the
  -- next 16-bit number and logs one frame, which holds the request as packed and replays to the
  -- transaction's result (an error as a lost connection with the error's text). The transport is
  -- connected after it exactly if the result is no lost connection and no timeout.
  pub transact-Journaled :
      (unit : ℕ) (pdu : List ℕ) (s : Tcp F64 W)
      → IsFull net
      → s.connected && s.is_open ≡ true
      → s.wire.has_frame_log ≡ true
      → Logs
          (record s {
            wire = record s.wire { transaction_id = (s.wire.transaction_id + 1) % 2 ^ 16 };
          })
          (pack_mbap s.wire.transaction_id unit pdu)
          (transact zero_f64 clocks net unit pdu s)
  unfolding transact open_frame
  transact-Journaled unit pdu s full on wired =
      let tid = s.wire.transaction_id in
      let req = pack_mbap tid unit pdu in
      let numbered = record s { wire = record s.wire { transaction_id = (tid + 1) % 2 ^ 16 } } in
      let (frame, wire) = open_frame clocks numbered.wire zero_f64 req in
      let (t0, w) = clocks.steady_now wire.world in
      let (written, w') = net.async_write req w in
      let up : not s.connected || not s.is_open ≡ false = ground (arith, on) in
      rw up (
        Logs-with_world numbered w' req
          (after_write zero_f64 clocks net (with_world zero_f64 clocks net numbered w') frame t0
            written)
          (after_write-Logs (with_world zero_f64 clocks net numbered w') frame t0 req written full
            wired (refl, refl, refl)))
