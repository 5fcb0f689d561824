-- ===== src/Transport.antt =====
-- What the two Modbus transports share (Src/adapters/modbus_tcp_transport.cpp and
-- modbus_udp_transport.cpp): the frame journal's record (Src/ports/i_frame_log.hpp), the clocks, and
-- how a transaction is timed and logged. A steady time is a number of ticks; `millis` is the cast
-- of ticks to a double of milliseconds.
pub mod Udp
pub mod Tcp
pub mod TcpLaws
pub mod TcpAsync
pub mod Journal
pub mod Sessions
pub mod Desync
pub mod Served
mod Tests
use opc_server.Prelude.{
  ℕ, ◌+◌, ◌%◌, ◌^◌, List, [], ◌∷◌, ◌++◌, Option, some, none, Bool, if◌then◌else◌, String,
}
use opc_server.Prelude.Int.{ℤ, ◌-ℤ◌}
use opc_server.Prelude.Eq.{◌=?◌, string_eq}
use opc_server.Domain.{Result, Error, is_zero}

pub record FrameRecord (F64 : Type 0) : Type 0 where
  pub ts_ms : ℤ
  pub endpoint_id : String
  pub tx : List ℕ
  pub rx : List ℕ
  pub exception_code : Option ℤ
  pub rtt_ms : F64
  pub error : Option String

-- wall_now_ms and std::chrono::steady_clock, on a world W.
pub record Clocks (F64 W : Type 0) : Type 0 where
  pub wall_now_ms : W → ℤ × W
  pub steady_now : W → ℤ × W
  pub millis : ℤ → F64

-- What a transport keeps beside its socket. The journal is a list, the oldest frame first.
pub record Wire (F64 W : Type 0) : Type 0 where
  pub transaction_id : ℕ
  pub endpoint_id : String
  pub has_frame_log : Bool
  pub frame_log : List (FrameRecord F64)
  pub world : W

-- What `finish` notes of a result: an error's text, and its exception code if it has one.
abbrev pub or_code : Option ℤ → Option ℤ → Option ℤ
or_code none old = old
or_code (some c) old = some c

module _ {F64 W : Type 0} (clocks : Clocks F64 W) where
  unfoldable pub note : FrameRecord F64 → Result (List ℕ) → FrameRecord F64
  note frame (Result.ok pdu) = frame
  note frame (Result.err e) = record frame {
    error = some e.message;
    exception_code = or_code e.protocol_status frame.exception_code;
  }

  -- The frame's time if it has none yet.
  unfoldable pub stamp : FrameRecord F64 → W → FrameRecord F64 × W
  stamp frame w =
      let (now, w') = clocks.wall_now_ms w in
      if is_zero frame.ts_ms then (record frame { ts_ms = now }, w') else (frame, w)

  unfoldable pub emit_frame : Wire F64 W → FrameRecord F64 → Wire F64 W
  emit_frame s frame =
      let id = if frame.endpoint_id =? "" then s.endpoint_id else frame.endpoint_id in
      let (stamped, w) = stamp (record frame { endpoint_id = id }) s.world in
      if s.has_frame_log then record s { frame_log = s.frame_log ++ stamped ∷ []; world = w } else s

  -- The frame of a request, before it is sent; its round trip time is still 0.
  unfoldable pub open_frame : Wire F64 W → F64 → List ℕ → FrameRecord F64 × Wire F64 W
  open_frame s zero req =
      let (now, w) = clocks.wall_now_ms s.world in
      (
        record {
          ts_ms = now;
          endpoint_id = s.endpoint_id;
          tx = req;
          rx = [];
          exception_code = none;
          rtt_ms = zero;
          error = none;
        },
        record s { world = w },
      )

  -- `finish`: takes the time and logs the frame.
  unfoldable pub finish : Wire F64 W → FrameRecord F64 → ℤ → Result (List ℕ) → Wire F64 W
  finish s frame t0 result =
      let (t1, w) = clocks.steady_now s.world in
      emit_frame (record s { world = w })
        (note (record frame { rtt_ms = clocks.millis (t1 -ℤ t0) }) result)
