-- ===== src/Transport/Tests.antt =====
-- The theorems on the transports at concrete networks: a device that echoes, one that serves
-- registers, and a stream of bytes. Milliseconds are integers in place of doubles.
use opc_server.Prelude.{
  ℕ, ◌+◌, ◌*◌, ◌%◌, ◌≡◌, List, [], ◌∷◌, map, Option, none, some, true, false, refl, arith, length,
  drop, take, length-take, inl, inr, leb, if◌then◌else◌,
}
use opc_server.Prelude.Int.{ℤ, pos}
use opc_server.Domain.{Result}
use opc_server.Modbus.Frame.{pack_mbap}
use opc_server.Dispatcher.State.{EndpointAddress}
use opc_server.Transport.{Clocks}
use opc_server.Transport.Udp.{Udp, read_holding_registers}
use opc_server.Transport.Tcp.{Tcp, Stream, IoKind, Resolution, transact}
use opc_server.Transport.TcpLaws.{Logs, IsFull, transact-Journaled}
use opc_server.Transport.Sessions.{session, session-next_pdus}
use opc_server.Transport.Desync.{ordered, still}
use opc_server.Transport.Served.{IsReady, serve, range, read_holding_registers-serve}
use opc_server.Replay.{connect, new_replay, remaining}
use opc_server.Replay.Laws.{replayed, next_pdus}

abbrev echo : ℕ → List ℕ → List ℕ
echo unit pdu = pdu

abbrev as_int : ℤ → ℤ
as_int n = n

-- A UDP transport on descriptor 3 that is about to use number 7, with the datagrams that wait.
abbrev bound : List (List ℕ) → Udp ℤ (List (List ℕ))
bound waiting = record {
  fd = pos 3;
  wire = record {
    transaction_id = 7;
    endpoint_id = "line";
    has_frame_log = true;
    frame_log = [];
    world = waiting;
  };
}

abbrev requests : List (ℕ × List ℕ)
requests = (1, 3 ∷ 0 ∷ 9 ∷ 0 ∷ 2 ∷ []) ∷ (1, 131 ∷ 4 ∷ []) ∷ []

abbrev address : EndpointAddress
address = record { host = "10.0.0.1"; port = 502 }

abbrev live : List (Result (List ℕ)) × Udp ℤ (List (List ℕ))
live = session (pos 0) (still as_int) (ordered echo) requests (bound [])

abbrev replay_of_live : List (Result (List ℕ)) × ℕ
replay_of_live =
    let (rs, after) = next_pdus 2 (connect (new_replay (live.1).wire.frame_log) address).1 in
    (rs, remaining after)

session-next_pdus_example : (replay_of_live.0 ≡ map replayed (live.0)) × (replay_of_live.1 ≡ 0)
session-next_pdus_example =
    session-next_pdus (pos 0) (still as_int) (ordered echo) requests (bound []) address refl refl
      refl

abbrev late : Udp ℤ (List (List ℕ))
late = bound (pack_mbap 6 1 (3 ∷ 2 ∷ 0 ∷ 5 ∷ []) ∷ [])

abbrev polls : List (ℕ × List ℕ)
polls = (1, 3 ∷ 0 ∷ 9 ∷ 0 ∷ 2 ∷ []) ∷ (1, 3 ∷ 0 ∷ 9 ∷ 0 ∷ 2 ∷ []) ∷ []

abbrev cells : ℕ → ℕ → ℕ
cells unit i = (unit * 1000 + i) % 0x10000

abbrev read_two : Option (Result (List ℕ)) × Udp ℤ (List (List ℕ))
read_two = read_holding_registers (pos 0) (still as_int) (ordered (serve cells)) 3 40 2 (bound [])

read_holding_registers-serve_example :
    (read_two.0 ≡ some (Result.ok (range cells 3 40 2))) × IsReady (read_two.1)
read_holding_registers-serve_example =
    read_holding_registers-serve (pos 0) as_int cells 3 40 2 (bound []) (λ u i. omega arith)
      (omega arith) (omega arith) (record { valid = refl; idle = refl; small = omega arith })

-- A stream whose world is the bytes that have arrived.
abbrev bytes_net : Stream (List ℕ)
bytes_net = record {
  resolve = λ host port w. (Resolution.resolved, w);
  async_connect = λ w. (none, w);
  async_write = λ req w. (none, w);
  async_read = λ n w.
      if leb n (length w)
      then (inr (take n w), drop n w)
      else (inl (record { kind = IoKind.eof; message = "End of file" }), []);
  reset = λ w. [];
  close = λ w. w;
}

bytes_net-IsFull : IsFull bytes_net
bytes_net-IsFull n w bytes h = ground (arith, h, length-take n w)

abbrev dialled : Tcp ℤ (List ℕ)
dialled = record {
  connected = true;
  is_open = true;
  completion_executor = false;
  wire = record {
    transaction_id = 7;
    endpoint_id = "line";
    has_frame_log = true;
    frame_log = [];
    world = pack_mbap 7 1 (3 ∷ 2 ∷ 0 ∷ 5 ∷ []);
  };
}

abbrev tcp_clocks : Clocks ℤ (List ℕ)
tcp_clocks = record { wall_now_ms = λ w. (pos 1, w); steady_now = λ w. (pos 0, w); millis = as_int }

transact-Journaled_example :
    Logs
      (pos 0)
      tcp_clocks
      bytes_net
      (record dialled { wire = record dialled.wire { transaction_id = 8 } })
      (pack_mbap 7 1 (3 ∷ 0 ∷ 9 ∷ 0 ∷ 1 ∷ []))
      (transact (pos 0) tcp_clocks bytes_net 1 (3 ∷ 0 ∷ 9 ∷ 0 ∷ 1 ∷ []) dialled)
transact-Journaled_example =
    transact-Journaled (pos 0) tcp_clocks bytes_net 1 (3 ∷ 0 ∷ 9 ∷ 0 ∷ 1 ∷ []) dialled
      bytes_net-IsFull refl refl
