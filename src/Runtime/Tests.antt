-- ===== src/Runtime/Tests.antt =====
-- The runtime's theorems at the sample plant, whose transport does not connect and whose clock stands.
use opc_server.Prelude.{
  String, suc, max, ◌<◌, arith, ℕ, List, ◌⊎◌, ◌≡◌, [], ◌∷◌, some, none, true, false, refl, All,
}
use opc_server.Prelude.Int.{ℤ, pos, ◌+ℤ◌}
use opc_server.Prelude.Eq.{string_eq}
use opc_server.Prelude.Map.{lookup}
use opc_server.Domain.{Result, ErrorCode}
use opc_server.Samples
use opc_server.Samples.{bench, plant_index, line}
use opc_server.Runtime.{ServerRuntime, EndpointPollState, Facades, idle_state, with_dispatcher}
use opc_server.Runtime.Start.{
  start, start_endpoints, start_made, start_endpoint, connected, start_opcua, or_stop, finish_start,
  runtime_error,
}
use opc_server.Runtime.StartLaws.{IsStopped, IsBound, AreNew, start-IsStopped}
use opc_server.Runtime.Tick.{Event, tick_of, poll_of, Launched, run, finish_poll}
use opc_server.Runtime.TickLaws.{LosesLink, finish_poll_lem}
use opc_server.Runtime.CompleteLaws.{released, Keeps, Replaces}
use opc_server.Runtime.Wired.{IsLive}
use opc_server.Dispatcher.State.{State}
use opc_server.Dispatcher.Poll.{poll_due_async}
use opc_server.Runtime.WiredStart.{resting, run-start}

-- Facades that succeed and leave the world as it is; the factory gives transport 7.
abbrev desk : Facades bench
desk = record {
  transport_factory = λ ep w. (some 7, w);
  close = λ t w. w;
  set_completion_executor = λ t b w. w;
  record_sample = 77;
  flush = λ w. (Result.ok tt, w);
  opcua_start = λ project w. (Result.ok tt, w);
  opcua_bind_tags = λ store tags w. (Result.ok tt, w);
  opcua_iterate = λ w. w;
  opcua_stop = λ w. w;
}

abbrev fresh : ServerRuntime bench
fresh = record {
  dispatcher = Samples.started;
  has_historian = true;
  has_opcua = true;
  handles_writes = false;
  reactor_running = false;
  timers = [];
  transports = [];
  endpoint_poll_state = [];
  historian_sub = none;
  started = false;
}

-- The plant's runtime with its endpoint in a poll state.
abbrev with_state : EndpointPollState → ServerRuntime bench
with_state state = record fresh {
  transports = ("line", some 7) ∷ [];
  endpoint_poll_state = ("line", state) ∷ [];
  started = true;
}

abbrev due_at : ℕ → EndpointPollState
due_at n = record { inflight = false; next_reconnect_ms = pos n }

-- The facade refuses to start, and the world is more than the number of every transport that is
-- closed.
abbrev refusing : Facades bench
refusing = record desk {
  close = λ t w. max w (suc t);
  opcua_start = λ project w. (Result.err (runtime_error ErrorCode.internal "port in use"), w);
}

abbrev unbound : ServerRuntime bench
unbound = record fresh { dispatcher = record Samples.started { transports = [] } }

is_closed : (t w : ℕ) → t < max w (suc t)
is_closed t w = omega arith

stays_closed : (t u w : ℕ) → t < w → t < max w (suc u)
stays_closed t u w h = omega (arith, h)

unbound-IsBound : IsBound bench refusing unbound
unfolding lookup
unbound-IsBound id t e = absurd (cc e)

line_is_new : AreNew bench refusing (line ∷ []) []
unfolding lookup
line_is_new = (refl, tt, tt)

start_refused : start bench refusing unbound ≡ (
  Result.err (runtime_error ErrorCode.internal "port in use"),
  (start bench refusing unbound).1,
)
unfolding start start_endpoints start_made start_endpoint connected start_opcua or_stop finish_start
start_refused = refl

start-IsStopped_example :
    IsStopped (start bench refusing unbound).1
    × ((id : String) (t : ℕ)
        → lookup id (start bench refusing unbound).1.dispatcher.transports ≡ some (some t)
        → t < (start bench refusing unbound).1.dispatcher.world)
start-IsStopped_example =
    start-IsStopped bench refusing (λ t w. t < w) is_closed stays_closed unbound
      ((start bench refusing unbound).1) (runtime_error ErrorCode.internal "port in use")
      unbound-IsBound line_is_new start_refused

fresh_starts : start bench desk fresh ≡ (Result.ok tt, (start bench desk fresh).1)
unfolding start start_endpoints start_made start_endpoint connected start_opcua or_stop finish_start
fresh_starts = refl

-- Two ticks before the first poll completes, and one after.
abbrev events : List Event
events = tick_of "line" ∷ tick_of "line" ∷ poll_of "line" ∷ tick_of "line" ∷ []

run-start_example :
    All
      (λ ep. IsLive (run bench desk events (resting bench desk (start bench desk fresh).1)) ep.id)
      (line ∷ [])
run-start_example =
    run-start bench desk fresh ((start bench desk fresh).1) events refl refl refl fresh_starts

abbrev launched : Launched
launched = record { now = pos 43200000; delay = pos 2000 }

abbrev due : Result (Unit {0}) × State bench
due = poll_due_async bench (with_state idle_state).dispatcher "line" (pos 43200000)

abbrev later : ℤ × ℕ
later = bench.ports.now_ms due.1.world

abbrev after : ServerRuntime bench
after = finish_poll bench desk (with_state idle_state) "line" launched

finish_poll_lem_example :
    Keeps bench desk (with_dispatcher (with_state idle_state) due.1) after
    × (LosesLink bench desk due.0 ⊎ (bench.ports.is_connected 7 later.1 ≡ false)
        → Replaces bench desk "line"
            (released bench desk (later.0 +ℤ pos 2000))
            (with_state idle_state)
            after)
    × (¬ (LosesLink bench desk due.0)
        → bench.ports.is_connected 7 later.1 ≡ true
        → Replaces bench desk "line" (released bench desk (pos 0)) (with_state idle_state) after
          × (after.dispatcher.store ≡ due.1.store)
          × (after.dispatcher.metrics ≡ due.1.metrics))
unfolding lookup
finish_poll_lem_example =
    finish_poll_lem bench desk (with_state idle_state) "line" launched 7 idle_state refl refl
