-- ===== src/Runtime.antt =====
-- Src/app/server_runtime.cpp: the composition of the dispatcher with its transports, the historian and
-- the OPC UA facade. The ports' calls are parameters over the dispatcher's world. Logs and the
-- tracer only report and are left out; the reactor's threads are not modelled: it is whether it
-- runs, and what it does is a list of events (Tick), the ticks of its timers and the completions of polls.
pub mod Start
pub mod Tick
pub mod Periods
pub mod CompleteLaws
pub mod TickLaws
pub mod StartLaws
pub mod Wired
pub mod WiredEndpoint
pub mod WiredStart
mod Tests
use opc_server.Prelude.{
  ℕ, List, [], ◌∷◌, Option, none, some, Bool, true, false, String, if◌then◌else◌,
}
use opc_server.Prelude.Int.{ℤ, pos, ltb_ℤ}
use opc_server.Domain.{Result}
use opc_server.Project.{Project, Endpoint}
use opc_server.Platform.{Floats}
use opc_server.Index.{TagBinding}
use opc_server.TagStore.{TagStore}
use opc_server.Translator.Codec.{Scalar}
use opc_server.Dispatcher.State.{Env, State}

-- 0 is no reconnect backoff.
pub record EndpointPollState : Type 0 where
  pub inflight : Bool
  pub next_reconnect_ms : ℤ

-- What the runtime calls beside the dispatcher's ports: the transport factory, the transports'
-- close and set_completion_executor, IHistorian::flush and IOpcUaFacade. `record_sample` is the
-- handler that the historian subscribes.
pub record Facades {fl : Floats} (env : Env fl) : Type 0 where
  pub transport_factory : Endpoint → env.W → Option ℕ × env.W
  pub close : ℕ → env.W → env.W
  pub set_completion_executor : ℕ → Bool → env.W → env.W
  pub record_sample : env.H
  pub flush : env.W → Result (Unit {0}) × env.W
  pub opcua_start : Project fl.F64 → env.W → Result (Unit {0}) × env.W
  pub opcua_bind_tags :
      TagStore (Scalar fl) env.H → List (TagBinding fl.F64) → env.W → Result (Unit {0}) × env.W
  pub opcua_iterate : env.W → env.W
  pub opcua_stop : env.W → env.W

-- The project is the dispatcher's index's, which was built of it. A transport is a number, its
-- pointer; `handles_writes` is whether install_write_handler was called. `timers` are the reactor's:
-- an endpoint and the period of its tick.
pub record ServerRuntime {fl : Floats} (env : Env fl) : Type 0 where
  pub dispatcher : State env
  pub has_historian : Bool
  pub has_opcua : Bool
  pub handles_writes : Bool
  pub reactor_running : Bool
  pub timers : List (String × ℤ)
  pub transports : List (String × Option ℕ)
  pub endpoint_poll_state : List (String × EndpointPollState)
  pub historian_sub : Option ℕ
  pub started : Bool

abbrev pub idle_state : EndpointPollState
idle_state = record { inflight = false; next_reconnect_ms = pos 0 }

-- std::max(0, n)
abbrev pub at_least_zero : ℤ → ℤ
at_least_zero n = if ltb_ℤ n (pos 0) then pos 0 else n

module _ {fl : Floats} {env : Env fl} where
  abbrev pub with_dispatcher : ServerRuntime env → State env → ServerRuntime env
  with_dispatcher s d = record s { dispatcher = d }

  abbrev pub with_world : ServerRuntime env → env.W → ServerRuntime env
  with_world s w = record s { dispatcher = record s.dispatcher { world = w } }
