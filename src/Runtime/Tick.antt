-- ===== src/Runtime/Tick.antt =====
-- tick_endpoint, and the completion of the poll that it launches, as steps of their own: others, ticks
-- of the same endpoint too, may come between them. What the poll itself does is one step with its completion.
use opc_server.Prelude.{
  ℕ, List, [], ◌∷◌, Option, none, some, Bool, true, false, not, ◌&&◌, String, if◌then◌else◌,
}
use opc_server.Prelude.Int.{ℤ, pos, ◌+ℤ◌, ltb_ℤ}
use opc_server.Prelude.Eq.{string_eq}
use opc_server.Prelude.Map.{lookup, insert, erase}
use opc_server.Domain.{Result, ErrorCode, QualityReason, is_zero}
use opc_server.Project.{Endpoint}
use opc_server.Platform.{Floats}
use opc_server.Index.{endpoint}
use opc_server.Dispatcher.State.{Env, MetricEvent, emit, join}
use opc_server.Dispatcher.Groups.{mark_endpoint_bad}
use opc_server.Dispatcher.Poll.{poll_due_async}
use opc_server.Runtime.{
  ServerRuntime, EndpointPollState, Facades, at_least_zero, with_dispatcher, with_world,
}

abbrev pub delay_of : Option Endpoint → ℤ
delay_of none = pos 2000
delay_of (some ep) = at_least_zero ep.reconnect_delay_ms

-- A poll that failed because the connection is lost.
abbrev pub is_connection : Result (Unit {0}) → Bool
is_connection (Result.ok _) = false
is_connection (Result.err e) = at_code e.code
  where
    at_code : ErrorCode → Bool
    at_code ErrorCode.connection = true
    at_code _ = false

-- What the poll that a tick launched was given: the time, and the delay that its completion captures.
pub record Launched : Type 0 where
  pub now : ℤ
  pub delay : ℤ

-- What the reactor's threads do, one at a time.
pub data Event : Type 0 where
  tick_of poll_of : String → Event

-- The polls that are launched and not completed, by their endpoint.
pub record Reactor {fl : Floats} (env : Env fl) : Type 0 where
  pub runtime : ServerRuntime env
  pub pending : List (String × Launched)

module _ {fl : Floats} (env : Env fl) (facades : Facades env) where
  open env use {ports}

  -- `state.inflight.store(b)` and `state.next_reconnect_ms.store(t)`.
  abbrev pub set_state : ServerRuntime env → String → EndpointPollState → ServerRuntime env
  set_state s id state = record s { endpoint_poll_state = insert id state s.endpoint_poll_state }

  unfoldable pub flush_historian : ServerRuntime env → ServerRuntime env
  flush_historian s =
      if s.has_historian then with_world s ((facades.flush s.dispatcher.world).1) else s

  -- The endpoint's tags are marked bad and a reconnect is due after the delay.
  unfoldable pub back_off :
      ServerRuntime env → String → EndpointPollState → ℤ → ℤ → ServerRuntime env
  back_off s id state now delay =
      set_state
        (with_dispatcher s (mark_endpoint_bad s.dispatcher id QualityReason.no_communication now))
        id (record state { inflight = false; next_reconnect_ms = now +ℤ delay })

  -- The completion's first test: whether the transport is connected after the poll.
  unfoldable pub note_link :
      ServerRuntime env → String → EndpointPollState → ℕ → ℤ → ℤ → ServerRuntime env
  note_link s id state t now delay =
      if not (ports.is_connected t s.dispatcher.world)
      then back_off s id state now delay
      else set_state s id (record state { inflight = false; next_reconnect_ms = pos 0 })

  -- Its second: a lost connection closes the transport.
  unfoldable pub note_error :
      ServerRuntime env
      → String
      → EndpointPollState
      → ℕ
      → ℤ
      → ℤ
      → Result (Unit {0})
      → ServerRuntime env
  note_error s id state t now delay r =
      if is_connection r
      then back_off (with_world s (facades.close t s.dispatcher.world)) id state now delay
      else s

  -- The completion, from the read of the clock on.
  unfoldable pub complete :
      ServerRuntime env → String → EndpointPollState → ℕ → ℤ → Result (Unit {0}) → ServerRuntime env
  complete s id state t delay r =
      let (now, w) = ports.now_ms s.dispatcher.world in
      let linked = note_link (with_world s w) id state t now delay in
      flush_historian (note_error linked id state t now delay r)

  -- Whether a reconnect is not due yet.
  abbrev pub is_backing_off : ServerRuntime env → EndpointPollState → ℕ → ℤ → Bool
  is_backing_off s state t now =
      not (ports.is_connected t s.dispatcher.world)
      && (not (is_zero state.next_reconnect_ms) && ltb_ℤ now state.next_reconnect_ms)

  -- From the exchange of `inflight` on, where it was false.
  unfoldable pub tick_free :
      ServerRuntime env → String → EndpointPollState → ℕ → ServerRuntime env × Option Launched
  tick_free s id state t =
      let (now, w) = ports.now_ms s.dispatcher.world in
      let timed = with_world s w in
      let delay = delay_of (endpoint s.dispatcher.index id) in
      if is_backing_off timed state t now
      then (set_state timed id (record state { inflight = false }), none)
      else (
        set_state timed id (record state { inflight = true }),
        some (record { now = now; delay = delay }),
      )

  unfoldable pub tick :
      ServerRuntime env → String → EndpointPollState → ℕ → ServerRuntime env × Option Launched
  tick s id state t =
      if state.inflight
      then (
        with_dispatcher s (emit s.dispatcher (MetricEvent.counter_add "modbus_poll_overruns")),
        none,
      )
      else tick_free s id state t

  abbrev pub tick_known :
      ServerRuntime env
      → String
      → Option ℕ
      → Option EndpointPollState
      → ServerRuntime env × Option Launched
  tick_known s id none state = (s, none)
  tick_known s id (some t) none = (s, none)
  tick_known s id (some t) (some state) = tick s id state t

  -- Up to the call of poll_due_async: the poll that is launched, if one is.
  unfoldable pub tick_endpoint : ServerRuntime env → String → ServerRuntime env × Option Launched
  tick_endpoint s id =
      tick_known s id (join (lookup id s.transports)) (lookup id s.endpoint_poll_state)

  -- The completion, on what it finds of the endpoint. It holds a reference to the poll state, which is
  -- there for as long as the reactor runs.
  abbrev pub complete_known :
      ServerRuntime env
      → String
      → ℤ
      → Result (Unit {0})
      → Option ℕ
      → Option EndpointPollState
      → ServerRuntime env
  complete_known s id delay r t none = s
  complete_known s id delay r none (some state) = set_state s id (record state { inflight = false })
  complete_known s id delay r (some t) (some state) = complete s id state t delay r

  -- A launched poll and its completion. Between the launch and this step there may be others.
  unfoldable pub finish_poll : ServerRuntime env → String → Launched → ServerRuntime env
  finish_poll s id launched =
      let (r, d) = poll_due_async env s.dispatcher id launched.now in
      complete_known (with_dispatcher s d) id launched.delay r (join (lookup id s.transports))
        (lookup id s.endpoint_poll_state)

  abbrev pub launch : List (String × Launched) → String → Option Launched → List (String × Launched)
  launch pending id none = pending
  launch pending id (some launched) = insert id launched pending

  abbrev pub complete_pending : Reactor env → String → Option Launched → Reactor env
  complete_pending r id none = r
  complete_pending r id (some launched) = record {
    runtime = finish_poll r.runtime id launched;
    pending = erase id r.pending;
  }

  -- A timer of an endpoint, or the completion of its poll if one is launched.
  unfoldable pub step : Event → Reactor env → Reactor env
  step (tick_of id) r =
      let (s, launched) = tick_endpoint r.runtime id in
      record { runtime = s; pending = launch r.pending id launched }
  step (poll_of id) r = complete_pending r id (lookup id r.pending)

  unfoldable pub run : List Event → Reactor env → Reactor env
  run [] r = r
  run (event ∷ events) r = run events (step event r)
