-- ===== src/Runtime/Start.antt =====
-- start, stop, poll_once, start_reactor, and the handler of writes from OPC UA.
use opc_server.Prelude.{
  ℕ, List, [], ◌∷◌, map, Option, none, some, true, false, String, if◌then◌else◌,
}
use opc_server.Prelude.Int.{ℤ, pos, ◌+ℤ◌}
use opc_server.Prelude.Eq.{string_eq}
use opc_server.Prelude.Map.{lookup, insert, emplace}
use opc_server.Prelude.Text.{concat}
use opc_server.Domain.{Result, Error, ErrorCode, QualityReason, value_or, make_error}
use opc_server.Project.{Endpoint}
use opc_server.Platform.{Floats}
use opc_server.Index.{find_by_id, TagBinding}
use opc_server.TagStore
use opc_server.TagStore.{TagStore}
use opc_server.Translator.Codec.{Scalar}
use opc_server.Dispatcher.State.{Env, State, bind_transport, join}
use opc_server.Dispatcher.Groups.{mark_endpoint_bad}
use opc_server.Dispatcher.Writes.{enqueue_write, flush_writes}
use opc_server.Dispatcher.Poll.{poll_due, first_error}
use opc_server.Runtime.Periods.{min_group_period_ms}
use opc_server.Runtime.{
  ServerRuntime, EndpointPollState, Facades, idle_state, at_least_zero, with_dispatcher, with_world,
}

abbrev pub runtime_error : ErrorCode → String → Error
runtime_error code message = make_error code message "app.runtime" false

module _ {fl : Floats} (env : Env fl) (facades : Facades env) where
  open env use {ports}

  -- A call of a facade that changes the world.
  abbrev pub calls : ServerRuntime env → (env.W → env.W) → ServerRuntime env
  calls s f = with_world s (f s.dispatcher.world)

  -- `for (auto& [id, transport] : transports_)`, on the transports that are not null.
  unfoldable pub each_transport : (ℕ → env.W → env.W) → List (String × Option ℕ) → env.W → env.W
  each_transport f [] w = w
  each_transport f ((_, none) ∷ m) w = each_transport f m w
  each_transport f ((_, some t) ∷ m) w = each_transport f m (f t w)

  abbrev pub unsubscribed : TagStore (Scalar fl) env.H → Option ℕ → TagStore (Scalar fl) env.H
  unsubscribed store none = store
  unsubscribed store (some id) = TagStore.unsubscribe store id

  -- Resetting the subscription, and giving up its place in the store if there is one.
  abbrev pub unsubscribe : ServerRuntime env → ServerRuntime env
  unsubscribe s = record s {
    dispatcher = record s.dispatcher { store = unsubscribed s.dispatcher.store s.historian_sub };
    historian_sub = none;
  }

  unfoldable pub stop : ServerRuntime env → ServerRuntime env
  stop s =
      let s1 = record s { reactor_running = false; timers = []; endpoint_poll_state = [] } in
      let s2 =
        calls s1 (each_transport (λ t. facades.set_completion_executor t false) s.transports) in
      let s3 = unsubscribe s2 in
      let s4 = calls s3 (λ w. if s.has_historian then (facades.flush w).1 else w) in
      let s5 = calls s4 (λ w. if s.has_opcua then facades.opcua_stop w else w) in
      let s6 = calls s5 (each_transport facades.close s.transports) in
      record s6 { transports = []; started = false }

  -- What start does with the result of connecting: a failure arms the reconnect time.
  unfoldable pub connected :
      ServerRuntime env → Endpoint → EndpointPollState → Result (Unit {0}) → ServerRuntime env
  connected s ep state (Result.ok _) = record s {
    endpoint_poll_state =
        insert ep.id (record state { next_reconnect_ms = pos 0 }) s.endpoint_poll_state;
  }
  connected s ep state (Result.err e) =
      let (now, w) = ports.now_ms s.dispatcher.world in
      let d =
        mark_endpoint_bad (record s.dispatcher { world = w }) ep.id QualityReason.no_communication
          now in
      let (later, w') = ports.now_ms d.world in
      record s {
        dispatcher = record d { world = w' };
        endpoint_poll_state =
            insert ep.id
              (record state { next_reconnect_ms = later +ℤ at_least_zero ep.reconnect_delay_ms })
              s.endpoint_poll_state;
      }

  -- The loop of start for one endpoint, on the factory's transport.
  unfoldable pub start_endpoint : ServerRuntime env → Endpoint → ℕ → ServerRuntime env
  start_endpoint s ep t =
      let (conn, w) =
        ports.connect t (record { host = ep.host; port = ep.port }) s.dispatcher.world in
      let state = value_or (lookup ep.id s.endpoint_poll_state) idle_state in
      let s1 = connected (with_world s w) ep state conn in
      record s1 {
        dispatcher = bind_transport s1.dispatcher ep.id (some t);
        transports = emplace ep.id (some t) s1.transports;
      }

  -- What start does with the factory's transport; `rest` is the loop's rounds for the endpoints
  -- that follow.
  unfoldable pub start_made :
      ServerRuntime env
      → Endpoint
      → Option ℕ
      → (ServerRuntime env → Result (Unit {0}) × ServerRuntime env)
      → Result (Unit {0}) × ServerRuntime env
  start_made s ep none rest = (
    Result.err
        (runtime_error ErrorCode.internal (concat "transport factory returned null for " ep.id)),
    stop s,
  )
  start_made s ep (some t) rest = rest (start_endpoint s ep t)

  unfoldable pub start_endpoints :
      List Endpoint → ServerRuntime env → Result (Unit {0}) × ServerRuntime env
  start_endpoints [] s = (Result.ok tt, s)
  start_endpoints (ep ∷ eps) s =
      let (made, w) = facades.transport_factory ep s.dispatcher.world in
      start_made (with_world s w) ep made (start_endpoints eps)

  -- A failure of the facade stops the runtime.
  unfoldable pub or_stop :
      Result (Unit {0}) × ServerRuntime env
      → (ServerRuntime env → Result (Unit {0}) × ServerRuntime env)
      → Result (Unit {0}) × ServerRuntime env
  or_stop (Result.err e, s) next = (Result.err e, stop s)
  or_stop (Result.ok _, s) next = next s

  abbrev pub asks :
      ServerRuntime env → Result (Unit {0}) × env.W → Result (Unit {0}) × ServerRuntime env
  asks s (r, w) = (r, with_world s w)

  -- The facade is started, and then given every tag of the index.
  unfoldable pub start_opcua :
      ServerRuntime env
      → (ServerRuntime env → Result (Unit {0}) × ServerRuntime env)
      → Result (Unit {0}) × ServerRuntime env
  start_opcua s next =
      let s1 = record s { handles_writes = true } in
      or_stop (asks s1 (facades.opcua_start s1.dispatcher.index.project s1.dispatcher.world)) (λ s2.
        or_stop
          (asks s2 (
            facades.opcua_bind_tags s2.dispatcher.store s2.dispatcher.index.tags
              s2.dispatcher.world))
          next)

  abbrev pub watched : ServerRuntime env → Option ℕ → ServerRuntime env
  watched s (some id) = s
  watched s none =
      let (id, store) = TagStore.subscribe s.dispatcher.store facades.record_sample in
      record s { dispatcher = record s.dispatcher { store = store }; historian_sub = some id }

  -- The end of start: the historian subscribes, once.
  unfoldable pub finish_start : ServerRuntime env → Result (Unit {0}) × ServerRuntime env
  finish_start s =
      let s' = if s.has_historian then watched s s.historian_sub else s in
      (Result.ok tt, record s' { started = true })

  abbrev pub after_endpoints :
      Result (Unit {0}) × ServerRuntime env → Result (Unit {0}) × ServerRuntime env
  after_endpoints (Result.err e, s) = (Result.err e, s)
  after_endpoints (Result.ok _, s) =
      if s.has_opcua then start_opcua s finish_start else finish_start s

  unfoldable pub start : ServerRuntime env → Result (Unit {0}) × ServerRuntime env
  start s =
      if s.started
      then (Result.ok tt, s)
      else after_endpoints (start_endpoints s.dispatcher.index.project.endpoints s)

  -- The loop of poll_once: every endpoint is polled, whatever the others' results.
  unfoldable pub poll_endpoints : List Endpoint → State env → ℤ → Result (Unit {0}) × State env
  poll_endpoints [] d now = (Result.ok tt, d)
  poll_endpoints (ep ∷ eps) d now =
      let (r, d1) = poll_due env d ep.id now in
      let (r', d2) = poll_endpoints eps d1 now in (first_error r r', d2)

  unfoldable pub poll_started : ServerRuntime env → ℤ → Result (Unit {0}) × ServerRuntime env
  poll_started s now =
      let (r, d) = poll_endpoints s.dispatcher.index.project.endpoints s.dispatcher now in
      let s1 = with_dispatcher s d in
      let s2 = calls s1 (λ w. if s.has_opcua then facades.opcua_iterate w else w) in
      let s3 = calls s2 (λ w. if s.has_historian then (facades.flush w).1 else w) in (r, s3)

  abbrev pub if_started :
      Result (Unit {0}) × ServerRuntime env
      → (ServerRuntime env → Result (Unit {0}) × ServerRuntime env)
      → Result (Unit {0}) × ServerRuntime env
  if_started (Result.err e, s) next = (Result.err e, s)
  if_started (Result.ok _, s) next = next s

  unfoldable pub poll_once : ServerRuntime env → ℤ → Result (Unit {0}) × ServerRuntime env
  poll_once s now = if_started (start s) (λ s'. poll_started s' now)

  -- The handler that install_write_handler gives the facade. The flush is posted to the endpoint's
  -- strand; here it runs at once.
  unfoldable pub handle_write :
      ServerRuntime env → ℕ → Scalar fl → Result (Unit {0}) × ServerRuntime env
  handle_write s id value =
      let (queued, d) = enqueue_write env s.dispatcher id value in
      (queued, with_dispatcher s (flushed d queued (find_by_id s.dispatcher.index id)))
    where
      flushed : State env → Result (Unit {0}) → Option (TagBinding fl.F64) → State env
      flushed d (Result.err e) binding = d
      flushed d (Result.ok _) none = d
      flushed d (Result.ok _) (some b) =
          if s.reactor_running then (flush_writes env d b.endpoint_id).1 else d

  -- The first loop of start_reactor: a poll state and an executor for each endpoint.
  unfoldable pub prepare : List Endpoint → ServerRuntime env → ServerRuntime env
  prepare [] s = s
  prepare (ep ∷ eps) s =
      prepare eps
        (record (calls s (
          each_transport (λ t. facades.set_completion_executor t true)
            ((ep.id, join (lookup ep.id s.transports)) ∷ []))) {
              endpoint_poll_state = emplace ep.id idle_state s.endpoint_poll_state;
            })

  abbrev pub timers_of : ServerRuntime env → List Endpoint → List (String × ℤ)
  timers_of s eps = map (λ ep. (ep.id, min_group_period_ms s.dispatcher.index ep.id)) eps

  unfoldable pub start_reactor : ServerRuntime env → Result (Unit {0}) × ServerRuntime env
  start_reactor s = if_started (start s) (λ s'.
      let eps = s'.dispatcher.index.project.endpoints in
      let prepared = prepare eps s' in
      if s'.reactor_running then (Result.ok tt, s') else (
        Result.ok tt,
        record prepared { reactor_running = true; timers = timers_of prepared eps },
      ))
