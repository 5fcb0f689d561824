-- ===== src/Runtime/TickLaws.antt =====
-- What a tick launches, and what the completion of a poll leaves.
use opc_server.Prelude.{
  ℕ, ◌≡◌, ◌≢◌, ◌⊎◌, Option, some, none, true, false, String, Bool, if◌then◌else◌, refl, subst, ap,
  sym, ◌∙◌, arith, Bool-cases, inl, inr,
}
use opc_server.Prelude.Int.{ℤ, pos, ◌+ℤ◌, ltb_ℤ}
use opc_server.Prelude.Eq.{string_eq}
use opc_server.Prelude.Map.{lookup}
use opc_server.Domain.{Result, Error, ErrorCode, is_zero}
use opc_server.Project.{Endpoint}
use opc_server.Platform.{Floats}
use opc_server.Index.{endpoint}
use opc_server.Dispatcher.State.{Env, MetricEvent, emit}
use opc_server.Dispatcher.Poll.{poll_due_async}
use opc_server.Runtime.{ServerRuntime, EndpointPollState, Facades, with_world, with_dispatcher}
use opc_server.Runtime.Tick.{
  tick_endpoint, tick, tick_free, finish_poll, Launched, complete, is_backing_off, is_connection,
  delay_of, set_state,
}
use opc_server.Runtime.CompleteLaws.{
  Replaces, released, set_state-Replaces, next_reconnect, complete-Replaces, Keeps, complete-Keeps,
  complete-store,
}

module _ {fl : Floats} (env : Env fl) (facades : Facades env) where
  open env use {ports}

  -- A result that tells of a lost connection.
  abbrev pub LosesLink : Result (Unit {0}) → Type 0
  LosesLink r = (e : Error) × (r ≡ Result.err e) × (e.code ≡ ErrorCode.connection)

  is_connection-code :
      (e : Error) (c : ErrorCode)
      → c ≢ ErrorCode.connection
      → is_connection (Result.err (record e { code = c })) ≡ false
  is_connection-code e ErrorCode.ok other = refl
  is_connection-code e ErrorCode.invalid_argument other = refl
  is_connection-code e ErrorCode.not_found other = refl
  is_connection-code e ErrorCode.timeout other = refl
  is_connection-code e ErrorCode.connection other = absurd (other refl)
  is_connection-code e ErrorCode.modbus_exception other = refl
  is_connection-code e ErrorCode.decoding other = refl
  is_connection-code e ErrorCode.queue_full other = refl
  is_connection-code e ErrorCode.permission other = refl
  is_connection-code e ErrorCode.internal other = refl
  is_connection-code e ErrorCode.not_implemented other = refl

  is_connection-LosesLink : (r : Result (Unit {0})) → LosesLink r → is_connection r ≡ true
  is_connection-LosesLink r (e, at, code) =
      ap is_connection at ∙ ap (λ c. is_connection (Result.err (record e { code = c }))) code

  is_connection-kept : (r : Result (Unit {0})) → ¬ (LosesLink r) → is_connection r ≡ false
  is_connection-kept (Result.ok _) h = refl
  is_connection-kept (Result.err e) h = is_connection-code e e.code (λ code. h (e, refl, code))

  next_reconnect-lost :
      (t : ℕ) (delay : ℤ) (r : Result (Unit {0})) (now : ℤ) (w : env.W)
      → LosesLink r ⊎ (ports.is_connected t w ≡ false)
      → next_reconnect env facades t delay r (now, w) ≡ now +ℤ delay
  next_reconnect-lost t delay r now w (inl h) = rw (is_connection-LosesLink r h) refl
  next_reconnect-lost t delay r now w (inr h) = elim (Bool-cases (is_connection r)) [
    | inl e ↦ rw e refl
    | inr e ↦ rw (e, h) refl
  ]

  finish_poll-complete :
      (s : ServerRuntime env) (id : String) (launched : Launched) (t : ℕ)
      (state : EndpointPollState)
      → lookup id s.transports ≡ some (some t)
      → lookup id s.endpoint_poll_state ≡ some state
      → finish_poll env facades s id launched
        ≡ complete env facades
            (with_dispatcher s (poll_due_async env s.dispatcher id launched.now).1)
            id
            state
            t
            launched.delay
            (poll_due_async env s.dispatcher id launched.now).0
  unfolding finish_poll
  finish_poll-complete s id launched t state bound known = rw (bound, known) refl

  pub finish_poll-Replaces :
      (s : ServerRuntime env) (id : String) (launched : Launched) (t : ℕ)
      (state : EndpointPollState)
      → lookup id s.transports ≡ some (some t)
      → lookup id s.endpoint_poll_state ≡ some state
      → let (r, d) = poll_due_async env s.dispatcher id launched.now in
        Replaces env facades id
          (released env facades
            (next_reconnect env facades t launched.delay r (ports.now_ms d.world)))
          s
          (finish_poll env facades s id launched)
  finish_poll-Replaces s id launched t state bound known =
      let (r, d) = poll_due_async env s.dispatcher id launched.now in
      subst
        (Replaces env facades id
          (released env facades
            (next_reconnect env facades t launched.delay r (ports.now_ms d.world)))
          s)
        (sym (finish_poll-complete s id launched t state bound known))
        (complete-Replaces env facades (with_dispatcher s d) id state t launched.delay r)

  -- A launched poll of an endpoint with a transport and a poll state leaves the transports, and of
  -- what poll_due_async leaves at the launch's time, the queues of writes and the times of polls. The
  -- endpoint is not in flight, and no other endpoint's poll state changes. If the poll lost the
  -- connection or the transport is not connected after it, the endpoint's reconnect time is the delay
  -- from then on; otherwise it has none, and the values and metrics are those that the poll left.
  pub finish_poll_lem :
      (s : ServerRuntime env) (id : String) (launched : Launched) (t : ℕ)
      (state : EndpointPollState)
      → lookup id s.transports ≡ some (some t)
      → lookup id s.endpoint_poll_state ≡ some state
      → let (r, d) = poll_due_async env s.dispatcher id launched.now in
        let (now, w) = ports.now_ms d.world in
        let s' = finish_poll env facades s id launched in
        Keeps env facades (with_dispatcher s d) s'
        × (LosesLink r ⊎ (ports.is_connected t w ≡ false)
            → Replaces env facades id (released env facades (now +ℤ launched.delay)) s s')
        × (¬ (LosesLink r)
            → ports.is_connected t w ≡ true
            → Replaces env facades id (released env facades (pos 0)) s s'
              × (s'.dispatcher.store ≡ d.store)
              × (s'.dispatcher.metrics ≡ d.metrics))
  finish_poll_lem s id launched t state bound known =
      let (r, d) = poll_due_async env s.dispatcher id launched.now in
      let (now, w) = ports.now_ms d.world in
      let done = finish_poll-complete s id launched t state bound known in
      let states = finish_poll-Replaces s id launched t state bound known in
      (
        subst (Keeps env facades (with_dispatcher s d)) (sym done)
            (complete-Keeps env facades (with_dispatcher s d) id state t launched.delay r),
        (λ lost.
            subst
              (λ next.
                Replaces env facades id (released env facades next) s
                  (finish_poll env facades s id launched))
              (next_reconnect-lost t launched.delay r now w lost) states),
        (λ whole alive.
            let kept = is_connection-kept r whole in
            let (store, metrics) =
              complete-store env facades (with_dispatcher s d) id state t launched.delay r alive
                kept in
            (
              subst
                  (λ next.
                    Replaces env facades id (released env facades next) s
                      (finish_poll env facades s id launched))
                  (rw (kept, alive) refl) states,
              ap (λ after. after.dispatcher.store) done ∙ store,
              ap (λ after. after.dispatcher.metrics) done ∙ metrics,
            )),
      )

  pub tick_endpoint-tick :
      (s : ServerRuntime env) (id : String) (t : ℕ) (state : EndpointPollState)
      → lookup id s.transports ≡ some (some t)
      → lookup id s.endpoint_poll_state ≡ some state
      → tick_endpoint env facades s id ≡ tick env facades s id state t
  unfolding tick_endpoint
  tick_endpoint-tick s id t state bound known = rw (bound, known) refl

  abbrev pub counted : ServerRuntime env → ServerRuntime env
  counted s = with_dispatcher s (emit s.dispatcher (MetricEvent.counter_add "modbus_poll_overruns"))

  pub tick-tick_free :
      (s : ServerRuntime env) (id : String) (t : ℕ) (state : EndpointPollState) (b : Bool)
      → state.inflight ≡ b
      → tick env facades s id state t
        ≡ (if b then (counted s, none) else tick_free env facades s id state t)
  unfolding tick
  tick-tick_free s id t state b h =
      ap (λ x. if x then (counted s, none) else tick_free env facades s id state t) h

  -- The delay before an endpoint is connected again.
  abbrev pub IsDelay : Option Endpoint → ℤ → Type 0
  IsDelay none delay = delay ≡ pos 2000
  IsDelay (some ep) delay =
      delay ≡ (if ltb_ℤ ep.reconnect_delay_ms (pos 0) then pos 0 else ep.reconnect_delay_ms)

  IsDelay-delay_of : (ep : Option Endpoint) → IsDelay ep (delay_of ep)
  IsDelay-delay_of none = refl
  IsDelay-delay_of (some ep) = refl

  -- Whether the transport is connected at the time of a tick, or no reconnect time is to come.
  abbrev pub MayPoll : EndpointPollState → ℕ → ℤ × env.W → Type 0
  MayPoll state t (now, w) =
      (ports.is_connected t w ≡ true)
      ⊎ ((is_zero state.next_reconnect_ms ≡ true) ⊎ (ltb_ℤ now state.next_reconnect_ms ≡ false))

  is_backing_off-MayPoll :
      (s : ServerRuntime env) (state : EndpointPollState) (t : ℕ) (now : ℤ)
      → MayPoll state t (now, s.dispatcher.world)
      → is_backing_off env facades s state t now ≡ false
  is_backing_off-MayPoll s state t now (inl h) = rw h refl
  is_backing_off-MayPoll s state t now (inr h) = ground (arith, h)

  -- A tick of an endpoint with a transport and a poll state: in flight, it launches nothing and is
  -- counted, and that is all; not in flight, with a transport that is not connected and a reconnect
  -- time that is still to come, it launches nothing; and otherwise it launches a poll at the clock's
  -- time with the endpoint's delay, and the endpoint is in flight. The last two read the clock, keep
  -- the reconnect time and change nothing else of the dispatcher and of the poll states.
  pub tick_endpoint_lem :
      (s : ServerRuntime env) (id : String) (t : ℕ) (state : EndpointPollState)
      → lookup id s.transports ≡ some (some t)
      → lookup id s.endpoint_poll_state ≡ some state
      → let (now, w) = ports.now_ms s.dispatcher.world in
        let (s', launched) = tick_endpoint env facades s id in
        (state.inflight ≡ true → (launched ≡ none) × (s' ≡ counted s))
        × (state.inflight ≡ false
            → ports.is_connected t w ≡ false
            → is_zero state.next_reconnect_ms ≡ false
            → ltb_ℤ now state.next_reconnect_ms ≡ true
            → (launched ≡ none)
              × (s'.dispatcher ≡ record s.dispatcher { world = w })
              × (s'.transports ≡ s.transports)
              × Replaces env facades id (released env facades state.next_reconnect_ms) s s')
        × (state.inflight ≡ false
            → MayPoll state t (now, w)
            → ((delay : ℤ) × (launched ≡ some (record { now = now; delay = delay }))
                × IsDelay (endpoint s.dispatcher.index id) delay)
              × (s'.dispatcher ≡ record s.dispatcher { world = w })
              × (s'.transports ≡ s.transports)
              × Replaces env facades id
                  (record { inflight = true; next_reconnect_ms = state.next_reconnect_ms })
                  s
                  s')
  unfolding tick_free
  tick_endpoint_lem s id t state bound known =
      let (now, w) = ports.now_ms s.dispatcher.world in
      let timed = with_world s w in
      let at = tick_endpoint-tick s id t state bound known in
      let free : state.inflight ≡ false
          → tick_endpoint env facades s id ≡ tick_free env facades s id state t =
        λ h. at ∙ tick-tick_free s id t state false h in
      let delay = delay_of (endpoint s.dispatcher.index id) in
      let busy_state : EndpointPollState = record {
        inflight = true;
        next_reconnect_ms = state.next_reconnect_ms;
      } in
      let poll : ServerRuntime env × Option Launched =
        (set_state env facades timed id busy_state, some (record { now = now; delay = delay })) in
      let idle : ServerRuntime env × Option Launched =
        (set_state env facades timed id (released env facades state.next_reconnect_ms), none) in
      let backed_off : is_backing_off env facades timed state t now ≡ true
          → tick_free env facades s id state t ≡ idle =
        λ e. ap (λ b. if b then idle else poll) e in
      let launches : is_backing_off env facades timed state t now ≡ false
          → tick_free env facades s id state t ≡ poll =
        λ e. ap (λ b. if b then idle else poll) e in
      (
        (λ busy.
            let over = at ∙ tick-tick_free s id t state true busy in
            (ap (λ out. out.1) over, ap (λ out. out.0) over)),
        (λ h off armed early.
            let waits : is_backing_off env facades timed state t now ≡ true =
              rw (off, armed, early) refl in
            subst
              (λ out.
                (out.1 ≡ none)
                × (out.0.dispatcher ≡ record s.dispatcher { world = w })
                × (out.0.transports ≡ s.transports)
                × Replaces env facades id (released env facades state.next_reconnect_ms) s out.0)
              (sym (free h ∙ backed_off waits))
              (
                refl,
                refl,
                refl,
                set_state-Replaces env facades timed id
                    (released env facades state.next_reconnect_ms),
              )),
        (λ h may.
            let comes = is_backing_off-MayPoll timed state t now may in
            subst
              (λ out.
                ((delay : ℤ) × (out.1 ≡ some (record { now = now; delay = delay }))
                  × IsDelay (endpoint s.dispatcher.index id) delay)
                × (out.0.dispatcher ≡ record s.dispatcher { world = w })
                × (out.0.transports ≡ s.transports)
                × Replaces env facades id busy_state s out.0)
              (sym (free h ∙ launches comes))
              (
                (delay, refl, IsDelay-delay_of (endpoint s.dispatcher.index id)),
                refl,
                refl,
                set_state-Replaces env facades timed id busy_state,
              )),
      )
