-- ===== src/Runtime/Wired.antt =====
-- What an endpoint needs for its next tick, and that the reactor's steps keep it.
use opc_server.Prelude.{
  ℕ, List, [], ◌∷◌, ◌≡◌, Option, none, some, true, false, Bool, if◌then◌else◌, String, refl, sym,
  subst, ap, ◌∙◌, Bool-cases, inl, inr,
}
use opc_server.Prelude.Int.{ℤ}
use opc_server.Prelude.Eq.{◌=?◌, string_eq}
use opc_server.Prelude.Map.{lookup, lookup-insert, lookup-erase}
use opc_server.Domain.{Result}
use opc_server.Platform.{Floats}
use opc_server.Dispatcher.State.{Env, join}
use opc_server.Dispatcher.Poll.{poll_due_async}
use opc_server.Runtime.{ServerRuntime, EndpointPollState, Facades, with_world, with_dispatcher}
use opc_server.Runtime.Tick.{
  Launched, Reactor, Event, tick_of, poll_of, step, run, launch, complete_pending, complete_known,
  finish_poll, tick_endpoint, tick_known, tick_free, is_backing_off,
}
use opc_server.Runtime.TickLaws.{tick-tick_free, finish_poll-Replaces}
use opc_server.Runtime.CompleteLaws.{
  released, complete-Replaces, complete-Keeps, set_state-Replaces,
}

module _ {fl : Floats} {env : Env fl} where
  -- What a tick of the endpoint needs: a transport, and a poll state that is not in flight.
  pub record IsWired (s : ServerRuntime env) (id : String) : Type 0 where
    pub transport : ℕ
    pub state : EndpointPollState
    pub bound : lookup id s.transports ≡ some (some transport)
    pub known : lookup id s.endpoint_poll_state ≡ some state
    pub free : state.inflight ≡ false

abbrev pub is_some : {A : Type 0} → Option A → Bool
is_some none = false
is_some (some a) = true

module _ {fl : Floats} {env : Env fl} where
  -- The endpoint has a transport, and a poll state that is in flight exactly if a poll of the endpoint
  -- is launched and not completed.
  pub record IsLive (r : Reactor env) (id : String) : Type 0 where
    pub transport : ℕ
    pub state : EndpointPollState
    pub bound : lookup id r.runtime.transports ≡ some (some transport)
    pub known : lookup id r.runtime.endpoint_poll_state ≡ some state
    pub matched : state.inflight ≡ is_some (lookup id r.pending)

module _ {fl : Floats} (env : Env fl) (facades : Facades env) where
  pub IsWired-moved :
      (a b : ServerRuntime env) (id : String)
      → b.transports ≡ a.transports
      → b.endpoint_poll_state ≡ a.endpoint_poll_state
      → IsWired a id
      → IsWired b id
  IsWired-moved a b id same states h = record {
    transport = h.transport;
    state = h.state;
    bound = ap (lookup id) same ∙ h.bound;
    known = ap (lookup id) states ∙ h.known;
    free = h.free;
  }

  IsLive-moved :
      (a b : Reactor env) (id : String)
      → lookup id b.runtime.transports ≡ lookup id a.runtime.transports
      → lookup id b.runtime.endpoint_poll_state ≡ lookup id a.runtime.endpoint_poll_state
      → lookup id b.pending ≡ lookup id a.pending
      → IsLive a id
      → IsLive b id
  IsLive-moved a b id same states waiting h = record {
    transport = h.transport;
    state = h.state;
    bound = same ∙ h.bound;
    known = states ∙ h.known;
    matched = h.matched ∙ ap is_some (sym waiting);
  }

  -- An endpoint's new state, where the others stay.
  IsLive-replaced :
      (a b : Reactor env) (id j : String) (new : EndpointPollState) (waiting : Option Launched)
      → b.runtime.transports ≡ a.runtime.transports
      → lookup j b.runtime.endpoint_poll_state
        ≡ (if id =? j then some new else lookup j a.runtime.endpoint_poll_state)
      → lookup j b.pending ≡ (if id =? j then waiting else lookup j a.pending)
      → ((id =? j) ≡ true → new.inflight ≡ is_some waiting)
      → IsLive a j
      → IsLive b j
  IsLive-replaced a b id j new waiting same states pending new_matched h =
      elim (Bool-cases (id =? j)) [
        | inl e ↦ record {
          transport = h.transport;
          state = new;
          bound = ap (lookup j) same ∙ h.bound;
          known = states ∙ rw e refl;
          matched = new_matched e ∙ ap is_some (sym (pending ∙ rw e refl));
        }
        | inr e ↦
            IsLive-moved a b j (ap (lookup j) same) (states ∙ rw e refl) (pending ∙ rw e refl) h
      ]

  -- An endpoint that is not in flight has no poll launched.
  not_pending :
      (r : Reactor env) (id j : String) (state : EndpointPollState)
      → IsLive r j
      → (id =? j) ≡ true
      → lookup id r.runtime.endpoint_poll_state ≡ some state
      → state.inflight ≡ false
      → is_some (lookup id r.pending) ≡ false
  not_pending r id j state h e known free =
      let same = (string_eq.beq_iff id j).0 e in
      let here =
        subst (λ k. lookup k r.runtime.endpoint_poll_state ≡ some h.state) (sym same) h.known in
      let mine =
        subst (λ k. h.state.inflight ≡ is_some (lookup k r.pending)) (sym same) h.matched in
      let states : state ≡ h.state = cc (here, known) in
      sym mine ∙ ap (λ x. x.inflight) (sym states) ∙ free

  after_tick : Reactor env → String → ServerRuntime env × Option Launched → Reactor env
  after_tick r id out = record { runtime = out.0; pending = launch env facades r.pending id out.1 }

  keep_pending :
      (r : Reactor env) (id j : String)
      → lookup j r.pending ≡ (if id =? j then lookup id r.pending else lookup j r.pending)
  keep_pending r id j = elim (Bool-cases (id =? j)) [
    | inl e ↦ rw e (ap (λ k. lookup k r.pending) (sym ((string_eq.beq_iff id j).0 e)))
    | inr e ↦ rw e refl
  ]

  tick_free-IsLive :
      (r : Reactor env) (id j : String) (state : EndpointPollState) (t : ℕ)
      → lookup id r.runtime.endpoint_poll_state ≡ some state
      → state.inflight ≡ false
      → IsLive r j
      → IsLive (after_tick r id (tick_free env facades r.runtime id state t)) j
  unfolding tick_free after_tick
  tick_free-IsLive r id j state t known free h =
      let (now, w) = env.ports.now_ms r.runtime.dispatcher.world in
      let timed = with_world r.runtime w in
      elim (Bool-cases (is_backing_off env facades timed state t now)) [
        | inl e ↦ rw e (
            IsLive-replaced r _ id j (released env facades state.next_reconnect_ms)
              (lookup id r.pending) refl
              (set_state-Replaces env facades timed id
                (released env facades state.next_reconnect_ms) j)
              (keep_pending r id j) (λ here. sym (not_pending r id j state h here known free)) h)
        | inr e ↦ rw e (
            IsLive-replaced r _ id j (record state { inflight = true }) (some _) refl
              (set_state-Replaces env facades timed id (record state { inflight = true }) j)
              (lookup-insert id j _ r.pending) (λ here. refl) h)
      ]

  tick_endpoint-IsLive :
      (r : Reactor env) (id j : String)
      → IsLive r j
      → IsLive (after_tick r id (tick_endpoint env facades r.runtime id)) j
  unfolding tick_endpoint after_tick
  tick_endpoint-IsLive r id j h =
      at_entry (join (lookup id r.runtime.transports)) (lookup id r.runtime.endpoint_poll_state)
        refl
    where
      at_entry :
          (o : Option ℕ) (found : Option EndpointPollState)
          → lookup id r.runtime.endpoint_poll_state ≡ found
          → IsLive (after_tick r id (tick_known env facades r.runtime id o found)) j
      at_entry none found f = IsLive-moved r _ j refl refl refl h
      at_entry (some t) none f = IsLive-moved r _ j refl refl refl h
      at_entry (some t) (some state) f = elim (Bool-cases state.inflight) [
        | inl busy ↦
            subst (λ out. IsLive (after_tick r id out) j)
              (sym (tick-tick_free env facades r.runtime id t state true busy))
              (IsLive-moved r _ j refl refl refl h)
        | inr free ↦
            subst (λ out. IsLive (after_tick r id out) j)
              (sym (tick-tick_free env facades r.runtime id t state false free))
              (tick_free-IsLive r id j state t f free h)
      ]

  -- The completion of one endpoint's poll leaves the other endpoints, whatever it finds.
  complete_known-others :
      (s : ServerRuntime env) (id j : String) (delay : ℤ) (r : Result (Unit {0})) (o : Option ℕ)
      (found : Option EndpointPollState)
      → (id =? j) ≡ false
      → ((complete_known env facades s id delay r o found).transports ≡ s.transports)
        × (lookup j (complete_known env facades s id delay r o found).endpoint_poll_state
            ≡ lookup j s.endpoint_poll_state)
  complete_known-others s id j delay r none none e = (refl, refl)
  complete_known-others s id j delay r (some t) none e = (refl, refl)
  complete_known-others s id j delay r none (some state) e =
      (refl, set_state-Replaces env facades s id (record state { inflight = false }) j ∙ rw e refl)
  complete_known-others s id j delay r (some t) (some state) e = (
    (complete-Keeps env facades s id state t delay r).0,
    complete-Replaces env facades s id state t delay r j ∙ rw e refl,
  )

  finish_poll-transports :
      (s : ServerRuntime env) (id : String) (launched : Launched)
      → (finish_poll env facades s id launched).transports ≡ s.transports
  unfolding finish_poll
  finish_poll-transports s id launched =
      at_entry (join (lookup id s.transports)) (lookup id s.endpoint_poll_state)
    where
      d : ServerRuntime env
      d = with_dispatcher s (poll_due_async env s.dispatcher id launched.now).1

      r : Result (Unit {0})
      r = (poll_due_async env s.dispatcher id launched.now).0

      at_entry :
          (o : Option ℕ) (found : Option EndpointPollState)
          → (complete_known env facades d id launched.delay r o found).transports ≡ s.transports
      at_entry none none = refl
      at_entry none (some state) = refl
      at_entry (some t) none = refl
      at_entry (some t) (some state) = (complete-Keeps env facades d id state t launched.delay r).0

  finish_poll-IsLive :
      (r : Reactor env) (id j : String) (launched : Launched)
      → IsLive r j
      → IsLive (complete_pending env facades r id (some launched)) j
  unfolding finish_poll
  finish_poll-IsLive r id j launched h = elim (Bool-cases (id =? j)) [
    | inl e ↦
        let here : IsLive r id = subst (IsLive r) (sym ((string_eq.beq_iff id j).0 e)) h in
        IsLive-replaced r _ id j _ none (finish_poll-transports r.runtime id launched)
          (finish_poll-Replaces env facades r.runtime id launched here.transport here.state
            here.bound here.known j)
          (lookup-erase id j r.pending) (λ _. refl) h
    | inr e ↦
        let (result, d) = poll_due_async env r.runtime.dispatcher id launched.now in
        IsLive-moved r _ j (ap (lookup j) (finish_poll-transports r.runtime id launched))
          (complete_known-others (with_dispatcher r.runtime d) id j launched.delay result
            (join (lookup id r.runtime.transports)) (lookup id r.runtime.endpoint_poll_state) e).1
          (lookup-erase id j r.pending ∙ rw e refl) h
  ]

  -- Every step leaves every endpoint live that was.
  step-IsLive :
      (event : Event) (r : Reactor env) (j : String)
      → IsLive r j
      → IsLive (step env facades event r) j
  unfolding step after_tick
  step-IsLive (tick_of id) r j h = tick_endpoint-IsLive r id j h
  step-IsLive (poll_of id) r j h =
      elim (lookup id r.pending) as (λ o. IsLive (complete_pending env facades r id o) j) [
        | none ↦ h
        | some launched ↦ finish_poll-IsLive r id j launched h
      ]

  pub run-IsLive :
      (events : List Event) (r : Reactor env) (j : String)
      → IsLive r j
      → IsLive (run env facades events r) j
  unfolding run
  run-IsLive [] r j h = h
  run-IsLive (event ∷ events) r j h =
      run-IsLive events (step env facades event r) j (step-IsLive event r j h)
