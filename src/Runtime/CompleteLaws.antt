-- ===== src/Runtime/CompleteLaws.antt =====
-- What the completion of a poll keeps and changes, stage by stage.
use opc_server.Prelude.{
  ℕ, ◌≡◌, some, true, false, not, String, if◌then◌else◌, refl, ◌∙◌, Bool-cases, inl, inr,
}
use opc_server.Prelude.Int.{ℤ, pos, ◌+ℤ◌}
use opc_server.Prelude.Eq.{◌=?◌, string_eq}
use opc_server.Prelude.Map.{lookup, lookup-insert}
use opc_server.Domain.{Result, QualityReason}
use opc_server.Platform.{Floats}
use opc_server.Dispatcher.State.{Env}
use opc_server.Dispatcher.Groups.{mark_endpoint_bad}
use opc_server.Dispatcher.EndpointLaws.{mark_bindings_bad_keeps}
use opc_server.Runtime.{ServerRuntime, EndpointPollState, Facades, with_world}
use opc_server.Runtime.Tick.{
  complete, note_link, note_error, back_off, flush_historian, is_connection, set_state,
}

module _ {fl : Floats} (env : Env fl) (facades : Facades env) where
  open env use {ports}

  -- The states with that of one endpoint replaced.
  abbrev pub Replaces : String → EndpointPollState → ServerRuntime env → ServerRuntime env → Type 0
  Replaces id new before after =
      (j : String)
      → lookup j after.endpoint_poll_state
        ≡ (if id =? j then some new else lookup j before.endpoint_poll_state)

  abbrev pub released : ℤ → EndpointPollState
  released next = record { inflight = false; next_reconnect_ms = next }

  pub set_state-Replaces :
      (s : ServerRuntime env) (id : String) (new : EndpointPollState)
      → Replaces id new s (set_state env facades s id new)
  set_state-Replaces s id new j = lookup-insert id j new s.endpoint_poll_state

  Replaces-then :
      (id : String) (old new : EndpointPollState) (a b c : ServerRuntime env)
      → Replaces id old a b
      → Replaces id new b c
      → Replaces id new a c
  Replaces-then id old new a b c h k j = elim (Bool-cases (id =? j)) [
    | inl e ↦ k j ∙ rw e refl
    | inr e ↦ k j ∙ rw e (h j ∙ rw e refl)
  ]

  note_link-Replaces :
      (s : ServerRuntime env) (id : String) (state : EndpointPollState) (t : ℕ) (now delay : ℤ)
      → Replaces id
          (released (if not (ports.is_connected t s.dispatcher.world) then now +ℤ delay else pos 0))
          s
          (note_link env facades s id state t now delay)
  unfolding note_link back_off
  note_link-Replaces s id state t now delay =
      elim (Bool-cases (not (ports.is_connected t s.dispatcher.world))) [
        | inl e ↦ rw e (set_state-Replaces s id (released (now +ℤ delay)))
        | inr e ↦ rw e (set_state-Replaces s id (released (pos 0)))
      ]

  note_error-Replaces :
      (a s : ServerRuntime env) (id : String) (state : EndpointPollState) (t : ℕ)
      (now delay next : ℤ) (r : Result (Unit {0}))
      → Replaces id (released next) a s
      → Replaces id
          (released (if is_connection r then now +ℤ delay else next))
          a
          (note_error env facades s id state t now delay r)
  unfolding note_error back_off
  note_error-Replaces a s id state t now delay next r h = elim (Bool-cases (is_connection r)) [
    | inl e ↦ rw e (
        Replaces-then id (released next) (released (now +ℤ delay)) a s
          (set_state env facades s id (released (now +ℤ delay))) h
          (set_state-Replaces s id (released (now +ℤ delay))))
    | inr e ↦ rw e h
  ]

  flush_historian-Replaces :
      (a s : ServerRuntime env) (id : String) (new : EndpointPollState)
      → Replaces id new a s
      → Replaces id new a (flush_historian env facades s)
  unfolding flush_historian
  flush_historian-Replaces a s id new h = elim (Bool-cases s.has_historian) [
    | inl e ↦ rw e h
    | inr e ↦ rw e h
  ]

  -- The reconnect time that a completed poll leaves: after the delay if the transport is not
  -- connected or the poll lost the connection, and none otherwise.
  abbrev pub next_reconnect : ℕ → ℤ → Result (Unit {0}) → ℤ × env.W → ℤ
  next_reconnect t delay r (now, w) =
      if is_connection r
      then now +ℤ delay
      else if not (ports.is_connected t w)
      then now +ℤ delay
      else pos 0

  pub complete-Replaces :
      (s : ServerRuntime env) (id : String) (state : EndpointPollState) (t : ℕ) (delay : ℤ)
      (r : Result (Unit {0}))
      → Replaces id
          (released (next_reconnect t delay r (ports.now_ms s.dispatcher.world)))
          s
          (complete env facades s id state t delay r)
  unfolding complete
  complete-Replaces s id state t delay r =
      let (now, w) = ports.now_ms s.dispatcher.world in
      let timed = with_world s w in
      flush_historian-Replaces s _ id _ (
        note_error-Replaces s (note_link env facades timed id state t now delay) id state t now
          delay (if not (ports.is_connected t w) then now +ℤ delay else pos 0) r
          (note_link-Replaces timed id state t now delay))

  -- The transports, the queues of writes and the times of polls are as before.
  abbrev pub Keeps : ServerRuntime env → ServerRuntime env → Type 0
  Keeps a b =
      (b.transports ≡ a.transports)
      × (b.dispatcher.write_queues ≡ a.dispatcher.write_queues)
      × (b.dispatcher.last_poll_ms ≡ a.dispatcher.last_poll_ms)

  Keeps-then : (a b c : ServerRuntime env) → Keeps a b → Keeps b c → Keeps a c
  Keeps-then a b c (t, q, l) (t', q', l') = (t' ∙ t, q' ∙ q, l' ∙ l)

  back_off-Keeps :
      (s : ServerRuntime env) (id : String) (state : EndpointPollState) (now delay : ℤ)
      → Keeps s (back_off env facades s id state now delay)
  unfolding back_off mark_endpoint_bad
  back_off-Keeps s id state now delay =
      let (q, l) =
        mark_bindings_bad_keeps s.dispatcher.index.tags s.dispatcher id
          QualityReason.no_communication now in
      (refl, q, l)

  note_link-Keeps :
      (s : ServerRuntime env) (id : String) (state : EndpointPollState) (t : ℕ) (now delay : ℤ)
      → Keeps s (note_link env facades s id state t now delay)
  unfolding note_link
  note_link-Keeps s id state t now delay =
      elim (Bool-cases (not (ports.is_connected t s.dispatcher.world))) [
        | inl e ↦ rw e (back_off-Keeps s id state now delay)
        | inr e ↦ rw e (refl, refl, refl)
      ]

  note_error-Keeps :
      (s : ServerRuntime env) (id : String) (state : EndpointPollState) (t : ℕ) (now delay : ℤ)
      (r : Result (Unit {0}))
      → Keeps s (note_error env facades s id state t now delay r)
  unfolding note_error
  note_error-Keeps s id state t now delay r = elim (Bool-cases (is_connection r)) [
    | inl e ↦
        rw e (back_off-Keeps (with_world s (facades.close t s.dispatcher.world)) id state now delay)
    | inr e ↦ rw e (refl, refl, refl)
  ]

  flush_historian-Keeps : (s : ServerRuntime env) → Keeps s (flush_historian env facades s)
  unfolding flush_historian
  flush_historian-Keeps s = elim (Bool-cases s.has_historian) [
    | inl e ↦ rw e (refl, refl, refl)
    | inr e ↦ rw e (refl, refl, refl)
  ]

  pub complete-Keeps :
      (s : ServerRuntime env) (id : String) (state : EndpointPollState) (t : ℕ) (delay : ℤ)
      (r : Result (Unit {0}))
      → Keeps s (complete env facades s id state t delay r)
  unfolding complete
  complete-Keeps s id state t delay r =
      let (now, w) = ports.now_ms s.dispatcher.world in
      let linked = note_link env facades (with_world s w) id state t now delay in
      let noted = note_error env facades linked id state t now delay r in
      Keeps-then s noted (flush_historian env facades noted)
        (Keeps-then s linked noted (note_link-Keeps (with_world s w) id state t now delay)
          (note_error-Keeps linked id state t now delay r))
        (flush_historian-Keeps noted)

  flush_historian-store :
      (s : ServerRuntime env)
      → ((flush_historian env facades s).dispatcher.store ≡ s.dispatcher.store)
        × ((flush_historian env facades s).dispatcher.metrics ≡ s.dispatcher.metrics)
  unfolding flush_historian
  flush_historian-store s = elim (Bool-cases s.has_historian) [
    | inl e ↦ rw e (refl, refl)
    | inr e ↦ rw e (refl, refl)
  ]

  -- A completion that finds the connection in order leaves the values and the metrics of the poll.
  pub complete-store :
      (s : ServerRuntime env) (id : String) (state : EndpointPollState) (t : ℕ) (delay : ℤ)
      (r : Result (Unit {0}))
      → ports.is_connected t (ports.now_ms s.dispatcher.world).1 ≡ true
      → is_connection r ≡ false
      → ((complete env facades s id state t delay r).dispatcher.store ≡ s.dispatcher.store)
        × ((complete env facades s id state t delay r).dispatcher.metrics ≡ s.dispatcher.metrics)
  unfolding complete note_error note_link
  complete-store s id state t delay r alive whole =
      let (now, w) = ports.now_ms s.dispatcher.world in
      rw (whole, alive)
        (flush_historian-store (
          set_state env facades (with_world s w) id
            (record state { inflight = false; next_reconnect_ms = pos 0 })))
