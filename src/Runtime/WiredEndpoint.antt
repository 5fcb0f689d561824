-- ===== src/Runtime/WiredEndpoint.antt =====
-- Starting one endpoint makes it ready for its ticks, and leaves the others ready.
use opc_server.Prelude.{
  ℕ, ◌≡◌, Option, none, some, Bool, true, false, String, if◌then◌else◌, refl, ap, sym, ◌∙◌, arith,
  Bool-cases, inl, inr,
}
use opc_server.Prelude.Int.{ℤ, pos}
use opc_server.Prelude.Eq.{◌=?◌, string_eq, =?-refl}
use opc_server.Prelude.Map.{lookup, lookup-insert, lookup-emplace_any, or_else}
use opc_server.Domain.{Result, value_or}
use opc_server.Project.{Endpoint}
use opc_server.Platform.{Floats}
use opc_server.Dispatcher.State.{Env}
use opc_server.Runtime.{ServerRuntime, EndpointPollState, Facades, idle_state, with_world}
use opc_server.Runtime.Start.{start_endpoint, connected}
use opc_server.Runtime.Wired.{IsWired}

module _ {fl : Floats} {env : Env fl} where
  -- No transport is null and no endpoint is in flight.
  pub record IsQuiet (s : ServerRuntime env) : Type 0 where
    pub bound :
        (id : String) (o : Option ℕ) → lookup id s.transports ≡ some o → (t : ℕ) × (o ≡ some t)
    pub free :
        (id : String) (state : EndpointPollState)
        → lookup id s.endpoint_poll_state ≡ some state
        → state.inflight ≡ false

-- An entry put where there is none is not null if the others are not.
or_else-some :
    (old : Option (Option ℕ)) (c : Bool) (t : ℕ) (o : Option ℕ)
    → ((p : Option ℕ) → old ≡ some p → (u : ℕ) × (p ≡ some u))
    → or_else old (if c then some (some t) else none) ≡ some o
    → (u : ℕ) × (o ≡ some u)
or_else-some none true t o h e = (t, ground (arith, e))
or_else-some none false t o h e = absurd (ground (arith, e))
or_else-some (some p) c t o h e = let (u, same) = h p refl in (u, ground (arith, e, same))

or_else-bound :
    (old : Option (Option ℕ)) (t : ℕ)
    → ((p : Option ℕ) → old ≡ some p → (u : ℕ) × (p ≡ some u))
    → (u : ℕ) × (or_else old (some (some t)) ≡ some (some u))
or_else-bound none t h = (t, refl)
or_else-bound (some p) t h = let (u, same) = h p refl in (u, ap some same)

-- The state found is the new one or one of before.
free_state :
    (c : Bool) (new found : EndpointPollState) (old : Option EndpointPollState)
    → new.inflight ≡ false
    → (old ≡ some found → found.inflight ≡ false)
    → (if c then some new else old) ≡ some found
    → found.inflight ≡ false
free_state true new found old h k e = ap (λ o. (value_or o new).inflight) (sym e) ∙ h
free_state false new found old h k e = k e

module _ {fl : Floats} (env : Env fl) (facades : Facades env) where
  value_or_free :
      (s : ServerRuntime env) (id : String)
      → IsQuiet s
      → (value_or (lookup id s.endpoint_poll_state) idle_state).inflight ≡ false
  value_or_free s id quiet = at_state (lookup id s.endpoint_poll_state) refl
    where
      at_state :
          (o : Option EndpointPollState)
          → lookup id s.endpoint_poll_state ≡ o
          → (value_or o idle_state).inflight ≡ false
      at_state none e = refl
      at_state (some state) e = quiet.free id state e

  connected-transports :
      (s : ServerRuntime env) (ep : Endpoint) (state : EndpointPollState) (r : Result (Unit {0}))
      → (connected env facades s ep state r).transports ≡ s.transports
  unfolding connected
  connected-transports s ep state (Result.ok _) = refl
  connected-transports s ep state (Result.err e) = refl

  connected-lookup :
      (s : ServerRuntime env) (ep : Endpoint) (state : EndpointPollState) (r : Result (Unit {0}))
      → (next : ℤ) × ((j : String)
          → lookup j (connected env facades s ep state r).endpoint_poll_state ≡ (
              if ep.id =? j
              then some (record { inflight = state.inflight; next_reconnect_ms = next })
              else lookup j s.endpoint_poll_state))
  unfolding connected
  connected-lookup s ep state (Result.ok _) =
      (pos 0, λ j. lookup-insert ep.id j _ s.endpoint_poll_state)
  connected-lookup s ep state (Result.err e) =
      (_, λ j. lookup-insert ep.id j _ s.endpoint_poll_state)

  pub start_endpoint-wires :
      (s : ServerRuntime env) (ep : Endpoint) (t : ℕ)
      → IsQuiet s
      → IsQuiet (start_endpoint env facades s ep t)
        × IsWired (start_endpoint env facades s ep t) ep.id
        × ((j : String) → IsWired s j → IsWired (start_endpoint env facades s ep t) j)
  unfolding start_endpoint
  start_endpoint-wires s ep t quiet =
      let (conn, w) =
        env.ports.connect t (record { host = ep.host; port = ep.port }) s.dispatcher.world in
      let s0 = with_world s w in
      let state = value_or (lookup ep.id s.endpoint_poll_state) idle_state in
      let free = value_or_free s ep.id quiet in
      let same = connected-transports s0 ep state conn in
      let (next, states) = connected-lookup s0 ep state conn in
      let entry : (j : String)
          → lookup j (start_endpoint env facades s ep t).transports
            ≡ or_else (lookup j s.transports) (if ep.id =? j then some (some t) else none) =
        λ j.
          lookup-emplace_any ep.id j (some t) (connected env facades s0 ep state conn).transports
          ∙ ap (λ m. or_else (lookup j m) (if ep.id =? j then some (some t) else none)) same in
      let (bound, at) = or_else-bound (lookup ep.id s.transports) t (quiet.bound ep.id) in
      let new : EndpointPollState = record {
        inflight = state.inflight;
        next_reconnect_ms = next;
      } in
      (
        record {
          bound = λ id o e.
              or_else-some (lookup id s.transports) (ep.id =? id) t o (quiet.bound id)
                (sym (entry id) ∙ e);
          free = λ id found e.
              free_state (ep.id =? id) new found (lookup id s.endpoint_poll_state) free
                (quiet.free id found) (sym (states id) ∙ e);
        },
        record {
          transport = bound;
          state = new;
          bound = entry ep.id ∙ rw (=?-refl ep.id) at;
          known = states ep.id ∙ rw (=?-refl ep.id) refl;
          free = free;
        },
        λ j h. elim (Bool-cases (ep.id =? j)) [
          | inl e ↦ record {
            transport = h.transport;
            state = new;
            bound = entry j ∙ rw h.bound refl;
            known = states j ∙ rw e refl;
            free = free;
          }
          | inr e ↦ record {
            transport = h.transport;
            state = h.state;
            bound = entry j ∙ rw h.bound refl;
            known = states j ∙ rw e h.known;
            free = h.free;
          }
        ],
      )
