-- ===== src/Runtime/WiredStart.antt =====
-- Every endpoint of a started runtime is ready for its ticks and their polls, and stays so.
use opc_server.Prelude.{
  ℕ, ◌≡◌, List, [], ◌∷◌, Option, none, some, Bool, true, false, String, if◌then◌else◌, refl, subst,
  ap, sym, ◌∙◌, arith, All,
}
use opc_server.Prelude.Eq.{string_eq}
use opc_server.Prelude.Map.{lookup}
use opc_server.Domain.{Result}
use opc_server.Project.{Endpoint}
use opc_server.Platform.{Floats}
use opc_server.Dispatcher.State.{Env}
use opc_server.Runtime.{ServerRuntime, Facades, with_world}
use opc_server.Runtime.Start.{
  start, start_endpoints, start_endpoint, start_made, start_opcua, finish_start, or_stop,
  after_endpoints, watched, asks,
}
use opc_server.Runtime.Tick.{Reactor, Event, run}
use opc_server.Runtime.Wired.{IsWired, IsWired-moved, IsLive, run-IsLive}
use opc_server.Runtime.WiredEndpoint.{IsQuiet, start_endpoint-wires}

-- What holds of the state of a call that did not return an error.
abbrev OnOk : {S : Type 0} → (S → Type 0) → Result (Unit {0}) × S → Type 0
OnOk P (Result.ok _, s) = P s
OnOk P (Result.err e, s) = Unit

OnOk-then :
    {S : Type 0} (P Q : S → Type 0) (out : Result (Unit {0}) × S)
    → ((s : S) → P s → Q s)
    → OnOk P out
    → OnOk Q out
OnOk-then P Q (Result.ok _, s) f h = f s h
OnOk-then P Q (Result.err e, s) f h = tt

OnOk-either :
    {S : Type 0} (P : S → Type 0) (x y : Result (Unit {0}) × S) (b : Bool)
    → OnOk P x
    → OnOk P y
    → OnOk P (if b then x else y)
OnOk-either P x y true h k = h
OnOk-either P x y false h k = k

module _ {fl : Floats} (env : Env fl) (facades : Facades env) where
  -- Every endpoint of a list, and every id of another, is ready.
  abbrev AreWired : List String → List Endpoint → ServerRuntime env → Type 0
  AreWired ids eps s = All (IsWired s) ids × All (λ ep. IsWired s ep.id) eps

  start_endpoint-All :
      (s : ServerRuntime env) (ep : Endpoint) (t : ℕ) (ids : List String)
      → IsQuiet s
      → All (IsWired s) ids
      → All (IsWired (start_endpoint env facades s ep t)) ids
  start_endpoint-All s ep t [] quiet hs = tt
  start_endpoint-All s ep t (id ∷ ids) quiet (h, hs) =
      let (_, _, keeps) = start_endpoint-wires env facades s ep t quiet in
      (keeps id h, start_endpoint-All s ep t ids quiet hs)

  start_endpoints-AreWired :
      (eps : List Endpoint) (ids : List String) (s : ServerRuntime env)
      → IsQuiet s
      → All (IsWired s) ids
      → OnOk (AreWired ids eps) (start_endpoints env facades eps s)
  unfolding start_endpoints start_made
  start_endpoints-AreWired [] ids s quiet hs = (hs, tt)
  start_endpoints-AreWired (ep ∷ eps) ids s quiet hs =
      let (made, w) = facades.transport_factory ep s.dispatcher.world in
      at_made made (with_world s w) (record { bound = quiet.bound; free = quiet.free })
        (all_same ids hs) (λ s1. start_endpoints-AreWired eps (ep.id ∷ ids) s1)
    where
      all_same :
          (js : List String)
          → All (IsWired s) js
          → All (IsWired (with_world s ((facades.transport_factory ep s.dispatcher.world).1))) js
      all_same [] h = tt
      all_same (j ∷ js) (h, rest) = (
        record {
          transport = h.transport;
          state = h.state;
          bound = h.bound;
          known = h.known;
          free = h.free;
        },
        all_same js rest,
      )

      at_made :
          (made : Option ℕ) (s1 : ServerRuntime env)
          → IsQuiet s1
          → All (IsWired s1) ids
          → ((s' : ServerRuntime env)
              → IsQuiet s'
              → All (IsWired s') (ep.id ∷ ids)
              → OnOk (AreWired (ep.id ∷ ids) eps) (start_endpoints env facades eps s'))
          → OnOk
              (AreWired ids (ep ∷ eps))
              (start_made env facades s1 ep made (start_endpoints env facades eps))
      at_made none s1 q h rest = tt
      at_made (some t) s1 q h rest =
          let (quiet', own, _) = start_endpoint-wires env facades s1 ep t q in
          let s2 = start_endpoint env facades s1 ep t in
          OnOk-then (AreWired (ep.id ∷ ids) eps) (AreWired ids (ep ∷ eps))
            (start_endpoints env facades eps s2) (λ s' hs'. (hs'.0.1, (hs'.0.0, hs'.1)))
            (rest s2 quiet' (own, start_endpoint-All s1 ep t ids q h))

  All-moved :
      (a b : ServerRuntime env) (eps : List Endpoint)
      → b.transports ≡ a.transports
      → b.endpoint_poll_state ≡ a.endpoint_poll_state
      → All (λ ep. IsWired a ep.id) eps
      → All (λ ep. IsWired b ep.id) eps
  All-moved a b [] same states h = tt
  All-moved a b (ep ∷ eps) same states (h, hs) =
      (IsWired-moved env facades a b ep.id same states h, All-moved a b eps same states hs)

  watched-fields :
      (s : ServerRuntime env) (sub : Option ℕ) (b : Bool)
      → ((if b then watched env facades s sub else s).transports ≡ s.transports)
        × ((if b then watched env facades s sub else s).endpoint_poll_state ≡ s.endpoint_poll_state)
  watched-fields s sub false = (refl, refl)
  watched-fields s none true = (refl, refl)
  watched-fields s (some id) true = (refl, refl)

  finish_start-AreWired :
      (eps : List Endpoint) (s : ServerRuntime env)
      → All (λ ep. IsWired s ep.id) eps
      → OnOk (λ s'. All (λ ep. IsWired s' ep.id) eps) (finish_start env facades s)
  unfolding finish_start
  finish_start-AreWired eps s h =
      let (same, states) = watched-fields s s.historian_sub s.has_historian in
      All-moved s _ eps same states h

  or_stop-AreWired :
      (eps : List Endpoint) (out : Result (Unit {0}) × ServerRuntime env)
      (next : ServerRuntime env → Result (Unit {0}) × ServerRuntime env)
      → OnOk (λ s'. All (λ ep. IsWired s' ep.id) eps) out
      → ((s : ServerRuntime env)
          → All (λ ep. IsWired s ep.id) eps
          → OnOk (λ s'. All (λ ep. IsWired s' ep.id) eps) (next s))
      → OnOk (λ s'. All (λ ep. IsWired s' ep.id) eps) (or_stop env facades out next)
  unfolding or_stop
  or_stop-AreWired eps (Result.err e, s) next h k = tt
  or_stop-AreWired eps (Result.ok _, s) next h k = k s h

  asks-AreWired :
      (eps : List Endpoint) (s : ServerRuntime env) (out : Result (Unit {0}) × env.W)
      → All (λ ep. IsWired s ep.id) eps
      → OnOk (λ s'. All (λ ep. IsWired s' ep.id) eps) (asks env facades s out)
  asks-AreWired eps s (Result.err e, w) h = tt
  asks-AreWired eps s (Result.ok _, w) h = All-moved s (with_world s w) eps refl refl h

  start_opcua-AreWired :
      (eps : List Endpoint) (s : ServerRuntime env)
      → All (λ ep. IsWired s ep.id) eps
      → OnOk
          (λ s'. All (λ ep. IsWired s' ep.id) eps)
          (start_opcua env facades s (finish_start env facades))
  unfolding start_opcua
  start_opcua-AreWired eps s h =
      or_stop-AreWired eps _ _
        (asks-AreWired eps (record s { handles_writes = true }) _ (All-moved s _ eps refl refl h))
        (λ s2 h2.
          or_stop-AreWired eps _ _ (asks-AreWired eps s2 _ h2)
            (λ s3 h3. finish_start-AreWired eps s3 h3))

  after_endpoints-AreWired :
      (eps : List Endpoint) (out : Result (Unit {0}) × ServerRuntime env)
      → OnOk (AreWired [] eps) out
      → OnOk (λ s'. All (λ ep. IsWired s' ep.id) eps) (after_endpoints env facades out)
  after_endpoints-AreWired eps (Result.err e, s) h = tt
  after_endpoints-AreWired eps (Result.ok _, s) h =
      OnOk-either (λ s'. All (λ ep. IsWired s' ep.id) eps) _ (finish_start env facades s)
        s.has_opcua (start_opcua-AreWired eps s (h.1)) (finish_start-AreWired eps s (h.1))

  -- A runtime that has just started, with no poll launched.
  abbrev pub resting : ServerRuntime env → Reactor env
  resting s = record { runtime = s; pending = [] }

  resting-IsLive : (s : ServerRuntime env) (id : String) → IsWired s id → IsLive (resting s) id
  unfolding lookup
  resting-IsLive s id h = record {
    transport = h.transport;
    state = h.state;
    bound = h.bound;
    known = h.known;
    matched = h.free;
  }

  run-All :
      (events : List Event) (s : ServerRuntime env) (eps : List Endpoint)
      → All (λ ep. IsWired s ep.id) eps
      → All (λ ep. IsLive (run env facades events (resting s)) ep.id) eps
  run-All events s [] h = tt
  run-All events s (ep ∷ eps) (h, hs) = (
    run-IsLive env facades events (resting s) ep.id (resting-IsLive s ep.id h),
    run-All events s eps hs,
  )

  -- After a start that returns no error, from a runtime without transports and poll states, and after
  -- any ticks of endpoints and completions of launched polls, in any order, every endpoint of the
  -- project has a transport and a poll state, which is in flight exactly if a poll of the endpoint is
  -- launched and not completed: no endpoint is left in flight for good by its completed polls.
  pub run-start :
      (s started : ServerRuntime env) (events : List Event)
      → s.started ≡ false
      → s.transports ≡ []
      → s.endpoint_poll_state ≡ []
      → start env facades s ≡ (Result.ok tt, started)
      → All
          (λ ep. IsLive (run env facades events (resting started)) ep.id)
          s.dispatcher.index.project.endpoints
  unfolding start lookup
  run-start s started events fresh bare idle h =
      let eps = s.dispatcher.index.project.endpoints in
      let quiet : IsQuiet s = record {
        bound = λ id o e. absurd (ground (arith, sym (ap (lookup id) bare) ∙ e));
        free = λ id state e. absurd (ground (arith, sym (ap (lookup id) idle) ∙ e));
      } in
      let whole : start env facades s
          ≡ after_endpoints env facades (start_endpoints env facades eps s) =
        ap
          (λ b.
            if b
            then (Result.ok tt, s)
            else after_endpoints env facades (start_endpoints env facades eps s))
          fresh in
      run-All events started eps (
        subst (OnOk (λ s'. All (λ ep. IsWired s' ep.id) eps)) (sym whole ∙ h) (
          after_endpoints-AreWired eps (start_endpoints env facades eps s)
            (start_endpoints-AreWired eps [] s quiet tt)))
