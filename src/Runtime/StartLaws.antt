-- ===== src/Runtime/StartLaws.antt =====
-- What a start that fails leaves.
use opc_server.Prelude.{
  ℕ, ◌≡◌, List, [], ◌∷◌, Option, none, some, Bool, true, false, if◌then◌else◌, refl, subst, sym, ap,
  ◌∙◌, All, String, Bool-cases, inl, inr,
}
use opc_server.Prelude.Int.{ℤ}
use opc_server.Prelude.Eq.{◌=?◌, string_eq}
use opc_server.Prelude.Map.{lookup, emplace, lookup-insert, lookup-emplace}
use opc_server.Domain.{Result, Error, QualityReason, bad, value_or}
use opc_server.Project.{Endpoint}
use opc_server.Platform.{Floats}
use opc_server.Index.{TagBinding}
use opc_server.Dispatcher.State.{Env, State, bind_transport, publish_quality}
use opc_server.Dispatcher.Groups.{mark_endpoint_bad, mark_bindings_bad}
use opc_server.Runtime.{ServerRuntime, EndpointPollState, Facades, idle_state, with_world}
use opc_server.Runtime.Start.{
  start, stop, each_transport, start_endpoints, start_endpoint, connected, start_opcua,
  finish_start, watched, start_made, or_stop, after_endpoints,
}

module _ {fl : Floats} {env : Env fl} where
  -- No transport, timer, poll state or subscription is left.
  pub record IsStopped (s : ServerRuntime env) : Type 0 where
    pub idle : s.started ≡ false
    pub transports : s.transports ≡ []
    pub states : s.endpoint_poll_state ≡ []
    pub timers : s.timers ≡ []
    pub reactor : s.reactor_running ≡ false
    pub subscription : s.historian_sub ≡ none

module _ {fl : Floats} (env : Env fl) (facades : Facades env) where
  stop-IsStopped : (s : ServerRuntime env) → IsStopped (stop env facades s)
  unfolding stop
  stop-IsStopped s = record {
    idle = refl;
    transports = refl;
    states = refl;
    timers = refl;
    reactor = refl;
    subscription = refl;
  }

  -- Every transport that the dispatcher is bound to is one of the runtime's.
  abbrev pub IsBound : ServerRuntime env → Type 0
  IsBound s =
      (id : String) (t : ℕ)
      → lookup id s.dispatcher.transports ≡ some (some t)
      → lookup id s.transports ≡ some (some t)

  -- An error comes with a runtime that was stopped.
  abbrev StopsOnError : Result (Unit {0}) × ServerRuntime env → Type 0
  StopsOnError (Result.ok _, s) = IsBound s
  StopsOnError (Result.err e, s) = (at : ServerRuntime env) × (s ≡ stop env facades at) × IsBound at

  StopsOnError-either :
      (x y : Result (Unit {0}) × ServerRuntime env) (b : Bool)
      → StopsOnError x
      → StopsOnError y
      → StopsOnError (if b then x else y)
  StopsOnError-either x y true h k = h
  StopsOnError-either x y false h k = k

  or_stop-StopsOnError :
      (out : Result (Unit {0}) × ServerRuntime env)
      (next : ServerRuntime env → Result (Unit {0}) × ServerRuntime env)
      → IsBound out.1
      → ((s : ServerRuntime env) → IsBound s → StopsOnError (next s))
      → StopsOnError (or_stop env facades out next)
  unfolding or_stop
  or_stop-StopsOnError (Result.err e, s) next bound h = (s, refl, bound)
  or_stop-StopsOnError (Result.ok _, s) next bound h = h s bound

  watched-IsBound :
      (s : ServerRuntime env) (sub : Option ℕ) (b : Bool)
      → IsBound s
      → IsBound (if b then watched env facades s sub else s)
  watched-IsBound s sub false bound = bound
  watched-IsBound s none true bound = bound
  watched-IsBound s (some id) true bound = bound

  finish_start-StopsOnError :
      (s : ServerRuntime env) → IsBound s → StopsOnError (finish_start env facades s)
  unfolding finish_start
  finish_start-StopsOnError s bound = watched-IsBound s s.historian_sub s.has_historian bound

  start_opcua-StopsOnError :
      (s : ServerRuntime env)
      → IsBound s
      → StopsOnError (start_opcua env facades s (finish_start env facades))
  unfolding start_opcua
  start_opcua-StopsOnError s bound = or_stop-StopsOnError _ _ bound (λ s2 bound2.
      or_stop-StopsOnError _ _ bound2 (λ s3 bound3. finish_start-StopsOnError s3 bound3))

  -- No id of an endpoint is another's, or is a transport's.
  abbrev pub AreNew : List Endpoint → List (String × Option ℕ) → Type 0
  AreNew [] m = Unit
  AreNew (ep ∷ eps) m =
      (lookup ep.id m ≡ none) × All (λ later. (ep.id =? later.id) ≡ false) eps × AreNew eps m

  AreNew-emplace :
      (id : String) (t : ℕ) (eps : List Endpoint) (m : List (String × Option ℕ))
      → lookup id m ≡ none
      → All (λ later. (id =? later.id) ≡ false) eps
      → AreNew eps m
      → AreNew eps (emplace id (some t) m)
  AreNew-emplace id t [] m free others h = tt
  AreNew-emplace id t (ep ∷ eps) m free (other, others) (new, apart, h) = (
    lookup-emplace id ep.id (some t) m free ∙ rw other new,
    apart,
    AreNew-emplace id t eps m free others h,
  )

  transports-marked :
      (bs : List (TagBinding fl.F64)) (d : State env) (ep : String) (why : QualityReason) (now : ℤ)
      → (mark_bindings_bad bs d ep why now).transports ≡ d.transports
  unfolding mark_bindings_bad publish_quality
  transports-marked [] d ep why now = refl
  transports-marked (b ∷ bs) d ep why now =
      transports-marked bs _ ep why now ∙ one (b.endpoint_id =? ep)
    where
      one :
          (c : Bool)
          → (if c then publish_quality d b.id bad why now none else d).transports ≡ d.transports
      one true = refl
      one false = refl

  connected-keeps :
      (s : ServerRuntime env) (ep : Endpoint) (state : EndpointPollState) (r : Result (Unit {0}))
      → ((connected env facades s ep state r).dispatcher.transports ≡ s.dispatcher.transports)
        × ((connected env facades s ep state r).transports ≡ s.transports)
  unfolding connected mark_endpoint_bad
  connected-keeps s ep state (Result.ok _) = (refl, refl)
  connected-keeps s ep state (Result.err e) =
      (transports-marked s.dispatcher.index.tags _ ep.id _ _, refl)

  start_endpoint-IsBound :
      (s : ServerRuntime env) (ep : Endpoint) (eps : List Endpoint) (t : ℕ)
      → IsBound s
      → AreNew (ep ∷ eps) s.transports
      → IsBound (start_endpoint env facades s ep t)
        × AreNew eps (start_endpoint env facades s ep t).transports
  unfolding start_endpoint bind_transport
  start_endpoint-IsBound s ep eps t bound (free, apart, new) =
      let (conn, w) =
        env.ports.connect t (record { host = ep.host; port = ep.port }) s.dispatcher.world in
      let s0 = with_world s w in
      let state = value_or (lookup ep.id s.endpoint_poll_state) idle_state in
      let (d_same, same) = connected-keeps s0 ep state conn in
      let after = connected env facades s0 ep state conn in
      (
        (λ id u e.
            lookup-emplace ep.id id (some t) after.transports (ap (lookup ep.id) same ∙ free)
            ∙ one id u (ep.id =? id)
                (ap (λ m. if ep.id =? id then some (some t) else lookup id m) (sym d_same)
                  ∙ sym (lookup-insert ep.id id (some t) after.dispatcher.transports)
                  ∙ e)
                after.transports same),
        subst (λ m. AreNew eps (emplace ep.id (some t) m)) (sym same)
            (AreNew-emplace ep.id t eps s.transports free apart new),
      )
    where
      one :
          (id : String) (u : ℕ) (c : Bool)
          → (if c then some (some t) else lookup id s.dispatcher.transports) ≡ some (some u)
          → (m : List (String × Option ℕ)) → m ≡ s.transports
          → (if c then some (some t) else lookup id m) ≡ some (some u)
      one id u true e m same = e
      one id u false e m same = ap (lookup id) same ∙ bound id u e

  start_endpoints-StopsOnError :
      (eps : List Endpoint) (s : ServerRuntime env)
      → IsBound s
      → AreNew eps s.transports
      → StopsOnError (start_endpoints env facades eps s)
  unfolding start_endpoints start_made
  start_endpoints-StopsOnError [] s bound new = bound
  start_endpoints-StopsOnError (ep ∷ eps) s bound new =
      at_made ((facades.transport_factory ep s.dispatcher.world).0)
        (with_world s ((facades.transport_factory ep s.dispatcher.world).1)) bound new
        (start_endpoints-StopsOnError eps)
    where
      at_made :
          (made : Option ℕ) (s1 : ServerRuntime env)
          → IsBound s1
          → AreNew (ep ∷ eps) s1.transports
          → ((s' : ServerRuntime env)
              → IsBound s'
              → AreNew eps s'.transports
              → StopsOnError (start_endpoints env facades eps s'))
          → StopsOnError (start_made env facades s1 ep made (start_endpoints env facades eps))
      at_made none s1 bound1 new1 rest = (s1, refl, bound1)
      at_made (some t) s1 bound1 new1 rest =
          let (bound2, new2) = start_endpoint-IsBound s1 ep eps t bound1 new1 in
          rest (start_endpoint env facades s1 ep t) bound2 new2

  after_endpoints-StopsOnError :
      (out : Result (Unit {0}) × ServerRuntime env)
      → StopsOnError out
      → StopsOnError (after_endpoints env facades out)
  after_endpoints-StopsOnError (Result.err e, s) h = h
  after_endpoints-StopsOnError (Result.ok _, s) h =
      StopsOnError-either _ (finish_start env facades s) s.has_opcua (start_opcua-StopsOnError s h)
        (finish_start-StopsOnError s h)

  start-StopsOnError :
      (s : ServerRuntime env)
      → IsBound s
      → AreNew s.dispatcher.index.project.endpoints s.transports
      → StopsOnError (start env facades s)
  unfolding start
  start-StopsOnError s bound new =
      StopsOnError-either (Result.ok tt, s) _ s.started bound
        (after_endpoints-StopsOnError
          (start_endpoints env facades s.dispatcher.index.project.endpoints s)
          (start_endpoints-StopsOnError s.dispatcher.index.project.endpoints s bound new))

module _ {fl : Floats} (env : Env fl) (facades : Facades env) (Closed : ℕ → env.W → Type 0)
    (closes : (t : ℕ) (w : env.W) → Closed t (facades.close t w))
    (keeps : (t u : ℕ) (w : env.W) → Closed t w → Closed t (facades.close u w)) where
  -- Every transport of a map that is not null is closed.
  abbrev pub AreClosed : List (String × Option ℕ) → env.W → Type 0
  AreClosed m w = All (λ entry. (t : ℕ) → entry.1 ≡ some t → Closed t w) m

  Closed-each_transport :
      (m : List (String × Option ℕ)) (t : ℕ) (w : env.W)
      → Closed t w
      → Closed t (each_transport env facades facades.close m w)
  unfolding each_transport
  Closed-each_transport [] t w h = h
  Closed-each_transport ((id, none) ∷ m) t w h = Closed-each_transport m t w h
  Closed-each_transport ((id, some u) ∷ m) t w h =
      Closed-each_transport m t (facades.close u w) (keeps t u w h)

  AreClosed-each_transport :
      (m : List (String × Option ℕ)) (w : env.W)
      → AreClosed m (each_transport env facades facades.close m w)
  unfolding each_transport
  AreClosed-each_transport [] w = tt
  AreClosed-each_transport ((id, none) ∷ m) w =
      ((λ t e. absurd (cc e)), AreClosed-each_transport m w)
  AreClosed-each_transport ((id, some u) ∷ m) w = (
    (λ t e.
        subst (λ x. Closed x (each_transport env facades facades.close m (facades.close u w)))
          (cc e) (Closed-each_transport m u (facades.close u w) (closes u w))),
    AreClosed-each_transport m (facades.close u w),
  )

  stop-AreClosed :
      (s : ServerRuntime env) → AreClosed s.transports (stop env facades s).dispatcher.world
  unfolding stop
  stop-AreClosed s = AreClosed-each_transport s.transports _

  AreClosed-lookup :
      (m : List (String × Option ℕ)) (w : env.W) (id : String) (t : ℕ)
      → AreClosed m w
      → lookup id m ≡ some (some t)
      → Closed t w
  unfolding lookup
  AreClosed-lookup [] w id t h e = absurd (cc e)
  AreClosed-lookup ((j, o) ∷ m) w id t (h, hs) e = elim (Bool-cases (j =? id)) [
    | inl here ↦ h t (cc (subst (λ b. (if b then some o else lookup id m) ≡ some (some t)) here e))
    | inr there ↦
        AreClosed-lookup m w id t hs
          (subst (λ b. (if b then some o else lookup id m) ≡ some (some t)) there e)
  ]

  -- Where closing a transport closes it and leaves the others that are closed so, and no two
  -- endpoints of the project have one id or that of a transport of before: a start that returns an
  -- error leaves no transport, poll state, timer or subscription, and every transport that the
  -- dispatcher is bound to is closed, if those it was bound to before were the runtime's.
  pub start-IsStopped :
      (s after : ServerRuntime env) (e : Error)
      → IsBound env facades s
      → AreNew env facades s.dispatcher.index.project.endpoints s.transports
      → start env facades s ≡ (Result.err e, after)
      → IsStopped after
        × ((id : String) (t : ℕ)
            → lookup id after.dispatcher.transports ≡ some (some t)
            → Closed t after.dispatcher.world)
  unfolding stop
  start-IsStopped s after e bound new h =
      let (at, same, held) : (at : ServerRuntime env) × (after ≡ stop env facades at)
          × IsBound env facades at =
        subst (StopsOnError env facades) h (start-StopsOnError env facades s bound new) in
      (
        subst IsStopped (sym same) (stop-IsStopped env facades at),
        subst
            (λ x.
              (id : String) (t : ℕ)
              → lookup id x.dispatcher.transports ≡ some (some t)
              → Closed t x.dispatcher.world)
            (sym same)
            (λ id t e. AreClosed-lookup at.transports _ id t (stop-AreClosed at) (held id t e)),
      )
