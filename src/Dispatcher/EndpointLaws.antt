-- ===== src/Dispatcher/EndpointLaws.antt =====
-- What a poll of an endpoint leaves when the endpoint cannot be reached.
use mathlib.Core.Option
use opc_server.Prelude.{
  ℕ, ◌≡◌, refl, sym, ap, ◌∙◌, subst, List, [], ◌∷◌, Option, none, some, Bool, true, false, ◌&&◌,
  ◌||◌, if◌then◌else◌, ◌==◌, String, Bool-cases, inl, inr,
}
use opc_server.Prelude.Int.{ℤ}
use opc_server.Prelude.Eq.{◌=?◌, string_eq, nat_eq}
use opc_server.Prelude.Map.{lookup-insert}
use opc_server.Domain.{bad, QualityReason, TagValue, Result, Error, ErrorCode, with_quality}
use opc_server.Project.{Endpoint}
use opc_server.Platform.{Floats}
use opc_server.Index.{TagBinding, endpoint}
use opc_server.TagStore
use opc_server.Dispatcher.State.{
  State, Env, Dispatcher, publish_quality, transport_of, dispatcher_error,
}
use opc_server.Dispatcher.Groups.{mark_bindings_bad, mark_endpoint_bad}
use opc_server.Dispatcher.Poll.{poll_due, poll_due_async, poll_due_with, connect_with, flush_with}

-- Whether a binding of the list is on the endpoint and has the id.
unfoldable pub is_marked : {F64 : Type 0} → List (TagBinding F64) → String → ℕ → Bool
is_marked [] endpoint_id j = false
is_marked (b ∷ bs) endpoint_id j =
    (b.endpoint_id =? endpoint_id && b.id == j) || is_marked bs endpoint_id j

module _ {V : Type 0} where
  -- What marking makes of a tag's value: bad for the reason, or as it was.
  abbrev pub Marks : QualityReason → Bool → Option (TagValue V) → Option (TagValue V) → Type 0
  Marks why true old new =
      (Option.map (λ v. v.quality) new ≡ some bad) × (Option.map (λ v. v.reason) new ≡ some why)
  Marks why false old new = new ≡ old

  Marks-then :
      (why : QualityReason) (m n : Bool) (old mid new : Option (TagValue V))
      → Marks why m old mid
      → Marks why n mid new
      → Marks why (m || n) old new
  Marks-then why true true old mid new h g = g
  Marks-then why true false old mid new h g =
      (ap (Option.map (λ v. v.quality)) g ∙ h.0, ap (Option.map (λ v. v.reason)) g ∙ h.1)
  Marks-then why false true old mid new h g = g
  Marks-then why false false old mid new h g = g ∙ h

module _ {fl : Floats} {H W : Type 0} where
  Marks-one :
      (s : Dispatcher fl H W) (b : TagBinding fl.F64) (why : QualityReason) (now : ℤ) (j : ℕ)
      (c : Bool)
      → s.has_tag_store ≡ true
      → Marks why
          (c && b.id == j)
          (TagStore.get s.store j)
          (TagStore.get (if c then publish_quality s b.id bad why now none else s).store j)
  unfolding publish_quality TagStore.publish TagStore.get with_quality
  Marks-one s b why now j false h = refl
  Marks-one s b why now j true h = rw h (elim (Bool-cases (b.id == j)) [
    | inl e ↦ rw (e, lookup-insert b.id j _ s.store.values, e) (refl, refl)
    | inr e ↦ rw (e, lookup-insert b.id j _ s.store.values, e) refl
  ])

  has_tag_store_one :
      (s : Dispatcher fl H W) (b : TagBinding fl.F64) (why : QualityReason) (now : ℤ) (c : Bool)
      → (if c then publish_quality s b.id bad why now none else s).has_tag_store ≡ s.has_tag_store
  unfolding publish_quality
  has_tag_store_one s b why now true = refl
  has_tag_store_one s b why now false = refl

  mark_bindings_bad_lem :
      (bs : List (TagBinding fl.F64)) (s : Dispatcher fl H W) (ep : String) (why : QualityReason)
      (now : ℤ) (j : ℕ)
      → s.has_tag_store ≡ true
      → Marks why
          (is_marked bs ep j)
          (TagStore.get s.store j)
          (TagStore.get (mark_bindings_bad bs s ep why now).store j)
  unfolding mark_bindings_bad is_marked
  mark_bindings_bad_lem [] s ep why now j h = refl
  mark_bindings_bad_lem (b ∷ bs) s ep why now j h =
      let on = b.endpoint_id =? ep in
      Marks-then why (on && b.id == j) (is_marked bs ep j) _ _ _ (Marks-one s b why now j on h) (
        mark_bindings_bad_lem bs (if on then publish_quality s b.id bad why now none else s) ep why
          now j (has_tag_store_one s b why now on ∙ h))

  publish_quality_keeps :
      (s : Dispatcher fl H W) (id : ℕ) (why : QualityReason) (now : ℤ)
      → ((publish_quality s id bad why now none).write_queues ≡ s.write_queues)
        × ((publish_quality s id bad why now none).last_poll_ms ≡ s.last_poll_ms)
  unfolding publish_quality
  publish_quality_keeps s id why now = (refl, refl)

  pub mark_bindings_bad_keeps :
      (bs : List (TagBinding fl.F64)) (s : Dispatcher fl H W) (ep : String) (why : QualityReason)
      (now : ℤ)
      → ((mark_bindings_bad bs s ep why now).write_queues ≡ s.write_queues)
        × ((mark_bindings_bad bs s ep why now).last_poll_ms ≡ s.last_poll_ms)
  unfolding mark_bindings_bad
  mark_bindings_bad_keeps [] s ep why now = (refl, refl)
  mark_bindings_bad_keeps (b ∷ bs) s ep why now =
      let s1 : Dispatcher fl H W =
        if b.endpoint_id =? ep then publish_quality s b.id bad why now none else s in
      let (q, l) = mark_bindings_bad_keeps bs s1 ep why now in
      let (q1, l1) = one (b.endpoint_id =? ep) in (q ∙ q1, l ∙ l1)
    where
      one :
          (c : Bool)
          → ((if c then publish_quality s b.id bad why now none else s).write_queues
              ≡ s.write_queues)
            × ((if c then publish_quality s b.id bad why now none else s).last_poll_ms
                ≡ s.last_poll_ms)
      one true = publish_quality_keeps s b.id why now
      one false = (refl, refl)

module _ {fl : Floats} (env : Env fl) where
  open env use {W, ports}

  poll_due_with_refused :
      (poll : State env → ℕ → Result (Unit {0}) × State env) (s : State env) (ep : String) (now : ℤ)
      (t : ℕ) (address : Endpoint) (e : Error) (w : W)
      → transport_of s ep ≡ some t
      → ports.is_connected t s.world ≡ false
      → endpoint s.index ep ≡ some address
      → ports.connect t (record { host = address.host; port = address.port }) s.world
        ≡ (Result.err e, w)
      → poll_due_with env poll s ep now ≡ (
        Result.err e,
        mark_endpoint_bad (record s { world = w }) ep QualityReason.no_communication now,
      )
  unfolding poll_due_with connect_with
  poll_due_with_refused poll s ep now t address e w bound off known refused =
      ap at_bound bound
      ∙ ap at_connected off
      ∙ ap (connect_with env s ep t now (go t)) known
      ∙ ap answered refused
    where
      go : ℕ → State env → Result (Unit {0}) × State env
      go t' s' = flush_with env (λ s''. poll s'' t') s' ep

      at_bound : Option ℕ → Result (Unit {0}) × State env
      at_bound o = elim o [
        | none ↦ (Result.err (dispatcher_error ErrorCode.not_found "transport not bound"), s)
        | some t' ↦ elim (ports.is_connected t' s.world) [
          | true ↦ go t' s
          | false ↦ connect_with env s ep t' now (go t') (endpoint s.index ep)
        ]
      ]

      at_connected : Bool → Result (Unit {0}) × State env
      at_connected c = elim c [
        | true ↦ go t s
        | false ↦ connect_with env s ep t now (go t) (endpoint s.index ep)
      ]

      answered : Result (Unit {0}) × W → Result (Unit {0}) × State env
      answered (conn, w') = elim conn [
        | Result.err e' ↦ (
          Result.err e',
          mark_endpoint_bad (record s { world = w' }) ep QualityReason.no_communication now,
        )
        | Result.ok _ ↦ go t (record s { world = w' })
      ]

  -- If an endpoint's transport is not connected and connecting it returns an error, then both
  -- variants return that error and leave the same state: each tag of the endpoint reads Bad for
  -- NoCommunication, every other tag reads what it did, and no queue and no poll time changes.
  pub poll_due-mark_endpoint_bad :
      (s : State env) (ep : String) (now : ℤ) (t : ℕ) (address : Endpoint) (e : Error) (w : W)
      → s.has_tag_store ≡ true
      → transport_of s ep ≡ some t
      → ports.is_connected t s.world ≡ false
      → endpoint s.index ep ≡ some address
      → ports.connect t (record { host = address.host; port = address.port }) s.world
        ≡ (Result.err e, w)
      → (poll_due_async env s ep now ≡ poll_due env s ep now)
        × ((poll_due env s ep now).0 ≡ Result.err e)
        × ((j : ℕ)
            → Marks QualityReason.no_communication
                (is_marked s.index.tags ep j)
                (TagStore.get s.store j)
                (TagStore.get (poll_due env s ep now).1.store j))
        × ((poll_due env s ep now).1.write_queues ≡ s.write_queues)
        × ((poll_due env s ep now).1.last_poll_ms ≡ s.last_poll_ms)
  unfolding poll_due poll_due_async mark_endpoint_bad
  poll_due-mark_endpoint_bad s ep now t address e w h bound off known refused =
      let same : (poll : State env → ℕ → Result (Unit {0}) × State env)
          → poll_due_with env poll s ep now ≡ (Result.err e, s') =
        λ poll. poll_due_with_refused poll s ep now t address e w bound off known refused in
      let (queues, times) =
        mark_bindings_bad_keeps s.index.tags (record s { world = w }) ep
          QualityReason.no_communication now in
      let (answer, marked, same_queues, same_times) = subst After (sym (same _)) (
        refl,
        λ j.
            mark_bindings_bad_lem s.index.tags (record s { world = w }) ep
              QualityReason.no_communication now j h,
        queues,
        times,
      ) in
      (same _ ∙ sym (same _), answer, marked, same_queues, same_times)
    where
      s' : State env
      s' =
          mark_bindings_bad s.index.tags (record s { world = w }) ep QualityReason.no_communication
            now

      After : Result (Unit {0}) × State env → Type 0
      After r =
          (r.0 ≡ Result.err e)
          × ((j : ℕ)
              → Marks QualityReason.no_communication (is_marked s.index.tags ep j)
                  (TagStore.get s.store j) (TagStore.get r.1.store j))
          × (r.1.write_queues ≡ s.write_queues)
          × (r.1.last_poll_ms ≡ s.last_poll_ms)
