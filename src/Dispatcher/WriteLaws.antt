-- ===== src/Dispatcher/WriteLaws.antt =====
-- The queues of writes: their bound, and what enqueue_write adds.
use opc_server.Prelude.{
  ℕ, ◌+◌, ◌≡◌, ◌≤◌, ◌∙◌, refl, ap, List, [], ◌∷◌, ◌++◌, Option, none, some, true, leb,
  if◌then◌else◌, String, arith, length, length-append, Bool-cases, inl, inr,
}
use opc_server.Prelude.Eq.{◌=?◌, string_eq}
use opc_server.Prelude.Map.{lookup-insert}
use opc_server.Domain.{Result, ErrorCode}
use opc_server.Platform.{Floats}
use opc_server.Index.{TagBinding, find_by_id}
use opc_server.Translator.Codec.{Scalar}
use opc_server.Dispatcher.State.{State, Env, dispatcher_error}
use opc_server.Dispatcher.Writes.{
  max_write_queue_depth, Write, queue_of, set_queue, enqueue_bound, enqueue_write,
}

module _ {fl : Floats} (env : Env fl) where
  -- No queue is longer than the limit.
  abbrev pub IsBounded : State env → Type 0
  IsBounded s = (ep : String) → length (queue_of env s ep) ≤ max_write_queue_depth

  pub queue_of-set_queue :
      (s : State env) (k j : String) (q : List (Write env))
      → queue_of env (set_queue env s k q) j ≡ (if k =? j then q else queue_of env s j)
  queue_of-set_queue s k j q = elim (Bool-cases (k =? j)) [
    | inl e ↦ rw (lookup-insert k j q s.write_queues, e) refl
    | inr e ↦ rw (lookup-insert k j q s.write_queues, e) refl
  ]

  -- What enqueue_write does to the queues: none of them changes on an error, and on success the
  -- write comes last in the queue of its tag's endpoint, which was not full.
  abbrev pub Enqueues : State env → ℕ → Scalar fl → Result (Unit {0}) → State env → Type 0
  Enqueues s id v (Result.err e) s' = (ep : String) → queue_of env s' ep ≡ queue_of env s ep
  Enqueues s id v (Result.ok _) s' =
      (b : TagBinding fl.F64) × (find_by_id s.index id ≡ some b)
      × (b.tag.writable ≡ true)
      × (length (queue_of env s b.endpoint_id) + 1 ≤ max_write_queue_depth)
      × ((ep : String)
          → queue_of env s' ep ≡ (
              if b.endpoint_id =? ep
              then queue_of env s b.endpoint_id ++ record { tag_id = id; value = v } ∷ []
              else queue_of env s ep))

  set_queue_same :
      (s : State env) (k ep : String)
      → queue_of env (set_queue env s k (queue_of env s k)) ep ≡ queue_of env s ep
  set_queue_same s k ep =
      queue_of-set_queue s k ep (queue_of env s k)
      ∙ ground (arith, string_eq.beq_iff k ep, ap (queue_of env s) {x = k} {y = ep})

  enqueue_bound_lem :
      (s : State env) (b : TagBinding fl.F64) (id : ℕ) (v : Scalar fl)
      → find_by_id s.index id ≡ some b
      → Enqueues s id v (enqueue_bound env s b id v).0 (enqueue_bound env s b id v).1
  unfolding enqueue_bound
  enqueue_bound_lem s b id v h = elim (Bool-cases b.tag.writable) [
    | inr e ↦ rw e (λ ep. refl)
    | inl e ↦
        elim (Bool-cases (leb max_write_queue_depth (length (queue_of env s b.endpoint_id)))) [
          | inl f ↦ rw (e, f) (λ ep. set_queue_same s b.endpoint_id ep)
          | inr f ↦ rw (e, f) (b, h, e, ground arith, λ ep. queue_of-set_queue s b.endpoint_id ep _)
        ]
  ]

  -- Of every request to write: on an error no queue changes; a request that succeeds is of a
  -- writable tag whose endpoint's queue was not full, it comes last in that queue, and no other
  -- queue changes.
  pub enqueue_write_lem :
      (s : State env) (id : ℕ) (v : Scalar fl)
      → Enqueues s id v (enqueue_write env s id v).0 (enqueue_write env s id v).1
  unfolding enqueue_write
  enqueue_write_lem s id v = go (find_by_id s.index id) refl
    where
      unknown : Result (Unit {0}) × State env
      unknown = (Result.err (dispatcher_error ErrorCode.not_found "unknown tag"), s)

      done : Option (TagBinding fl.F64) → Result (Unit {0}) × State env
      done found = elim found [ none ↦ unknown | some b ↦ enqueue_bound env s b id v ]

      go :
          (found : Option (TagBinding fl.F64))
          → find_by_id s.index id ≡ found
          → Enqueues s id v (done found).0 (done found).1
      go none h = λ ep. refl
      go (some b) h = enqueue_bound_lem s b id v h

  IsBounded-Enqueues :
      (s s' : State env) (id : ℕ) (v : Scalar fl) (r : Result (Unit {0}))
      → Enqueues s id v r s'
      → IsBounded s
      → IsBounded s'
  IsBounded-Enqueues s s' id v (Result.err e) same h ep = rw (same ep) (h ep)
  IsBounded-Enqueues s s' id v (Result.ok _) (b, _, _, room, queues) h ep =
      elim (Bool-cases (b.endpoint_id =? ep)) [
        | inl e ↦
            rw (queues ep, e)
              (omega (
                arith,
                room,
                length-append (queue_of env s b.endpoint_id)
                    (record { tag_id = id; value = v } ∷ []),
              ))
        | inr e ↦ rw (queues ep, e) (h ep)
      ]

  -- If no queue is longer than 1024 writes, none is after a request to write.
  pub enqueue_write-IsBounded :
      (s : State env) (id : ℕ) (v : Scalar fl)
      → IsBounded s
      → IsBounded (enqueue_write env s id v).1
  enqueue_write-IsBounded s id v h =
      IsBounded-Enqueues s (enqueue_write env s id v).1 id v (enqueue_write env s id v).0
        (enqueue_write_lem s id v) h
