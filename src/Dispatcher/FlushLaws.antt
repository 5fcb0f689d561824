-- ===== src/Dispatcher/FlushLaws.antt =====
-- flush_writes: its loop, and the queue before and after it.
use opc_server.Prelude.{
  ℕ, zero, suc, ◌≡◌, ◌≤◌, ◌∙◌, refl, sym, ap, subst, List, [], ◌∷◌, ◌++◌, Option, none, some,
  if◌then◌else◌, String, arith, length,
}
use mathlib.Core.List.{append_assoc, append-nil}
use opc_server.Prelude.Int.{ℤ, pos}
use opc_server.Prelude.Eq.{=?-refl, string_eq}
use opc_server.Dispatcher.WriteLaws.{queue_of-set_queue}
use opc_server.Domain.{Result, ErrorCode}
use opc_server.Platform.{Floats}
use opc_server.Dispatcher.State.{State, Env, dispatcher_error, transport_of, emit}
use opc_server.Dispatcher.Writes.{
  Write, queue_of, set_queue, requeue, Round, flush_round, flush_loop, flush_batch, flush_writes,
  depth_event,
}
use opc_server.Dispatcher.Groups.{is_empty}
use opc_server.Dispatcher.FlushRounds.{
  IsSuffix, IsSuffix-cons, length-IsSuffix, RoundLeaves, round_leaves, queue_of-requeue,
}

module _ {fl : Floats} (env : Env fl) where
  -- What a flush leaves of the queue, for a batch and the queue that has come since.
  abbrev pub FlushLeaves :
      State env → String → List (Write env) → Result (Unit {0}) × State env → Type 0
  FlushLeaves s ep batch (Result.ok _, s') = queue_of env s' ep ≡ queue_of env s ep
  FlushLeaves s ep batch (Result.err e, s') =
      (after : List (Write env)) × IsSuffix env after batch
      × (queue_of env s' ep ≡ after ++ queue_of env s ep)

  -- What a flush makes of a queue.
  abbrev pub Kept : List (Write env) → Result (Unit {0}) → List (Write env) → Type 0
  Kept before (Result.ok _) after = after ≡ []
  Kept before (Result.err e) after = IsSuffix env after before

  after_round :
      (s s' : State env) (ep : String) (p : Write env) (rest left : List (Write env))
      (r : Result (Unit {0}) × State env)
      → IsSuffix env left rest
      → queue_of env s' ep ≡ queue_of env s ep
      → FlushLeaves s' ep left r
      → FlushLeaves s ep (p ∷ rest) r
  after_round s s' ep p rest left (Result.ok _, s'') h same q = q ∙ same
  after_round s s' ep p rest left (Result.err e, s'') (front, h) same (after, (front', h'), q) = (
    after,
    (
      p ∷ (front ++ front'),
      ap (λ zs. p ∷ zs) (append_assoc front front' after ∙ ap (λ zs. front ++ zs) h' ∙ h),
    ),
    q ∙ ap (λ zs. after ++ zs) same,
  )

  -- A round of the loop, given what the loop does next.
  abbrev pub then_loop :
      Round env
      → (State env → List (Write env) → Result (Unit {0}) × State env)
      → Result (Unit {0}) × State env
  then_loop (ended, left, s') next = elim ended [
    | some e ↦ (Result.err e, s')
    | none ↦ next s' left
  ]

  then_loop_leaves :
      (s : State env) (ep : String) (p : Write env) (rest : List (Write env)) (r : Round env)
      (next : State env → List (Write env) → Result (Unit {0}) × State env)
      → RoundLeaves env s ep rest r
      → ((s' : State env) (left : List (Write env)) → FlushLeaves s' ep left (next s' left))
      → FlushLeaves s ep (p ∷ rest) (then_loop r next)
  then_loop_leaves s ep p rest (some e, left, s') next (after, h, q) ih =
      (after, IsSuffix-cons env p after rest h, q)
  then_loop_leaves s ep p rest (none, left, s') next (h, q) ih =
      after_round s s' ep p rest left (next s' left) h q (ih s' left)

  flush_loop_leaves :
      (fuel : ℕ) (s : State env) (ep : String) (t : ℕ) (now : ℤ) (batch : List (Write env))
      → FlushLeaves s ep batch (flush_loop env fuel s ep t now batch)
  unfolding flush_loop
  flush_loop_leaves zero s ep t now batch = flush_none batch
    where
      flush_none : (batch : List (Write env)) → FlushLeaves s ep batch (Result.ok tt, s)
      flush_none batch = refl
  flush_loop_leaves (suc fuel) s ep t now [] = refl
  flush_loop_leaves (suc fuel) s ep t now (p ∷ rest) =
      then_loop_leaves s ep p rest (flush_round env s ep t now p rest)
        (λ s' left. flush_loop env fuel s' ep t now left) (round_leaves env s ep t now p rest)
        (λ s' left. flush_loop_leaves fuel s' ep t now left)

  then_loop_same :
      (s : State env) (ep : String) (rest : List (Write env)) (r : Round env)
      (next next' : State env → List (Write env) → Result (Unit {0}) × State env)
      → RoundLeaves env s ep rest r
      → ((s' : State env) (left : List (Write env))
          → length left ≤ length rest
          → next s' left ≡ next' s' left)
      → then_loop r next ≡ then_loop r next'
  then_loop_same s ep rest (some e, left, s') next next' _ same = refl
  then_loop_same s ep rest (none, left, s') next next' (h, _) same =
      same s' left (length-IsSuffix env left rest h)

  flush_loop_same :
      (k m : ℕ) (s : State env) (ep : String) (t : ℕ) (now : ℤ) (batch : List (Write env))
      → length batch ≤ k
      → length batch ≤ m
      → flush_loop env k s ep t now batch ≡ flush_loop env m s ep t now batch
  unfolding flush_loop
  flush_loop_same zero zero s ep t now batch h h' = refl
  flush_loop_same zero (suc m) s ep t now [] h h' = refl
  flush_loop_same (suc k) zero s ep t now [] h h' = refl
  flush_loop_same (suc k) (suc m) s ep t now [] h h' = refl
  flush_loop_same zero (suc m) s ep t now (p ∷ rest) h h' =
      let no : ⊥ = omega (arith, h) in elim no [ ]
  flush_loop_same (suc k) zero s ep t now (p ∷ rest) h h' =
      let no : ⊥ = omega (arith, h') in elim no [ ]
  flush_loop_same (suc k) (suc m) s ep t now (p ∷ rest) h h' =
      then_loop_same s ep rest (flush_round env s ep t now p rest)
        (λ s' left. flush_loop env k s' ep t now left)
        (λ s' left. flush_loop env m s' ep t now left) (round_leaves env s ep t now p rest)
        (λ s' left n. flush_loop_same k m s' ep t now left (omega arith) (omega arith))

  -- The fuel that flush_writes gives its loop is enough: with any greater fuel the loop comes to
  -- the same result and the same state.
  pub flush_loop-length :
      (k : ℕ) (s : State env) (ep : String) (t : ℕ) (now : ℤ) (batch : List (Write env))
      → length batch ≤ k
      → flush_loop env k s ep t now batch ≡ flush_loop env (length batch) s ep t now batch
  flush_loop-length k s ep t now batch h =
      flush_loop_same k (length batch) s ep t now batch h (omega arith)

  FlushLeaves-Kept :
      (s : State env) (ep : String) (batch : List (Write env)) (r : Result (Unit {0}) × State env)
      → queue_of env s ep ≡ []
      → FlushLeaves s ep batch r
      → Kept batch r.0 (queue_of env r.1 ep)
  FlushLeaves-Kept s ep batch (Result.ok _, s') h q = q ∙ h
  FlushLeaves-Kept s ep batch (Result.err e, s') h (after, (front, whole), q) =
      (front, ap (λ zs. front ++ zs) (q ∙ ap (λ zs. after ++ zs) h ∙ append-nil after) ∙ whole)

  flush_batch-Kept :
      (s : State env) (ep : String) (batch : List (Write env))
      → queue_of env s ep ≡ []
      → Kept batch (flush_batch env s ep batch).0 (queue_of env (flush_batch env s ep batch).1 ep)
  unfolding flush_batch
  flush_batch-Kept s ep batch h =
      elim (transport_of s ep)
        as (λ bound. Kept batch (at_bound bound).0 (queue_of env (at_bound bound).1 ep)) [
          | none ↦
              ([], queue_of-requeue env s ep batch ∙ ap (λ zs. batch ++ zs) h ∙ append-nil batch)
          | some t ↦
              FlushLeaves-Kept s ep batch (at_bound (some t)) h
                (flush_loop_leaves (length batch) at_clock ep t now' batch)
        ]
    where
      now' : ℤ
      now' = if s.has_clock then (env.ports.now_ms s.world).0 else pos 0

      at_clock : State env
      at_clock = record s { world = if s.has_clock then (env.ports.now_ms s.world).1 else s.world }

      at_bound : Option ℕ → Result (Unit {0}) × State env
      at_bound bound = elim bound [
        | none ↦ (
          Result.err (dispatcher_error ErrorCode.not_found "transport not bound"),
          requeue env s ep batch,
        )
        | some t ↦ flush_loop env (length batch) at_clock ep t now' batch
      ]

  flush_batch_unbound :
      (s : State env) (ep : String) (batch : List (Write env))
      → transport_of s ep ≡ none
      → flush_batch env s ep batch ≡ (
        Result.err (dispatcher_error ErrorCode.not_found "transport not bound"),
        requeue env s ep batch,
      )
  unfolding flush_batch
  flush_batch_unbound s ep batch h = ap at_bound h
    where
      at_bound : Option ℕ → Result (Unit {0}) × State env
      at_bound bound = elim bound [
        | none ↦ (
          Result.err (dispatcher_error ErrorCode.not_found "transport not bound"),
          requeue env s ep batch,
        )
        | some t ↦
            let (now, w) = env.ports.now_ms s.world in
            let now' = if s.has_clock then now else pos 0 in
            let s' = record s { world = if s.has_clock then w else s.world } in
            flush_loop env (length batch) s' ep t now' batch
      ]

  -- After a flush that returns no error the endpoint's queue is empty; after one that returns an
  -- error the queue is what it was less some part of its front, in the same order.
  pub flush_writes_lem :
      (s : State env) (ep : String)
      → Kept
          (queue_of env s ep)
          (flush_writes env s ep).0
          (queue_of env (flush_writes env s ep).1 ep)
  unfolding flush_writes
  flush_writes_lem s ep = go (queue_of env s ep) refl
    where
      done : List (Write env) → Result (Unit {0}) × State env
      done queue = elim queue [
        | [] ↦ (Result.ok tt, s)
        | p ∷ ps ↦ flush_batch env (emit (set_queue env s ep []) (depth_event env 0)) ep (p ∷ ps)
      ]

      go :
          (queue : List (Write env))
          → queue_of env s ep ≡ queue
          → Kept queue (done queue).0 (queue_of env (done queue).1 ep)
      go [] h = h
      go (p ∷ ps) h =
          flush_batch-Kept (emit (set_queue env s ep []) (depth_event env 0)) ep (p ∷ ps)
            (queue_of-set_queue env s ep ep [] ∙ rw (=?-refl ep) refl)

  -- If no transport is bound to the endpoint, a flush calls no write of a transport and leaves the
  -- endpoint's queue as it was; it returns an error unless the queue was empty.
  pub flush_writes-transport_of_none :
      (s : State env) (ep : String)
      → transport_of s ep ≡ none
      → ((flush_writes env s ep).0 ≡ (
          if is_empty (queue_of env s ep)
          then Result.ok tt
          else Result.err (dispatcher_error ErrorCode.not_found "transport not bound")))
        × ((flush_writes env s ep).1.world ≡ s.world)
        × (queue_of env (flush_writes env s ep).1 ep ≡ queue_of env s ep)
  unfolding flush_writes flush_batch requeue
  flush_writes-transport_of_none s ep unbound = go (queue_of env s ep) refl
    where
      done : List (Write env) → Result (Unit {0}) × State env
      done queue = elim queue [
        | [] ↦ (Result.ok tt, s)
        | p ∷ ps ↦ flush_batch env (emit (set_queue env s ep []) (depth_event env 0)) ep (p ∷ ps)
      ]

      Same : List (Write env) → Result (Unit {0}) × State env → Type 0
      Same queue r =
          (r.0 ≡ (
            if is_empty queue
            then Result.ok tt
            else Result.err (dispatcher_error ErrorCode.not_found "transport not bound")))
          × (r.1.world ≡ s.world)
          × (queue_of env r.1 ep ≡ queue)

      go : (queue : List (Write env)) → queue_of env s ep ≡ queue → Same queue (done queue)
      go [] h = (refl, refl, h)
      go (p ∷ ps) h =
          let s0 : State env = emit (set_queue env s ep []) (depth_event env 0) in
          let none_left : queue_of env s0 ep ≡ [] =
            queue_of-set_queue env s ep ep [] ∙ rw (=?-refl ep) refl in
          subst (Same (p ∷ ps)) (sym (flush_batch_unbound s0 ep (p ∷ ps) unbound)) (
            refl,
            refl,
            queue_of-requeue env s0 ep (p ∷ ps)
                ∙ ap (λ zs. (p ∷ ps) ++ zs) none_left
                ∙ append-nil (p ∷ ps),
          )
