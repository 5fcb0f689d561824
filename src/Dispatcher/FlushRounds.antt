-- ===== src/Dispatcher/FlushRounds.antt =====
-- One round of a flush: what it leaves of the batch and of the queue.
use opc_server.Prelude.{
  ℕ, ◌≡◌, ◌≤◌, ◌∙◌, refl, ap, List, [], ◌∷◌, ◌++◌, Option, none, some, Bool, true, false, String,
  arith, length, length-append, Bool-cases, inl, inr,
}
use opc_server.Prelude.Int.{ℤ, pos, ◌+ℤ◌}
use opc_server.Prelude.Eq.{=?-refl, string_eq}
use opc_server.Dispatcher.WriteLaws.{queue_of-set_queue}
use opc_server.Domain.{good, QualityReason, Result}
use opc_server.Project.{Area}
use opc_server.Platform.{Floats}
use opc_server.Index.{RuntimeIndex, TagBinding, find_by_id}
use opc_server.Translator.Codec.{encode}
use opc_server.Dispatcher.State.{State, Env, publish_quality}
use opc_server.Dispatcher.Groups.{same_area}
use opc_server.Dispatcher.Writes.{
  Write, queue_of, requeue, as_bits, Run, joined, failed, joins, join_coils, Round, finish_write,
  fail_write, round_coils, round_encoded, flush_round, publish_written,
}

module _ {fl : Floats} (env : Env fl) where
  -- What is left of a list when some front part is taken.
  abbrev pub IsSuffix : List (Write env) → List (Write env) → Type 0
  IsSuffix left all = (front : List (Write env)) × (front ++ left ≡ all)

  pub IsSuffix-cons :
      (p : Write env) (xs ys : List (Write env)) → IsSuffix xs ys → IsSuffix xs (p ∷ ys)
  IsSuffix-cons p xs ys (front, h) = (p ∷ front, ap (λ zs. p ∷ zs) h)

  pub length-IsSuffix : (xs ys : List (Write env)) → IsSuffix xs ys → length xs ≤ length ys
  length-IsSuffix xs ys (front, h) = omega (arith, ap (λ zs. length zs) h, length-append front xs)

  abbrev pub left_of : Run env → List (Write env)
  left_of (joined bits taken left) = left
  left_of (failed p e after) = after

  IsSuffix-join_coils :
      (index : RuntimeIndex fl.F64) (unit : ℕ) (next_addr : ℤ) (bits : List ℕ)
      (taken ps : List (Write env))
      → IsSuffix (left_of (join_coils env index unit next_addr bits taken ps)) ps
  unfolding join_coils
  IsSuffix-join_coils index unit next_addr bits taken [] = ([], refl)
  IsSuffix-join_coils index unit next_addr bits taken (p ∷ ps) =
      elim (find_by_id index p.tag_id) as (λ found. IsSuffix (left_of (at_found found)) (p ∷ ps)) [
        | none ↦ ([], refl)
        | some b ↦
            elim (joins env b unit next_addr) as (λ j. IsSuffix (left_of (at_join b j)) (p ∷ ps)) [
              | false ↦ ([], refl)
              | true ↦
                  elim (encode fl b.tag p.value)
                    as (λ r. IsSuffix (left_of (at_encoded r)) (p ∷ ps)) [
                      | Result.err e ↦ (p ∷ [], refl)
                      | Result.ok regs ↦ IsSuffix-cons p _ ps (
                          IsSuffix-join_coils index unit (next_addr +ℤ pos (length regs))
                            (bits ++ as_bits env regs) (taken ++ p ∷ []) ps)
                    ]
            ]
      ]
    where
      at_encoded : Result (List ℕ) → Run env
      at_encoded r = elim r [
        | Result.err e ↦ failed p e ps
        | Result.ok regs ↦
            join_coils env index unit (next_addr +ℤ pos (length regs)) (bits ++ as_bits env regs)
              (taken ++ p ∷ []) ps
      ]

      at_join : TagBinding fl.F64 → Bool → Run env
      at_join b j = elim j [
        | false ↦ joined bits taken (p ∷ ps)
        | true ↦ at_encoded (encode fl b.tag p.value)
      ]

      at_found : Option (TagBinding fl.F64) → Run env
      at_found found = elim found [
        | none ↦ joined bits taken (p ∷ ps)
        | some b ↦ at_join b (joins env b unit next_addr)
      ]

  -- What a round leaves of the writes after its first, and of the queue.
  abbrev pub RoundLeaves : State env → String → List (Write env) → Round env → Type 0
  RoundLeaves s ep rest (none, left, s') =
      IsSuffix left rest × (queue_of env s' ep ≡ queue_of env s ep)
  RoundLeaves s ep rest (some e, left, s') =
      (after : List (Write env)) × IsSuffix after rest
      × (queue_of env s' ep ≡ after ++ queue_of env s ep)

  queue_of-publish_written :
      (ps : List (Write env)) (s : State env) (ep : String) (now : ℤ)
      → queue_of env (publish_written env s now ps) ep ≡ queue_of env s ep
  unfolding publish_written publish_quality
  queue_of-publish_written [] s ep now = refl
  queue_of-publish_written (p ∷ ps) s ep now =
      queue_of-publish_written ps
        (publish_quality s p.tag_id good QualityReason.no_reason now (some p.value)) ep now

  pub queue_of-requeue :
      (s : State env) (ep : String) (rest : List (Write env))
      → queue_of env (requeue env s ep rest) ep ≡ rest ++ queue_of env s ep
  unfolding requeue
  queue_of-requeue s ep rest =
      queue_of-set_queue env s ep ep (rest ++ queue_of env s ep) ∙ rw (=?-refl ep) refl

  pub queue_of-fail_write :
      (s : State env) (ep : String) (now : ℤ) (p : Write env) (why : QualityReason)
      (rest : List (Write env))
      → queue_of env (fail_write env s ep now p why rest) ep ≡ rest ++ queue_of env s ep
  unfolding fail_write publish_quality
  queue_of-fail_write s ep now p why rest = queue_of-requeue _ ep rest

  finish_write_leaves :
      (s : State env) (ep : String) (now : ℤ) (p : Write env) (rest taken left : List (Write env))
      (r : Result (Unit {0}) × env.W)
      → IsSuffix left rest
      → RoundLeaves s ep rest (finish_write env s ep now p rest taken left r)
  unfolding finish_write
  finish_write_leaves s ep now p rest taken left (Result.err e, w) h =
      (rest, ([], refl), queue_of-fail_write _ ep now p QualityReason.write_rejected rest)
  finish_write_leaves s ep now p rest taken left (Result.ok _, w) h =
      (h, queue_of-publish_written taken _ ep now)

  round_coils_leaves :
      (s : State env) (ep : String) (t : ℕ) (now : ℤ) (b : TagBinding fl.F64) (p : Write env)
      (rest : List (Write env)) (run : Run env)
      → IsSuffix (left_of run) rest
      → RoundLeaves s ep rest (round_coils env s ep t now b p rest run)
  unfolding round_coils
  round_coils_leaves s ep t now b p rest (failed q e after) h =
      (after, h, queue_of-fail_write s ep now q QualityReason.decoding_error after)
  round_coils_leaves s ep t now b p rest (joined bits taken left) h =
      finish_write_leaves s ep now p rest taken left _ h

  round_encoded_leaves :
      (s : State env) (ep : String) (t : ℕ) (now : ℤ) (b : TagBinding fl.F64) (p : Write env)
      (rest : List (Write env)) (r : Result (List ℕ))
      → RoundLeaves s ep rest (round_encoded env s ep t now b p rest r)
  unfolding round_encoded
  round_encoded_leaves s ep t now b p rest (Result.err e) =
      (rest, ([], refl), queue_of-fail_write s ep now p QualityReason.decoding_error rest)
  round_encoded_leaves s ep t now b p rest (Result.ok regs) =
      elim (Bool-cases (same_area b.tag.area Area.coil)) [
        | inl e ↦ rw e (
            round_coils_leaves s ep t now b p rest _
              (IsSuffix-join_coils s.index b.unit_id _ _ _ rest))
        | inr e ↦ rw e (finish_write_leaves s ep now p rest (p ∷ []) rest _ ([], refl))
      ]

  pub round_leaves :
      (s : State env) (ep : String) (t : ℕ) (now : ℤ) (p : Write env) (rest : List (Write env))
      → RoundLeaves s ep rest (flush_round env s ep t now p rest)
  unfolding flush_round
  round_leaves s ep t now p rest =
      elim (find_by_id s.index p.tag_id) as (λ found. RoundLeaves s ep rest (at_found found)) [
        | none ↦ (([], refl), refl)
        | some b ↦ round_encoded_leaves s ep t now b p rest (encode fl b.tag p.value)
      ]
    where
      at_found : Option (TagBinding fl.F64) → Round env
      at_found found = elim found [
        | none ↦ (none, rest, s)
        | some b ↦ round_encoded env s ep t now b p rest (encode fl b.tag p.value)
      ]
