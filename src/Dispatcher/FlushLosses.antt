-- ===== src/Dispatcher/FlushLosses.antt =====
-- What a flush loses of a run of coils.
use opc_server.Prelude.{
  ℕ, suc, ◌+◌, ◌≡◌, ◌∙◌, refl, sym, ap, subst, List, [], ◌∷◌, ◌++◌, Option, none, some, true, false,
  Bool, if◌then◌else◌, String, length,
}
use opc_server.Prelude.Int.{ℤ, pos, to_unsigned, ◌+ℤ◌}
use opc_server.Prelude.Eq.{string_eq}
use opc_server.Domain.{QualityReason, Result, Error}
use opc_server.Project.{Area}
use opc_server.Platform.{Floats}
use opc_server.Index.{RuntimeIndex, TagBinding, find_by_id}
use opc_server.Translator.Codec.{encode}
use opc_server.Dispatcher.State.{State, Env, publish_quality}
use opc_server.Dispatcher.Groups.{same_area}
use opc_server.Dispatcher.Writes.{
  Write, queue_of, requeue, as_bits, Run, failed, joined, joins, join_coils, Round, finish_write,
  fail_write, round_coils, round_encoded, flush_round, flush_loop, write_registers,
}
use opc_server.Dispatcher.FlushRounds.{queue_of-fail_write}
use opc_server.Dispatcher.FlushLaws.{then_loop}

module _ {fl : Floats} (env : Env fl) where
  round_failed :
      (s : State env) (ep : String) (t : ℕ) (now : ℤ) (p q : Write env)
      (rest after : List (Write env)) (b : TagBinding fl.F64) (regs : List ℕ) (e : Error)
      → find_by_id s.index p.tag_id ≡ some b
      → same_area b.tag.area Area.coil ≡ true
      → encode fl b.tag p.value ≡ Result.ok regs
      → join_coils env s.index b.unit_id
          (pos (to_unsigned b.tag.address 0x10000 + length (as_bits env regs)))
          (as_bits env regs)
          (p ∷ [])
          rest
        ≡ failed q e after
      → flush_round env s ep t now p rest
        ≡ (some e, [], fail_write env s ep now q QualityReason.decoding_error after)
  unfolding flush_round round_encoded round_coils
  round_failed s ep t now p q rest after b regs e found coil enc run =
      ap at_found found
      ∙ ap (round_encoded env s ep t now b p rest) enc
      ∙ ap
          (λ c.
            if c
            then round_coils env s ep t now b p rest taken
            else finish_write env s ep now p rest (p ∷ []) rest
                (write_registers env t b.unit_id addr regs s.world))
          coil
      ∙ ap (round_coils env s ep t now b p rest) run
    where
      addr : ℕ
      addr = to_unsigned b.tag.address 0x10000

      taken : Run env
      taken =
          join_coils env s.index b.unit_id (pos (addr + length (as_bits env regs)))
            (as_bits env regs) (p ∷ []) rest

      at_found : Option (TagBinding fl.F64) → Round env
      at_found o = elim o [
        | none ↦ (none, rest, s)
        | some c ↦ round_encoded env s ep t now c p rest (encode fl c.tag p.value)
      ]

  -- What the loop over the coils gives up: the writes that it had taken and the one that failed.
  abbrev Loses : List (Write env) → Run env → Type 0
  Loses ps (joined bits taken left) = Unit
  Loses ps (failed q e after) = (taken : List (Write env)) × (ps ≡ taken ++ q ∷ after)

  Loses-cons :
      (p : Write env) (ps : List (Write env)) (run : Run env) → Loses ps run → Loses (p ∷ ps) run
  Loses-cons p ps (joined bits taken left) h = tt
  Loses-cons p ps (failed q e after) (taken, h) = (p ∷ taken, ap (λ zs. p ∷ zs) h)

  Loses-join_coils :
      (index : RuntimeIndex fl.F64) (unit : ℕ) (next_addr : ℤ) (bits : List ℕ)
      (taken ps : List (Write env))
      → Loses ps (join_coils env index unit next_addr bits taken ps)
  unfolding join_coils
  Loses-join_coils index unit next_addr bits taken [] = tt
  Loses-join_coils index unit next_addr bits taken (p ∷ ps) =
      elim (find_by_id index p.tag_id) as (λ found. Loses (p ∷ ps) (at_found found)) [
        | none ↦ tt
        | some b ↦ elim (joins env b unit next_addr) as (λ j. Loses (p ∷ ps) (at_join b j)) [
          | false ↦ tt
          | true ↦ elim (encode fl b.tag p.value) as (λ r. Loses (p ∷ ps) (at_encoded r)) [
            | Result.err e ↦ ([], refl)
            | Result.ok regs ↦ Loses-cons p ps _ (
                Loses-join_coils index unit (next_addr +ℤ pos (length regs))
                  (bits ++ as_bits env regs) (taken ++ p ∷ []) ps)
          ]
        ]
      ]
    where
      at_encoded : Result (List ℕ) → Run env
      at_encoded r = elim r [
        | Result.err e ↦ failed p e ps
        | Result.ok regs ↦
            join_coils env index unit (next_addr +ℤ pos (length regs)) (bits ++ as_bits env regs)
              (taken ++ p ∷ []) ps
      ]

      at_join : TagBinding fl.F64 → Bool → Run env
      at_join b j = elim j [
        | false ↦ joined bits taken (p ∷ ps)
        | true ↦ at_encoded (encode fl b.tag p.value)
      ]

      at_found : Option (TagBinding fl.F64) → Run env
      at_found found = elim found [
        | none ↦ joined bits taken (p ∷ ps)
        | some b ↦ at_join b (joins env b unit next_addr)
      ]

  -- Where the first write of a batch is of a coil and a later coil of its run is not encoded, the
  -- writes after the first are those that the run had taken, the one that failed, and the others; the
  -- flush returns the error, calls no write of the transport, and the queue is what it was behind the
  -- others only. So the first write and those that the run had taken are neither written nor in the
  -- queue.
  pub flush_loop-join_coils_failed :
      (fuel : ℕ) (s : State env) (ep : String) (t : ℕ) (now : ℤ) (p q : Write env)
      (rest after : List (Write env)) (b : TagBinding fl.F64) (regs : List ℕ) (e : Error)
      → find_by_id s.index p.tag_id ≡ some b
      → same_area b.tag.area Area.coil ≡ true
      → encode fl b.tag p.value ≡ Result.ok regs
      → join_coils env s.index b.unit_id
          (pos (to_unsigned b.tag.address 0x10000 + length (as_bits env regs)))
          (as_bits env regs)
          (p ∷ [])
          rest
        ≡ failed q e after
      → ((flush_loop env (suc fuel) s ep t now (p ∷ rest)).0 ≡ Result.err e)
        × ((flush_loop env (suc fuel) s ep t now (p ∷ rest)).1.world ≡ s.world)
        × ((taken : List (Write env)) × (rest ≡ taken ++ q ∷ after)
            × (queue_of env (flush_loop env (suc fuel) s ep t now (p ∷ rest)).1 ep
                ≡ after ++ queue_of env s ep))
  unfolding flush_loop fail_write requeue publish_quality
  flush_loop-join_coils_failed fuel s ep t now p q rest after b regs e found coil enc run =
      subst (λ r. Lost (then_loop env r (λ s' left. flush_loop env fuel s' ep t now left)))
        (sym (round_failed s ep t now p q rest after b regs e found coil enc run))
        (
          refl,
          refl,
          (lost.0, lost.1, queue_of-fail_write env s ep now q QualityReason.decoding_error after),
        )
    where
      Lost : Result (Unit {0}) × State env → Type 0
      Lost (r, s') =
          (r ≡ Result.err e)
          × (s'.world ≡ s.world)
          × ((taken : List (Write env)) × (rest ≡ taken ++ q ∷ after)
              × (queue_of env s' ep ≡ after ++ queue_of env s ep))

      lost : (taken : List (Write env)) × (rest ≡ taken ++ q ∷ after)
      lost = subst (Loses rest) run (Loses-join_coils s.index b.unit_id _ _ _ rest)
