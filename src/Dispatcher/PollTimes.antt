-- ===== src/Dispatcher/PollTimes.antt =====
-- What a poll leaves of the times that groups were polled at.
use opc_server.Prelude.{
  ℕ, ◌≡◌, ap, ◌∙◌, refl, List, [], ◌∷◌, Bool, true, false, not, ◌||◌, String, Option, none, some,
  ◌⊎◌, inl, inr, Bool-cases, if◌then◌else◌,
}
use opc_server.Prelude.Int.{ℤ}
use opc_server.Prelude.Eq.{◌=?◌, string_eq}
use opc_server.Prelude.Map.{lookup, lookup-insert}
use opc_server.Domain.{Result, ErrorCode}
use opc_server.Project.{PollGroup, Device}
use opc_server.Platform.{Floats}
use opc_server.Index.{TagBinding, device}
use opc_server.Translator.Codec.{Scalar}
use opc_server.Dispatcher.State.{State, Env, publish_quality, dispatcher_error}
use opc_server.Dispatcher.PollTag.{
  Reading, registers, bits_failed, decode_regs, finish_decoded, finish_reading, observe_rtt,
  poll_tag,
}
use opc_server.Dispatcher.Groups.{group_tags}
use opc_server.Dispatcher.Poll.{
  first_error, poll_key, poll_all, poll_tags, poll_group, is_waiting, set_polled, count_overrun,
  poll_due_groups,
}

module _ {fl : Floats} (env : Env fl) where
  last_poll_ms-finish_decoded :
      (s : State env) (id : ℕ) (now : ℤ) (r : Result (Scalar fl))
      → (finish_decoded env s id now r).1.last_poll_ms ≡ s.last_poll_ms
  unfolding finish_decoded publish_quality
  last_poll_ms-finish_decoded s id now (Result.err e) = refl
  last_poll_ms-finish_decoded s id now (Result.ok v) = refl

  last_poll_ms-finish_reading :
      (s : State env) (b : TagBinding fl.F64) (now : ℤ) (r : Reading)
      → (finish_reading env s b now r).1.last_poll_ms ≡ s.last_poll_ms
  unfolding finish_reading publish_quality
  last_poll_ms-finish_reading s b now (bits_failed e) = refl
  last_poll_ms-finish_reading s b now (registers (Result.err e)) = refl
  last_poll_ms-finish_reading s b now (registers (Result.ok regs)) =
      last_poll_ms-finish_decoded s b.id now (decode_regs env b.tag regs)

  last_poll_ms-poll_tag :
      (s : State env) (b : TagBinding fl.F64) (t : ℕ) (now : ℤ)
      → (poll_tag env s b t now).1.last_poll_ms ≡ s.last_poll_ms
  unfolding poll_tag observe_rtt
  last_poll_ms-poll_tag s b t now = elim (Bool-cases (not s.has_tag_store || not s.has_clock)) [
    | inl e ↦ rw e refl
    | inr e ↦ rw e (last_poll_ms-finish_reading _ b now _)
  ]

  last_poll_ms-poll_all :
      (bs : List (TagBinding fl.F64)) (s : State env) (t : ℕ) (now : ℤ)
      → (poll_all env bs s t now).1.last_poll_ms ≡ s.last_poll_ms
  unfolding poll_all
  last_poll_ms-poll_all [] s t now = refl
  last_poll_ms-poll_all (b ∷ bs) s t now =
      last_poll_ms-poll_all bs (poll_tag env s b t now).1 t now ∙ last_poll_ms-poll_tag s b t now

  last_poll_ms-poll_tags :
      (s : State env) (t : ℕ) (now : ℤ) (r : Result (List (TagBinding fl.F64)))
      → (poll_tags env s t now r).1.last_poll_ms ≡ s.last_poll_ms
  unfolding poll_tags
  last_poll_ms-poll_tags s t now (Result.err e) = refl
  last_poll_ms-poll_tags s t now (Result.ok bs) = last_poll_ms-poll_all bs s t now

  last_poll_ms-poll_group :
      (s : State env) (group : PollGroup) (t : ℕ) (now : ℤ)
      → (poll_group env s group t now).1.last_poll_ms ≡ s.last_poll_ms
  unfolding poll_group
  last_poll_ms-poll_group s group t now =
      elim (device s.index group.device_id)
        as (λ found. (at_found found).1.last_poll_ms ≡ s.last_poll_ms) [
          | none ↦ refl
          | some _ ↦ last_poll_ms-poll_tags s t now (group_tags s.index group)
        ]
    where
      at_found : Option (Device fl.F64) → Result (Unit {0}) × State env
      at_found found = elim found [
        | none ↦ (Result.err (dispatcher_error ErrorCode.not_found "device missing"), s)
        | some _ ↦ poll_tags env s t now (group_tags s.index group)
      ]

  last_poll_ms-count_overrun :
      (r : Result (Unit {0})) (s : State env)
      → (count_overrun env r s).last_poll_ms ≡ s.last_poll_ms
  unfolding count_overrun
  last_poll_ms-count_overrun (Result.err e) s = refl
  last_poll_ms-count_overrun (Result.ok _) s = refl

  -- The poll time on record for a key is `now`.
  abbrev pub Polled : String → ℤ → State env → Type 0
  Polled key now s = lookup key s.last_poll_ms ≡ some now

  -- It is, or it is the one of before.
  abbrev pub Records : String → ℤ → State env → State env → Type 0
  Records key now s s' =
      Polled key now s' ⊎ (lookup key s'.last_poll_ms ≡ lookup key s.last_poll_ms)

  pub Records-then :
      (key : String) (now : ℤ) (a b c : State env)
      → Records key now a b
      → Records key now b c
      → Records key now a c
  Records-then key now a b c h (inl k) = inl k
  Records-then key now a b c (inl h) (inr k) = inl (k ∙ h)
  Records-then key now a b c (inr h) (inr k) = inr (k ∙ h)

  -- The state after a group is polled and recorded.
  abbrev pub recorded : State env → String → PollGroup → ℕ → ℤ → State env
  recorded s ep group t now =
      let (r, s1) = poll_group env s group t now in
      count_overrun env r (set_polled env s1 ep group now)

  pub lookup-recorded :
      (key : String) (s : State env) (ep : String) (group : PollGroup) (t : ℕ) (now : ℤ)
      → lookup key (recorded s ep group t now).last_poll_ms
        ≡ (if poll_key ep group.id =? key then some now else lookup key s.last_poll_ms)
  lookup-recorded key s ep group t now =
      let (r, s1) = poll_group env s group t now in
      ap (lookup key) (last_poll_ms-count_overrun r (set_polled env s1 ep group now))
      ∙ lookup-insert (poll_key ep group.id) key now s1.last_poll_ms
      ∙ ap (λ m. if poll_key ep group.id =? key then some now else lookup key m)
          (last_poll_ms-poll_group s group t now)

  pub Records-recorded :
      (key : String) (s : State env) (ep : String) (group : PollGroup) (t : ℕ) (now : ℤ)
      → Records key now s (recorded s ep group t now)
  Records-recorded key s ep group t now = elim (Bool-cases (poll_key ep group.id =? key)) [
    | inl e ↦ inl (lookup-recorded key s ep group t now ∙ rw e refl)
    | inr e ↦ inr (lookup-recorded key s ep group t now ∙ rw e refl)
  ]

  -- One group's turn.
  abbrev pub turn :
      State env → String → PollGroup → List PollGroup → ℕ → ℤ → Bool → Result (Unit {0}) × State env
  turn s ep group groups t now waits =
      let (r, s1) = poll_group env s group t now in
      let (r', s3) = poll_due_groups env groups (recorded s ep group t now) ep t now in
      elim waits [ true ↦ poll_due_groups env groups s ep t now | false ↦ (first_error r r', s3) ]

  pub Records-poll_due_groups :
      (key : String) (groups : List PollGroup) (s : State env) (ep : String) (t : ℕ) (now : ℤ)
      → Records key now s (poll_due_groups env groups s ep t now).1
  unfolding poll_due_groups
  Records-poll_due_groups key [] s ep t now = inr refl
  Records-poll_due_groups key (group ∷ groups) s ep t now =
      let skipped = Records-poll_due_groups key groups s ep t now in
      let after = recorded s ep group t now in
      let polled =
        Records-then key now s after (poll_due_groups env groups after ep t now).1
          (Records-recorded key s ep group t now)
          (Records-poll_due_groups key groups after ep t now) in
      elim (is_waiting env s ep group now)
        as (λ w. Records key now s (turn s ep group groups t now w).1) [
          | true ↦ skipped
          | false ↦ polled
        ]
