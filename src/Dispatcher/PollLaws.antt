-- ===== src/Dispatcher/PollLaws.antt =====
-- How often a group is polled.
use opc_server.Prelude.{
  ℕ, ◌≡◌, ap, ◌∙◌, refl, sym, subst, List, [], ◌∷◌, ◌++◌, Bool, true, false, not, ◌&&◌, String,
  Option, some, ◌⊎◌, inl, inr, Bool-cases, if◌then◌else◌,
}
use opc_server.Prelude.Int.{ℤ, pos, ◌-ℤ◌, ltb_ℤ}
use opc_server.Prelude.Eq.{◌=?◌, =?-refl, string_eq}
use opc_server.Prelude.Map.{lookup, lookup-insert}
use opc_server.Domain.{is_zero, value_or}
use opc_server.Project.{PollGroup}
use opc_server.Platform.{Floats}
use opc_server.Index.{TagBinding}
use opc_server.Dispatcher.State.{State, Env}
use opc_server.Dispatcher.Groups.{collect_group_tags}
use opc_server.Dispatcher.Poll.{poll_key, is_waiting, set_polled, poll_due_groups, due_tags}
use opc_server.Dispatcher.PollTimes.{
  Polled, Records, Records-then, recorded, lookup-recorded, Records-recorded, turn,
  Records-poll_due_groups,
}

module _ {fl : Floats} (env : Env fl) where
  waits_after : PollGroup → ℤ → Option ℤ → Bool
  waits_after group now found =
      not (is_zero (value_or found (pos 0)))
      && ltb_ℤ (now -ℤ value_or found (pos 0)) group.period_ms

  -- The group has been polled at this time, or it is to be polled.
  abbrev Due : State env → String → PollGroup → ℤ → Type 0
  Due s ep group now =
      Polled env (poll_key ep group.id) now s ⊎ (is_waiting env s ep group now ≡ false)

  Due-Records :
      (s s' : State env) (ep : String) (group : PollGroup) (now : ℤ)
      → Records env (poll_key ep group.id) now s s'
      → Due s ep group now
      → Due s' ep group now
  unfolding is_waiting waits_after
  Due-Records s s' ep group now (inl h) due = inl h
  Due-Records s s' ep group now (inr h) (inl due) = inl (h ∙ due)
  Due-Records s s' ep group now (inr h) (inr due) = inr (ap (waits_after group now) h ∙ due)

  Polled-Records :
      (key : String) (now : ℤ) (s s' : State env)
      → Polled env key now s
      → Records env key now s s'
      → Polled env key now s'
  Polled-Records key now s s' h (inl k) = k
  Polled-Records key now s s' h (inr k) = k ∙ h

  Polled-recorded :
      (s : State env) (ep : String) (group : PollGroup) (t : ℕ) (now : ℤ)
      → Polled env (poll_key ep group.id) now (recorded env s ep group t now)
  Polled-recorded s ep group t now =
      lookup-recorded env (poll_key ep group.id) s ep group t now
      ∙ rw (=?-refl (poll_key ep group.id)) refl

  Polled-Due :
      (s : State env) (ep : String) (group : PollGroup) (now : ℤ)
      → Due s ep group now
      → is_waiting env s ep group now ≡ true
      → Polled env (poll_key ep group.id) now s
  Polled-Due s ep group now (inl h) e = h
  Polled-Due s ep group now (inr h) e = absurd (cc (h, e))

  Polled-poll_due_groups :
      (front back : List PollGroup) (s : State env) (ep : String) (group : PollGroup) (t : ℕ)
      (now : ℤ)
      → Due s ep group now
      → Polled env
          (poll_key ep group.id)
          now
          (poll_due_groups env (front ++ group ∷ back) s ep t now).1
  unfolding poll_due_groups
  Polled-poll_due_groups [] back s ep group t now due =
      elim (Bool-cases (is_waiting env s ep group now)) [
        | inl e ↦
            subst (λ w. Polled env key now (turn env s ep group back t now w).1) (sym e)
              (Polled-Records key now s (poll_due_groups env back s ep t now).1
                (Polled-Due s ep group now due e) (Records-poll_due_groups env key back s ep t now))
        | inr e ↦
            subst (λ w. Polled env key now (turn env s ep group back t now w).1) (sym e)
              (Polled-Records key now (recorded env s ep group t now)
                (poll_due_groups env back (recorded env s ep group t now) ep t now).1
                (Polled-recorded s ep group t now)
                (Records-poll_due_groups env key back (recorded env s ep group t now) ep t now))
      ]
    where
      key : String
      key = poll_key ep group.id
  Polled-poll_due_groups (g ∷ front) back s ep group t now due =
      let after = recorded env s ep g t now in
      let skipped = Polled-poll_due_groups front back s ep group t now due in
      let polled = Polled-poll_due_groups front back after ep group t now (
        Due-Records s after ep group now (Records-recorded env (poll_key ep group.id) s ep g t now)
          due) in
      elim (is_waiting env s ep g now)
        as (λ w.
          Polled env (poll_key ep group.id) now
            (turn env s ep g (front ++ group ∷ back) t now w).1) [ true ↦ skipped | false ↦ polled ]

  is_waiting-Polled :
      (s : State env) (ep : String) (group : PollGroup) (now later : ℤ)
      → Polled env (poll_key ep group.id) now s
      → is_zero now ≡ false
      → ltb_ℤ (later -ℤ now) group.period_ms ≡ true
      → is_waiting env s ep group later ≡ true
  unfolding is_waiting waits_after
  is_waiting-Polled s ep group now later polled started within =
      ap (waits_after group later) polled
      ∙ ap (λ z. not z && ltb_ℤ (later -ℤ now) group.period_ms) started
      ∙ within

  -- One group's turn where the tags are listed.
  abbrev listed :
      State env
      → String
      → PollGroup
      → List PollGroup
      → ℤ
      → Bool
      → List (TagBinding fl.F64) × State env
  listed s ep group groups now waits =
      let (bs, s1) = due_tags env groups (set_polled env s ep group now) ep now in
      elim waits [
        | true ↦ due_tags env groups s ep now
        | false ↦ (collect_group_tags s.index group ++ bs, s1)
      ]

  lookup-set_polled :
      (key : String) (s : State env) (ep : String) (group : PollGroup) (now : ℤ)
      → lookup key (set_polled env s ep group now).last_poll_ms
        ≡ (if poll_key ep group.id =? key then some now else lookup key s.last_poll_ms)
  lookup-set_polled key s ep group now = lookup-insert (poll_key ep group.id) key now s.last_poll_ms

  Records-set_polled :
      (key : String) (s : State env) (ep : String) (group : PollGroup) (now : ℤ)
      → Records env key now s (set_polled env s ep group now)
  Records-set_polled key s ep group now = elim (Bool-cases (poll_key ep group.id =? key)) [
    | inl e ↦ inl (lookup-set_polled key s ep group now ∙ rw e refl)
    | inr e ↦ inr (lookup-set_polled key s ep group now ∙ rw e refl)
  ]

  Records-due_tags :
      (key : String) (groups : List PollGroup) (s : State env) (ep : String) (now : ℤ)
      → Records env key now s (due_tags env groups s ep now).1
  unfolding due_tags
  Records-due_tags key [] s ep now = inr refl
  Records-due_tags key (group ∷ groups) s ep now =
      let skipped = Records-due_tags key groups s ep now in
      let after = set_polled env s ep group now in
      let polled =
        Records-then env key now s after (due_tags env groups after ep now).1
          (Records-set_polled key s ep group now) (Records-due_tags key groups after ep now) in
      elim (is_waiting env s ep group now)
        as (λ w. Records env key now s (listed s ep group groups now w).1) [
          | true ↦ skipped
          | false ↦ polled
        ]

  Polled-due_tags :
      (front back : List PollGroup) (s : State env) (ep : String) (group : PollGroup) (now : ℤ)
      → Due s ep group now
      → Polled env (poll_key ep group.id) now (due_tags env (front ++ group ∷ back) s ep now).1
  unfolding due_tags
  Polled-due_tags [] back s ep group now due = elim (Bool-cases (is_waiting env s ep group now)) [
    | inl e ↦
        subst (λ w. Polled env key now (listed s ep group back now w).1) (sym e)
          (Polled-Records key now s (due_tags env back s ep now).1 (Polled-Due s ep group now due e)
            (Records-due_tags key back s ep now))
    | inr e ↦
        subst (λ w. Polled env key now (listed s ep group back now w).1) (sym e)
          (Polled-Records key now after (due_tags env back after ep now).1
            (lookup-set_polled key s ep group now ∙ rw (=?-refl key) refl)
            (Records-due_tags key back after ep now))
  ]
    where
      key : String
      key = poll_key ep group.id

      after : State env
      after = set_polled env s ep group now
  Polled-due_tags (g ∷ front) back s ep group now due =
      let after = set_polled env s ep g now in
      let skipped = Polled-due_tags front back s ep group now due in
      let polled = Polled-due_tags front back after ep group now (
        Due-Records s after ep group now (Records-set_polled (poll_key ep group.id) s ep g now)
          due) in
      elim (is_waiting env s ep g now)
        as (λ w.
          Polled env (poll_key ep group.id) now (listed s ep g (front ++ group ∷ back) now w).1) [
            | true ↦ skipped
            | false ↦ polled
          ]

  -- Where a group is not passed over at a time other than 0, poll_due_groups at that time, over any
  -- groups among which it is, leaves a state in which poll_due_groups passes it over at any later time
  -- before its period has passed, whatever groups come after it; and so does due_tags, in which the
  -- asynchronous variant lists the tags that it then reads.
  pub poll_due_groups-is_waiting :
      (front back groups : List PollGroup) (s : State env) (ep : String) (group : PollGroup) (t : ℕ)
      (now later : ℤ)
      → is_waiting env s ep group now ≡ false
      → is_zero now ≡ false
      → ltb_ℤ (later -ℤ now) group.period_ms ≡ true
      → let s1 = (poll_due_groups env (front ++ group ∷ back) s ep t now).1 in
        let s2 = (due_tags env (front ++ group ∷ back) s ep now).1 in
        (poll_due_groups env (group ∷ groups) s1 ep t later
          ≡ poll_due_groups env groups s1 ep t later)
        × (due_tags env (group ∷ groups) s2 ep later ≡ due_tags env groups s2 ep later)
  unfolding poll_due_groups due_tags
  poll_due_groups-is_waiting front back groups s ep group t now later due started within =
      let s1 = (poll_due_groups env (front ++ group ∷ back) s ep t now).1 in
      let s2 = (due_tags env (front ++ group ∷ back) s ep now).1 in
      let polled = Polled-poll_due_groups front back s ep group t now (inr due) in
      let marked = Polled-due_tags front back s ep group now (inr due) in
      (
        ap (turn env s1 ep group groups t later)
            (is_waiting-Polled s1 ep group now later polled started within),
        ap (listed s2 ep group groups later)
            (is_waiting-Polled s2 ep group now later marked started within),
      )
