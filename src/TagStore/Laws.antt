-- ===== src/TagStore/Laws.antt =====
-- The tag store's values, subscribers and deliveries after each operation.
use opc_server.Prelude.{
  ℕ, ◌≡◌, ◌≤◌, refl, sym, subst, ap, List, [], ◌∷◌, ◌++◌, map, Option, some, none, true,
  if◌then◌else◌, ◌==◌, arith, Bool-cases, inl, inr,
}
use opc_server.Prelude.Int.{ℤ, ltb_ℤ}
use opc_server.Prelude.Eq.{nat_eq}
use opc_server.Prelude.Map.{lookup, emplace, lookup-insert, lookup-erase, lookup-emplace}
use opc_server.Domain.{Quality, good, uncertain, bad, QualityReason, TagValue}
use opc_server.TagStore.{
  TagStore, Delivery, is_good, is_stale, to_stale, notify, publish, get, subscribe, unsubscribe,
  stale_pass, notify_all, mark_stale_before,
}

module _ {V H : Type 0} where
  -- After a publication the tag reads the published value, every other tag what it read before, and
  -- each subscriber has been told the value once, after all earlier deliveries.
  pub publish_lem :
      (s : TagStore V H) (id : ℕ) (v : TagValue V)
      → ((j : ℕ) → get (publish s id v) j ≡ (if id == j then some v else get s j))
        × ((publish s id v).delivered ≡ s.delivered ++ notify s.subscribers id v)
        × ((publish s id v).subscribers ≡ s.subscribers)
  unfolding publish get
  publish_lem s id v = ((λ j. lookup-insert id j v s.values), refl, refl)

abbrev stale : {V : Type 0} → ℤ → QualityReason → Option (TagValue V) → Option (TagValue V)
stale cutoff why none = none
stale cutoff why (some v) = some (if is_stale cutoff v then to_stale why v else v)

lookup-stale_pass :
    {V : Type 0} (cutoff : ℤ) (why : QualityReason) (m : List (ℕ × TagValue V)) (j : ℕ)
    → lookup j (stale_pass cutoff why m).0 ≡ stale cutoff why (lookup j m)
unfolding lookup stale_pass
lookup-stale_pass cutoff why [] j = refl
lookup-stale_pass cutoff why ((id, v) ∷ m) j =
    let ih = lookup-stale_pass cutoff why m j in
    elim (Bool-cases (is_stale cutoff v)) [
      | inl e ↦ rw e (rekey (to_stale why v) ih (rw e))
      | inr e ↦ rw e (rekey v ih (rw e))
    ]
  where
    rekey :
        (v' : TagValue _)
        → lookup j (stale_pass cutoff why m).0 ≡ stale cutoff why (lookup j m)
        → v' ≡ (if is_stale cutoff v then to_stale why v else v)
        → (if id == j then some v' else lookup j (stale_pass cutoff why m).0)
          ≡ stale cutoff why (if id == j then some v else lookup j m)
    rekey v' ih same = elim (Bool-cases (id == j)) [ inl e ↦ rw e (ap some same) | inr e ↦ rw e ih ]

-- A value that is Good and was set before the cutoff.
abbrev pub IsOld : {V : Type 0} → ℤ → TagValue V → Type 0
IsOld cutoff v = (v.quality ≡ good) × (ltb_ℤ v.server_ts cutoff ≡ true)

-- What becomes of a value.
abbrev pub Ages :
    {V : Type 0} → ℤ → QualityReason → Option (TagValue V) → Option (TagValue V) → Type 0
Ages cutoff why none new = new ≡ none
Ages cutoff why (some v) new =
    (IsOld cutoff v → new ≡ some (record v { quality = uncertain; reason = why }))
    × (¬ (IsOld cutoff v) → new ≡ some v)

is_good-good : (q : Quality) → is_good q ≡ true → q ≡ good
is_good-good good h = refl
is_good-good uncertain h = absurd (cc h)
is_good-good bad h = absurd (cc h)

is_stale-IsOld :
    {V : Type 0} (cutoff : ℤ) (v : TagValue V) → is_stale cutoff v ≡ true → IsOld cutoff v
is_stale-IsOld cutoff v h = (is_good-good v.quality (ground (arith, h)), ground (arith, h))

IsOld-is_stale :
    {V : Type 0} (cutoff : ℤ) (v : TagValue V) → IsOld cutoff v → is_stale cutoff v ≡ true
IsOld-is_stale cutoff v (q, older) = rw (ap is_good q, older) refl

Ages-stale :
    {V : Type 0} (cutoff : ℤ) (why : QualityReason) (old : Option (TagValue V))
    → Ages cutoff why old (stale cutoff why old)
Ages-stale cutoff why none = refl
Ages-stale cutoff why (some v) = (
  (λ h. rw (IsOld-is_stale cutoff v h) refl),
  (λ no. elim (Bool-cases (is_stale cutoff v)) [
    | inl e ↦ absurd (no (is_stale-IsOld cutoff v e))
    | inr e ↦ rw e refl
  ]),
)

module _ {V H : Type 0} where
  -- The calls for one tag: every subscriber in turn is told the tag's number and its new value.
  abbrev pub told : List (ℕ × H) → QualityReason → ℕ × TagValue V → List (Delivery V H)
  told hs why (id, v) =
      map
        (λ sub. record {
          handler = sub.1;
          id = id;
          value = record v { quality = uncertain; reason = why };
        })
        hs

  -- The entries in order of which some are old, and the calls for those that are.
  pub data Calls (hs : List (ℕ × H)) (cutoff : ℤ) (why : QualityReason)
      : List (ℕ × TagValue V) → List (Delivery V H) → Type 0 where
    nothing : Calls hs cutoff why [] []
    old :
        (id : ℕ) (v : TagValue V) (m : List (ℕ × TagValue V)) (ds : List (Delivery V H))
        → IsOld cutoff v
        → Calls hs cutoff why m ds
        → Calls hs cutoff why ((id, v) ∷ m) (told hs why (id, v) ++ ds)
    kept :
        (id : ℕ) (v : TagValue V) (m : List (ℕ × TagValue V)) (ds : List (Delivery V H))
        → ¬ (IsOld cutoff v)
        → Calls hs cutoff why m ds
        → Calls hs cutoff why ((id, v) ∷ m) ds

  notify-told :
      (hs : List (ℕ × H)) (id : ℕ) (why : QualityReason) (v : TagValue V)
      → notify hs id (to_stale why v) ≡ told hs why (id, v)
  unfolding notify
  notify-told [] id why v = refl
  notify-told ((n, h) ∷ hs) id why v =
      ap (record { handler = h; id = id; value = to_stale why v } ∷◌) (notify-told hs id why v)

  notify_all-Calls :
      (hs : List (ℕ × H)) (cutoff : ℤ) (why : QualityReason) (m : List (ℕ × TagValue V))
      → Calls hs cutoff why m (notify_all hs (stale_pass cutoff why m).1)
  unfolding notify_all stale_pass
  notify_all-Calls hs cutoff why [] = nothing
  notify_all-Calls hs cutoff why ((id, v) ∷ m) =
      let later = notify_all-Calls hs cutoff why m in
      let ds = notify_all hs (stale_pass cutoff why m).1 in
      elim (Bool-cases (is_stale cutoff v)) [
        | inl e ↦ rw e (
            subst (λ calls. Calls hs cutoff why ((id, v) ∷ m) (calls ++ ds))
              (sym (notify-told hs id why v)) (old id v m ds (is_stale-IsOld cutoff v e) later))
        | inr e ↦ rw e (kept id v m ds (λ h. absurd (cc (e, IsOld-is_stale cutoff v h))) later)
      ]

  -- Marking stale turns every tag's value that is Good and was set before the cutoff to Uncertain with
  -- the given reason, and leaves every other as it was; the calls made after all earlier ones are, for
  -- each such value in the order of the tags, one for each subscriber in order, with the tag's number
  -- and its new value; the subscribers stay.
  pub mark_stale_before_lem :
      (s : TagStore V H) (cutoff : ℤ) (why : QualityReason)
      → let s' = mark_stale_before s cutoff why in
        ((j : ℕ) → Ages cutoff why (get s j) (get s' j))
        × ((ds : List (Delivery V H)) × (s'.delivered ≡ s.delivered ++ ds)
            × Calls s.subscribers cutoff why s.values ds)
        × (s'.subscribers ≡ s.subscribers)
  unfolding mark_stale_before get
  mark_stale_before_lem s cutoff why = (
    (λ j.
        subst (Ages cutoff why (lookup j s.values)) (sym (lookup-stale_pass cutoff why s.values j))
          (Ages-stale cutoff why (lookup j s.values))),
    (
      notify_all s.subscribers (stale_pass cutoff why s.values).1,
      refl,
      notify_all-Calls s.subscribers cutoff why s.values,
    ),
    refl,
  )

  -- No subscription has a number that is still to be given.
  abbrev pub IsFresh : TagStore V H → Type 0
  IsFresh s = (id : ℕ) → s.next_subscription ≤ id → lookup id s.subscribers ≡ none

  -- Subscribing gives a new number under which exactly the handler is registered, the store keeps
  -- only numbers that were given, and unsubscribing that number restores every registration.
  pub subscribe_lem :
      (s : TagStore V H) (h : H)
      → IsFresh s
      → let (id, s') = subscribe s h in
        ((j : ℕ) → lookup j s'.subscribers ≡ (if id == j then some h else lookup j s.subscribers))
        × IsFresh s'
        × ((j : ℕ) → lookup j (unsubscribe s' id).subscribers ≡ lookup j s.subscribers)
        × IsFresh (unsubscribe s' id)
  unfolding subscribe unsubscribe
  subscribe_lem s h fresh =
      let n = s.next_subscription in
      let hs = s.subscribers in
      let added = λ (j : ℕ). lookup-emplace n j h hs (fresh n (omega arith)) in
      let removed = λ (j : ℕ). lookup-erase n j (emplace n h hs) in
      (
        added,
        (λ j p. ground (arith, added j, fresh j)),
        (λ j. ground (arith, added j, removed j, fresh j)),
        (λ j p. ground (arith, added j, removed j, fresh j)),
      )
