-- ===== src/Index/Laws.antt =====
-- RuntimeIndex::build against the project's tags, and the lookups in what it builds.
use mathlib.Core.List.{append_assoc, append-nil, map-append}
use mathlib.Core.Option
use opc_server.Prelude.{
  ℕ, zero, suc, ◌+◌, ◌^◌, ◌≡◌, ◌<◌, refl, sym, ap, ◌∙◌, List, [], ◌∷◌, ◌++◌, map, Option, some,
  none, if◌then◌else◌, ◌==◌, arith, length, length-append, Bool-cases, inl, inr, get_elem?,
  get_elem?-none, get_elem?-append, length-map, String, ltb,
}
use opc_server.Prelude.Int.{to_unsigned}
use opc_server.Prelude.Eq.{nat_eq, string_eq, ◌=?◌}
use opc_server.Prelude.Map.{lookup, lookup-emplace_any, or_else}
use opc_server.Project.{Tag, Device, Project}
use opc_server.Index.{
  TagBinding, RuntimeIndex, new_binding, add_tag, add_tags, add_devices, empty_index, build, tag_at,
  find_by_id, find_by_name,
}

-- The position of the first binding with a name.
abbrev pub first_named : {F64 : Type 0} → String → List (TagBinding F64) → ℕ → Option ℕ
first_named n [] i = none
first_named n (b ∷ bs) i = if b.tag.name =? n then some i else first_named n bs (suc i)

-- The position of a number among `n` bindings.
abbrev pub at_number : ℕ → ℕ → Option ℕ
at_number n zero = none
at_number n (suc i) = if ltb i n then some i else none

first_named-append :
    {F64 : Type 0} (n : String) (bs : List (TagBinding F64)) (b : TagBinding F64) (i : ℕ)
    → first_named n (bs ++ b ∷ []) i
      ≡ or_else (first_named n bs i) (if b.tag.name =? n then some (i + length bs) else none)
first_named-append n [] b i = ap (λ k. if b.tag.name =? n then some k else none) (omega arith)
first_named-append n (c ∷ bs) b i =
    ground (arith, string_eq.beq_iff c.tag.name n, first_named-append n bs b (suc i))

record Built {F64 : Type 0} (next : ℕ) (index : RuntimeIndex F64) : Type 0 where
  number : next ≡ length index.tags + 1
  numbered : (id : ℕ) → lookup id index.by_id ≡ at_number (length index.tags) id
  named : (n : String) → lookup n index.by_name ≡ first_named n index.tags 0
  ids :
      (i : ℕ)
      → Option.map (λ b. b.id) (get_elem? index.tags i)
        ≡ (if ltb i (length index.tags) then some (suc i) else none)

abbrev u32_mod : ℕ
u32_mod = 2 ^ 32

get_elem?-snoc :
    {A : Type 0} (xs : List A) (a : A) (i : ℕ)
    → get_elem? (xs ++ a ∷ []) i ≡ (if i == length xs then some a else get_elem? xs i)
get_elem?-snoc [] a zero = refl
get_elem?-snoc [] a (suc i) = ground arith
get_elem?-snoc (x ∷ xs) a zero = ground arith
get_elem?-snoc (x ∷ xs) a (suc i) = get_elem?-snoc xs a i ∙ ground arith

module _ {F64 : Type 0} where
  add_tag-Built :
      (d : Device F64) (next : ℕ) (index : RuntimeIndex F64) (t : Tag F64)
      → length index.tags + 2 < u32_mod
      → Built next index
      → let (next', index') = add_tag d (next, index) t in Built next' index'
  unfolding add_tag
  add_tag-Built d next index t h b =
      let new = (add_tag d (next, index) t).1.tags in
      let bs = index.tags in
      let size : length new ≡ suc (length bs) = omega (arith, length-append {0} bs) in
      record {
        number = omega (arith, size, b.number);
        numbered = λ id.
            lookup-emplace_any next id (length bs) index.by_id
            ∙ rw (b.numbered id) (numbers id size);
        named = λ n.
            lookup-emplace_any t.name n (length bs) index.by_name
            ∙ rw (b.named n) (
                ap (λ k. or_else (first_named n bs 0) (if t.name =? n then some k else none))
                  {x = length bs} {y = 0 + length bs} (omega arith)
                ∙ sym (first_named-append n bs (new_binding d next t) 0));
        ids = λ i.
            ap (Option.map (λ c. c.id)) (get_elem?-snoc bs (new_binding d next t) i)
            ∙ ground (arith, b.ids i, size, b.number);
      }
    where
      numbers :
          (id : ℕ)
          → length (add_tag d (next, index) t).1.tags ≡ suc (length index.tags)
          → or_else
              (at_number (length index.tags) id)
              (if next == id then some (length index.tags) else none)
            ≡ at_number (length (add_tag d (next, index) t).1.tags) id
      numbers zero size = ground (arith, b.number)
      numbers (suc id) size = ground (arith, b.number)

  length-add_tag :
      (d : Device F64) (s : ℕ × RuntimeIndex F64) (t : Tag F64)
      → length (add_tag d s t).1.tags ≡ length s.1.tags + 1
  unfolding add_tag
  length-add_tag d s t = length-append {0} s.1.tags _

  -- What the loop over a device's tags, and that over the devices, adds to the bindings: everything
  -- but the number is the device's and the tag's.
  abbrev pub origin : TagBinding F64 → String × String × ℕ × Tag F64
  origin b = (b.device_id, b.endpoint_id, b.unit_id, b.tag)

  abbrev pub device_origins : Device F64 → List (Tag F64) → List (String × String × ℕ × Tag F64)
  device_origins d [] = []
  device_origins d (t ∷ ts) =
      (d.id, d.endpoint_id, to_unsigned d.unit_id 256, t) ∷ device_origins d ts

  abbrev pub origins : List (Device F64) → List (String × String × ℕ × Tag F64)
  origins [] = []
  origins (d ∷ ds) = device_origins d d.tags ++ origins ds

  record Extends (s s' : ℕ × RuntimeIndex F64) (os : List (String × String × ℕ × Tag F64))
      : Type 0 where
    built : Built s'.0 s'.1
    tags : map origin s'.1.tags ≡ map origin s.1.tags ++ os

  add_tags-Extends :
      (d : Device F64) (ts : List (Tag F64)) (s : ℕ × RuntimeIndex F64)
      → length s.1.tags + length (device_origins d ts) + 1 < u32_mod
      → Built s.0 s.1
      → Extends s (add_tags d s ts) (device_origins d ts)
  unfolding add_tags
  add_tags-Extends d [] s h b = record { built = b; tags = sym (append-nil _) }
  add_tags-Extends d (t ∷ ts) s h b =
      let s' = add_tag d s t in
      let ih =
        add_tags-Extends d ts s' (omega (arith, length-add_tag d s t))
          (add_tag-Built d s.0 s.1 t (omega arith) b) in
      record {
        built = ih.built;
        tags =
            ih.tags
            ∙ ap (◌++ device_origins d ts) (added d s t)
            ∙ append_assoc (map origin s.1.tags) _ (device_origins d ts);
      }
    where
      added :
          (e : Device F64) (r : ℕ × RuntimeIndex F64) (x : Tag F64)
          → map origin (add_tag e r x).1.tags
            ≡ map origin r.1.tags ++ (e.id, e.endpoint_id, to_unsigned e.unit_id 256, x) ∷ []
      added e r x = unfold add_tag in (map-append origin r.1.tags (new_binding e r.0 x ∷ []))

  add_devices-Extends :
      (ds : List (Device F64)) (s : ℕ × RuntimeIndex F64)
      → length s.1.tags + length (origins ds) + 1 < u32_mod
      → Built s.0 s.1
      → Extends s (add_devices s ds) (origins ds)
  unfolding add_devices
  add_devices-Extends [] s h b = record { built = b; tags = sym (append-nil _) }
  add_devices-Extends (d ∷ ds) s h b =
      let both = length-append (device_origins d d.tags) (origins ds) in
      let first = add_tags-Extends d d.tags s (omega (arith, both)) b in
      let s' = add_tags d s d.tags in
      let sizes = ap length first.tags in
      let rest =
        add_devices-Extends ds s'
          (omega (
            arith,
            both,
            sizes,
            length-map s'.1.tags origin,
            length-map s.1.tags origin,
            length-append (map origin s.1.tags) (device_origins d d.tags),
          ))
          first.built in
      record {
        built = rest.built;
        tags =
            rest.tags
            ∙ ap (◌++ origins ds) first.tags
            ∙ append_assoc (map origin s.1.tags) (device_origins d d.tags) (origins ds);
      }

  project-add_tags :
      (d : Device F64) (ts : List (Tag F64)) (s : ℕ × RuntimeIndex F64)
      → (add_tags d s ts).1.project ≡ s.1.project
  unfolding add_tags add_tag
  project-add_tags d [] s = refl
  project-add_tags d (t ∷ ts) s = project-add_tags d ts (add_tag d s t)

  project-add_devices :
      (ds : List (Device F64)) (s : ℕ × RuntimeIndex F64)
      → (add_devices s ds).1.project ≡ s.1.project
  unfolding add_devices
  project-add_devices [] s = refl
  project-add_devices (d ∷ ds) s =
      project-add_devices ds (add_tags d s d.tags) ∙ project-add_tags d d.tags s

  -- The first binding with a name.
  abbrev pub first_binding : String → List (TagBinding F64) → Option (TagBinding F64)
  first_binding n [] = none
  first_binding n (b ∷ bs) = if b.tag.name =? n then some b else first_binding n bs

  tag_at-first_named :
      (n : String) (pre bs : List (TagBinding F64)) (index : RuntimeIndex F64)
      → index.tags ≡ pre ++ bs
      → tag_at index (first_named n bs (length pre)) ≡ first_binding n bs
  tag_at-first_named n pre [] index e = refl
  tag_at-first_named n pre (b ∷ bs) index e = elim (Bool-cases (b.tag.name =? n)) [
    | inl hit ↦ rw (hit, e) (get_elem?-append pre (b ∷ bs) (length pre) 0 (omega arith))
    | inr miss ↦ rw miss (
        ap (λ k. tag_at index (first_named n bs k)) {x = suc (length pre)}
          {y = length (pre ++ b ∷ [])} (omega (arith, length-append pre (b ∷ [])))
        ∙ tag_at-first_named n (pre ++ b ∷ []) bs index (e ∙ sym (append_assoc pre (b ∷ []) bs)))
  ]

  -- An index of fewer than 2 ^ 32 - 1 tags keeps its project and holds every tag of every device, in
  -- the project's order with the device's id, endpoint and unit; the tag at position i has the
  -- number i + 1 and is found by it, no other number finds a tag, and a name finds the first tag of
  -- that name.
  pub build_lem :
      (p : Project F64)
      → length (origins p.devices) + 1 < u32_mod
      → let index = build p in
        (index.project ≡ p)
        × (map origin index.tags ≡ origins p.devices)
        × ((i : ℕ)
            → Option.map (λ b. b.id) (get_elem? index.tags i)
              ≡ (if ltb i (length index.tags) then some (suc i) else none))
        × ((i : ℕ) → find_by_id index (suc i) ≡ get_elem? index.tags i)
        × (find_by_id index 0 ≡ none)
        × ((n : String) → find_by_name index n ≡ first_binding n index.tags)
  unfolding build find_by_id find_by_name lookup
  build_lem p h =
      let s : ℕ × RuntimeIndex F64 = (1, empty_index p) in
      let x = add_devices-Extends p.devices s (omega arith) (record {
        number = refl;
        numbered = λ id. none_at id;
        named = λ n. refl;
        ids = λ i. ground arith;
      }) in
      let index = (add_devices s p.devices).1 in
      (
        project-add_devices p.devices s,
        x.tags,
        x.built.ids,
        (λ i. ap (tag_at index) (x.built.numbered (suc i)) ∙ in_range i),
        ap (tag_at index) (x.built.numbered 0),
        (λ n. ap (tag_at index) (x.built.named n) ∙ tag_at-first_named n [] index.tags index refl),
      )
    where
      in_range :
          (i : ℕ)
          → tag_at
              (add_devices (1, empty_index p) p.devices).1
              (at_number (length (add_devices (1, empty_index p) p.devices).1.tags) (suc i))
            ≡ get_elem? (add_devices (1, empty_index p) p.devices).1.tags i
      in_range i =
          let xs = (add_devices (1, empty_index p) p.devices).1.tags in
          elim (Bool-cases (ltb i (length xs))) [
            | inl e ↦ rw e
            | inr e ↦ rw e (sym (get_elem?-none xs i (ground arith)))
          ]

      none_at : (id : ℕ) → lookup id [] ≡ at_number 0 id
      none_at zero = refl
      none_at (suc id) = ground arith
