-- ===== src/Project/Expand/Laws.antt =====
-- The tags of a device by their names, once its profile is expanded.
use opc_server.Prelude.{
  ◌⊎◌, true, ◌++◌, List, [], ◌∷◌, map, Option, none, some, String, false, ◌||◌, if◌then◌else◌, ◌≡◌,
  refl, ap, ◌∙◌, subst, Bool-cases, inl, inr,
}
use opc_server.Prelude.Eq.{◌=?◌, string_eq}
use opc_server.Prelude.Text.{contains}
use opc_server.Project.{Device, DeviceProfile, Tag}
use opc_server.Project.Expand.{
  profile_of, or_here, last_named, overlay, or_profile, overlaid, name_of, own_tags, merged,
  expanded, expand_device,
}
use opc_server.Project.Expand.OwnTags.{
  or_else, or_else-none, last_named-append, last_named-own_tags, is_some,
}

module _ {F64 : Type 0} where
  name-or_here :
      (o : Option (Tag F64)) (name : String) (t a : Tag F64)
      → ((b : Tag F64) → o ≡ some b → b.name ≡ name)
      → or_here o name t ≡ some a
      → a.name ≡ name
  name-or_here (some b) name t a earlier h = cc (h, earlier b refl)
  name-or_here none name t a earlier h = elim (Bool-cases (t.name =? name)) [
    | inl e ↦ cc (
      subst (λ b. (if b then some t else none) ≡ some a) e h,
      (string_eq.beq_iff t.name name).0 e,
    )
    | inr e ↦ cc (subst (λ b. (if b then some t else none) ≡ some a) e h)
  ]

  name-last_named :
      (name : String) (own : List (Tag F64)) (a : Tag F64)
      → last_named name own ≡ some a
      → a.name ≡ name
  unfolding last_named
  name-last_named name [] a h = cc h
  name-last_named name (t ∷ own) a h =
      name-or_here (last_named name own) name t a (name-last_named name own) h

  name-or_profile :
      (own : List (Tag F64)) (t : Tag F64) (o : Option (Tag F64))
      → last_named t.name own ≡ o
      → (or_profile o t).name ≡ t.name
  name-or_profile own t none h = refl
  name-or_profile own t (some a) h = name-last_named t.name own a h

  name-overlaid : (own : List (Tag F64)) (t : Tag F64) → (overlaid own t).name ≡ t.name
  name-overlaid own t = elim (Bool-cases (t.name =? "")) [
    | inl e ↦ rw e refl
    | inr e ↦ rw e (name-or_profile own t (last_named t.name own) refl)
  ]

  overlay-full :
      (own : List (Tag F64)) (name : String)
      → (name =? "") ≡ false
      → overlay own name ≡ last_named name own
  overlay-full own name full = rw full refl

  abbrev with_own : Option (Tag F64) → Option (Tag F64) → Option (Tag F64)
  with_own own none = none
  with_own own (some p) = some (or_profile own p)

  if-overlaid :
      (name : String) (own : List (Tag F64)) (p : Tag F64)
      → (name =? "") ≡ false
      → (if p.name =? name then some (overlaid own p) else none)
        ≡ with_own (last_named name own) (if p.name =? name then some p else none)
  if-overlaid name own p full = elim (Bool-cases (p.name =? name)) [
    | inl e ↦ rw e (
        ap (λ o. some (or_profile o p))
          (ap (overlay own) ((string_eq.beq_iff p.name name).0 e) ∙ overlay-full own name full))
    | inr e ↦ rw e refl
  ]

  or_here-overlaid :
      (name : String) (own : List (Tag F64)) (p : Tag F64) (l : Option (Tag F64))
      → (name =? "") ≡ false
      → or_here (with_own (last_named name own) l) name (overlaid own p)
        ≡ with_own (last_named name own) (or_here l name p)
  or_here-overlaid name own p (some q) full = refl
  or_here-overlaid name own p none full =
      ap (λ n. if n =? name then some (overlaid own p) else none) (name-overlaid own p)
      ∙ if-overlaid name own p full

  last_named-overlaid :
      (name : String) (own ps : List (Tag F64))
      → (name =? "") ≡ false
      → last_named name (map (overlaid own) ps)
        ≡ with_own (last_named name own) (last_named name ps)
  unfolding last_named
  last_named-overlaid name own [] full = refl
  last_named-overlaid name own (p ∷ ps) full =
      ap (λ o. or_here o name (overlaid own p)) (last_named-overlaid name own ps full)
      ∙ or_here-overlaid name own p (last_named name ps) full

  contains-or_here :
      (o : Option (Tag F64)) (name : String) (p : Tag F64)
      → ((p.name =? name) || is_some o) ≡ is_some (or_here o name p)
  contains-or_here (some a) name p = elim (Bool-cases (p.name =? name)) [
    | inl e ↦ rw e refl
    | inr e ↦ rw e refl
  ]
  contains-or_here none name p = elim (Bool-cases (p.name =? name)) [
    | inl e ↦ rw e refl
    | inr e ↦ rw e refl
  ]

  contains-last_named :
      (name : String) (ps : List (Tag F64))
      → contains name (map name_of ps) ≡ is_some (last_named name ps)
  unfolding contains last_named
  contains-last_named name [] = refl
  contains-last_named name (p ∷ ps) =
      ap (λ b. (p.name =? name) || b) (contains-last_named name ps)
      ∙ contains-or_here (last_named name ps) name p

  or_else-with_own :
      (own l : Option (Tag F64))
      → or_else (if is_some l then none else own) (with_own own l) ≡ or_else own l
  or_else-with_own none none = refl
  or_else-with_own none (some p) = refl
  or_else-with_own (some a) none = refl
  or_else-with_own (some a) (some p) = refl

  last_named-merged :
      (name : String) (ps own : List (Tag F64))
      → (name =? "") ≡ false
      → last_named name (merged ps own) ≡ or_else (last_named name own) (last_named name ps)
  unfolding merged
  last_named-merged name ps own full =
      last_named-append name (map (overlaid own) ps) (own_tags (map name_of ps) own)
      ∙ ap (λ o. or_else o (last_named name (map (overlaid own) ps)))
          (last_named-own_tags name (map name_of ps) own full)
      ∙ ap (or_else (if contains name (map name_of ps) then none else last_named name own))
          (last_named-overlaid name own ps full)
      ∙ ap
          (λ b.
            or_else (if b then none else last_named name own)
              (with_own (last_named name own) (last_named name ps)))
          (contains-last_named name ps)
      ∙ or_else-with_own (last_named name own) (last_named name ps)

  last_named-expanded :
      (name : String) (profile : DeviceProfile F64) (tags own : List (Tag F64))
      → (name =? "") ≡ false
      → profile.tags ≡ tags
      → last_named name (expanded (some profile) own)
        ≡ or_else (last_named name own) (last_named name profile.tags)
  unfolding last_named
  last_named-expanded name profile [] own full h = rw h (or_else-none (last_named name own))
  last_named-expanded name profile (t ∷ ps) own full h =
      rw h (last_named-merged name (t ∷ ps) own full)

  -- What stands in the place of a profile's tag: the device's last tag of its name, or else itself;
  -- and itself if it has no name.
  abbrev pub Overlay : List (Tag F64) → Tag F64 → Tag F64 → Type 0
  Overlay own t f =
      ((t.name =? "") ≡ false → some f ≡ or_else (last_named t.name own) (some t))
      × ((t.name =? "") ≡ true → f ≡ t)

  pub data Overlays (own : List (Tag F64)) : List (Tag F64) → List (Tag F64) → Type 0 where
    none_left : Overlays own [] []
    in_place :
        {t f : Tag F64} {ps fs : List (Tag F64)}
        → Overlay own t f
        → Overlays own ps fs
        → Overlays own (t ∷ ps) (f ∷ fs)

  -- The tags of the device that are left: those without a name or of a name that the profile lacks.
  pub data Remains (names : List String) : List (Tag F64) → List (Tag F64) → Type 0 where
    no_more : Remains names [] []
    stays :
        {t : Tag F64} {own rest : List (Tag F64)}
        → ((t.name =? "") ≡ true) ⊎ (contains t.name names ≡ false)
        → Remains names own rest
        → Remains names (t ∷ own) (t ∷ rest)
    goes :
        {t : Tag F64} {own rest : List (Tag F64)}
        → (t.name =? "") ≡ false
        → contains t.name names ≡ true
        → Remains names own rest
        → Remains names (t ∷ own) rest

  -- The tags that are made of a profile's and of a device's own.
  abbrev pub Expands : List (Tag F64) → List (Tag F64) → List (Tag F64) → Type 0
  Expands ps own tags =
      (front : List (Tag F64)) × (back : List (Tag F64)) × (tags ≡ front ++ back)
      × Overlays own ps front
      × Remains (map name_of ps) own back

  some-or_profile :
      (o : Option (Tag F64)) (t : Tag F64) → some (or_profile o t) ≡ or_else o (some t)
  some-or_profile none t = refl
  some-or_profile (some a) t = refl

  Overlay-overlaid : (own : List (Tag F64)) (t : Tag F64) → Overlay own t (overlaid own t)
  Overlay-overlaid own t = (
    (λ full.
        ap (λ o. some (or_profile o t)) (overlay-full own t.name full)
        ∙ some-or_profile (last_named t.name own) t),
    (λ bare. rw bare refl),
  )

  Overlays-overlaid : (own ps : List (Tag F64)) → Overlays own ps (map (overlaid own) ps)
  Overlays-overlaid own [] = none_left
  Overlays-overlaid own (t ∷ ps) = in_place (Overlay-overlaid own t) (Overlays-overlaid own ps)

  Remains-own_tags :
      (names : List String) (own : List (Tag F64)) → Remains names own (own_tags names own)
  unfolding own_tags
  Remains-own_tags names [] = no_more
  Remains-own_tags names (t ∷ own) =
      let rest = Remains-own_tags names own in
      elim (Bool-cases (t.name =? "")) [
        | inl bare ↦ rw bare (stays (inl bare) rest)
        | inr full ↦ elim (Bool-cases (contains t.name names)) [
          | inl held ↦ rw (full, held) (goes full held rest)
          | inr free ↦ rw (full, free) (stays (inr free) rest)
        ]
      ]

  Remains-nothing : (own : List (Tag F64)) → Remains [] own own
  unfolding contains
  Remains-nothing [] = no_more
  Remains-nothing (t ∷ own) = stays (inr refl) (Remains-nothing own)

  Expands-expanded :
      (profile : DeviceProfile F64) (tags own : List (Tag F64))
      → profile.tags ≡ tags
      → Expands profile.tags own (expanded (some profile) own)
  unfolding merged
  Expands-expanded profile [] own h = rw h ([], own, refl, none_left, Remains-nothing own)
  Expands-expanded profile (t ∷ ps) own h = rw h (
    map (overlaid own) (t ∷ ps),
    own_tags (map name_of (t ∷ ps)) own,
    refl,
    Overlays-overlaid own (t ∷ ps),
    Remains-own_tags (map name_of (t ∷ ps)) own,
  )

  -- Where a device names a profile of the project, its tags after the expansion are the profile's in
  -- order, each replaced by the device's last tag of its name if it has a name and there is one, and
  -- then the device's own tags in order that have no name or a name that no tag of the profile has. So
  -- a name that is not empty stands for the device's last tag of the name, or else for the profile's
  -- last one, or else for nothing.
  pub expand_device-Expands :
      (profiles : List (DeviceProfile F64)) (d : Device F64) (profile : DeviceProfile F64)
      → (d.profile_id =? "") ≡ false
      → profile_of d.profile_id profiles ≡ some profile
      → Expands profile.tags d.tags (expand_device profiles d).tags
        × ((name : String)
            → (name =? "") ≡ false
            → last_named name (expand_device profiles d).tags
              ≡ or_else (last_named name d.tags) (last_named name profile.tags))
  unfolding expand_device
  expand_device-Expands profiles d profile has_profile found = (
    rw (has_profile, found) (Expands-expanded profile profile.tags d.tags refl),
    (λ name full.
        rw (has_profile, found) (last_named-expanded name profile profile.tags d.tags full refl)),
  )
