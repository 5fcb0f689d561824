-- ===== src/Project/Expand/OwnTags.antt =====
-- The last tag of a name in joined lists, and among a device's tags that its profile leaves.
use opc_server.Prelude.{
  List, [], ◌∷◌, ◌++◌, Option, none, some, String, Bool, true, false, ◌||◌, not, if◌then◌else◌, ◌≡◌,
  refl, ap, ◌∙◌, subst, Bool-cases, inl, inr,
}
use opc_server.Prelude.Eq.{◌=?◌, string_eq}
use opc_server.Prelude.Text.{contains}
use opc_server.Project.{Tag}
use opc_server.Project.Expand.{or_here, last_named, own_tags}

-- The first, or else the second.
abbrev pub or_else {ℓ} : {A : Type ℓ} → Option A → Option A → Option A
or_else (some a) b = some a
or_else none b = b

pub or_else-none : {A : Type 0} (o : Option A) → o ≡ or_else o none
or_else-none none = refl
or_else-none (some a) = refl

abbrev pub is_some : {A : Type 0} → Option A → Bool
is_some none = false
is_some (some a) = true

if_same : {A : Type 0} (b : Bool) (a : A) → a ≡ (if b then a else a)
if_same true a = refl
if_same false a = refl

module _ {F64 : Type 0} where
  pub or_here-other :
      (o : Option (Tag F64)) (name : String) (t : Tag F64)
      → (t.name =? name) ≡ false
      → or_here o name t ≡ o
  or_here-other none name t h = rw h refl
  or_here-other (some a) name t h = refl

  pub or_here-or_else :
      (later o : Option (Tag F64)) (name : String) (t : Tag F64)
      → or_here (or_else later o) name t ≡ or_else later (or_here o name t)
  or_here-or_else none o name t = refl
  or_here-or_else (some a) o name t = refl

  pub last_named-append :
      (name : String) (xs ys : List (Tag F64))
      → last_named name (xs ++ ys) ≡ or_else (last_named name ys) (last_named name xs)
  unfolding last_named
  last_named-append name [] ys = or_else-none (last_named name ys)
  last_named-append name (x ∷ xs) ys =
      ap (λ o. or_here o name x) (last_named-append name xs ys)
      ∙ or_here-or_else (last_named name ys) (last_named name xs) name x

  last_named-own_tags_here :
      (names : List String) (t : Tag F64) (own : List (Tag F64))
      → (t.name =? "") ≡ false
      → last_named t.name (own_tags names own)
        ≡ (if contains t.name names then none else last_named t.name own)
      → last_named t.name (own_tags names (t ∷ own))
        ≡ (if contains t.name names then none else or_here (last_named t.name own) t.name t)
  unfolding last_named own_tags
  last_named-own_tags_here names t own full h = elim (Bool-cases (contains t.name names)) [
    | inl c ↦
        rw (full, c)
          (subst
            (λ b.
              last_named t.name (own_tags names own) ≡ (if b then none else last_named t.name own))
            c h)
    | inr c ↦
        rw (full, c)
          (ap (λ o. or_here o t.name t)
            (subst
              (λ b.
                last_named t.name (own_tags names own)
                ≡ (if b then none else last_named t.name own))
              c h))
  ]

  -- Of the device's other tags, those of a name that the profile has are gone, and those of another
  -- name are all there.
  pub last_named-own_tags :
      (name : String) (names : List String) (own : List (Tag F64))
      → (name =? "") ≡ false
      → last_named name (own_tags names own)
        ≡ (if contains name names then none else last_named name own)
  unfolding last_named own_tags
  last_named-own_tags name names [] full = if_same (contains name names) none
  last_named-own_tags name names (t ∷ own) full = elim (Bool-cases (t.name =? name)) [
    | inl e ↦
        subst
          (λ n.
            (n =? "") ≡ false
            → last_named n (own_tags names own)
              ≡ (if contains n names then none else last_named n own)
            → last_named n (own_tags names (t ∷ own))
              ≡ (if contains n names then none else or_here (last_named n own) n t))
          ((string_eq.beq_iff t.name name).0 e) (last_named-own_tags_here names t own) full
          (last_named-own_tags name names own full)
    | inr e ↦
        rw (or_here-other (last_named name own) name t e)
          (elim (Bool-cases ((t.name =? "") || not (contains t.name names))) [
            | inl kept ↦ rw kept (
                or_here-other (last_named name (own_tags names own)) name t e
                ∙ last_named-own_tags name names own full)
            | inr dropped ↦ rw dropped (last_named-own_tags name names own full)
          ])
  ]
