-- ===== src/Gateway/Groups.antt =====
-- The poll groups of an accepted project, in the index that is built of it.
use mathlib.Core.Option
use mathlib.Core.List.{map-append}
use opc_server.Prelude.{
  ℕ, ◌+◌, ◌<◌, ◌^◌, ◌≡◌, ◌⊎◌, inl, inr, refl, ap, ◌∙◌, List, [], ◌∷◌, ◌++◌, map, Option, none, some,
  Bool, true, false, ◌||◌, if◌then◌else◌, String, All, Bool-cases, arith, length,
}
use opc_server.Prelude.Eq.{◌=?◌, string_eq}
use opc_server.Prelude.Text.{contains, concat}
use opc_server.Domain.{Result, ErrorCode, value_or, ◌>>=◌}
use opc_server.Project.{Project, Device, Tag, PollGroup}
use opc_server.Project.Validate.{Diagnostics, validate}
use opc_server.Project.Accepted.Errors.{Accepted}
use opc_server.Project.Accepted.{Fits, Named, validate-IsValidProject}
use opc_server.Index.{RuntimeIndex, TagBinding, build, device, device_from}
use opc_server.Index.Laws.{build_lem, origin, origins, device_origins, first_binding}
use opc_server.Dispatcher.Groups.{named_or_error, group_tags, unnamed, is_empty}
use opc_server.Dispatcher.State.{dispatcher_error}

contains-append :
    (s : String) (xs ys : List String) → contains s (xs ++ ys) ≡ contains s xs || contains s ys
unfolding contains
contains-append s [] ys = refl
contains-append s (x ∷ xs) ys = ground (arith, contains-append s xs ys)

module _ {F64 : Type 0} where
  abbrev name_of : String × String × ℕ × Tag F64 → String
  name_of (_, _, _, tag) = tag.name

  abbrev has_tag : String → Device F64 → Bool
  has_tag name d = contains name (map (λ tag. tag.name) d.tags)

  contains-device_origins :
      (d : Device F64) (tags : List (Tag F64)) (name : String)
      → contains name (map (λ tag. tag.name) tags)
        ≡ contains name (map name_of (device_origins d tags))
  unfolding contains
  contains-device_origins d [] name = refl
  contains-device_origins d (tag ∷ tags) name =
      ap (λ c. (tag.name =? name) || c) (contains-device_origins d tags name)

  contains-origins :
      (devices : List (Device F64)) (id name : String) (d : Device F64)
      → device_from devices id ≡ some d
      → contains name (map (λ tag. tag.name) d.tags) ≡ true
      → contains name (map name_of (origins devices)) ≡ true
  unfolding device_from
  contains-origins [] id name d e h = absurd (ground (arith, e))
  contains-origins (first ∷ devices) id name d e h =
      ap (contains name) (map-append name_of (device_origins first first.tags) (origins devices))
      ∙ contains-append name (map name_of (device_origins first first.tags))
          (map name_of (origins devices))
      ∙ at_first (first.id =? id) e (contains-origins devices id name d)
    where
      own : Bool
      own = contains name (map name_of (device_origins first first.tags))

      later : Bool
      later = contains name (map name_of (origins devices))

      at_first :
          (c : Bool)
          → (if c then some first else device_from devices id) ≡ some d
          → (device_from devices id ≡ some d → has_tag name d ≡ true → later ≡ true)
          → own || later ≡ true
      at_first true same ih =
          let it : has_tag name first ≡ has_tag name d =
            ap (λ o. value_or (Option.map (has_tag name) o) false) same in
          ground (arith, it, h, contains-device_origins first first.tags name)
      at_first false rest ih = ground (arith, ih rest h)

  first_binding-contains :
      (bs : List (TagBinding F64)) (name : String)
      → contains name (map name_of (map origin bs)) ≡ true
      → (b : TagBinding F64) × (first_binding name bs ≡ some b)
  unfolding contains
  first_binding-contains [] name h = absurd (ground (arith, h))
  first_binding-contains (b ∷ bs) name h = elim (Bool-cases (b.tag.name =? name)) [
    | inl e ↦ (b, rw e refl)
    | inr e ↦ rw e (first_binding-contains bs name (rw e at h))
  ]

  named_or_error-ok :
      (project : Project F64) (d : Device F64) (id : String) (names : List String)
      → length (origins project.devices) + 1 < 2 ^ 32
      → device_from project.devices id ≡ some d
      → Named (some d) names
      → (bs : List (TagBinding F64)) × (named_or_error (build project) names ≡ Result.ok bs)
  unfolding named_or_error
  named_or_error-ok project d id [] small known names = ([], refl)
  named_or_error-ok project d id (name ∷ names) small known (here, rest) =
      let (_, tags, _, _, _, by_name) = build_lem project small in
      let (b, found) = first_binding-contains (build project).tags name (
        ap (λ os. contains name (map name_of os)) tags
        ∙ contains-origins project.devices id name d known here) in
      let (bs, ok) = named_or_error-ok project d id names small known rest in
      (b ∷ bs, ap at_found (by_name name ∙ found) ∙ ap (λ r. r >>= λ cs. Result.ok (b ∷ cs)) ok)
    where
      at_found : Option (TagBinding F64) → Result (List (TagBinding F64))
      at_found o = elim o [
        | none ↦ Result.err (dispatcher_error ErrorCode.not_found (concat "tag not found: " name))
        | some c ↦ named_or_error (build project) names >>= λ cs. Result.ok (c ∷ cs)
      ]

  group_tags-ok :
      (project : Project F64) (d : Device F64) (group : PollGroup)
      → length (origins project.devices) + 1 < 2 ^ 32
      → device_from project.devices group.device_id ≡ some d
      → Named (some d) group.tag_names
      → (bs : List (TagBinding F64)) × (group_tags (build project) group ≡ Result.ok bs)
  unfolding group_tags
  group_tags-ok project d group small known names = elim (Bool-cases (is_empty group.tag_names)) [
    | inl e ↦ (unnamed (build project) group, rw e refl)
    | inr e ↦
        let (bs, ok) =
          named_or_error-ok project d group.device_id group.tag_names small known names in
        (bs, rw e ok)
  ]

  -- What polling needs of a group: no device, or one in the index and a list of tags.
  abbrev pub IsPollable : RuntimeIndex F64 → PollGroup → Type 0
  IsPollable index group =
      ((group.device_id =? "") ≡ true)
      ⊎ ((d : Device F64) × (bs : List (TagBinding F64)) × (device index group.device_id ≡ some d)
          × (group_tags index group ≡ Result.ok bs))

  IsPollable-All :
      (project : Project F64) (groups : List PollGroup)
      → length (origins project.devices) + 1 < 2 ^ 32
      → All (Fits project) groups
      → All (IsPollable (build project)) groups
  unfolding device
  IsPollable-All project [] small fits = tt
  IsPollable-All project (group ∷ groups) small (fit, fits) =
      let (same, _, _, _, _, _) = build_lem project small in
      (
        elim fit.device [
          | inl e ↦ inl e
          | inr (d, known, names) ↦
              let (bs, ok) = group_tags-ok project d group small known names in
              inr (d, bs, ap (λ p. device_from p.devices group.device_id) same ∙ known, ok)
        ],
        IsPollable-All project groups small fits,
      )

  -- In the index of a project that validate accepts, of fewer than 2 ^ 32 - 1 tags, every poll group
  -- that names a device finds that device and a list of tags: poll_group does not fail on it with
  -- `device missing` or `tag not found`.
  pub group_tags-validate :
      (project : Project F64) (diagnostics : Diagnostics)
      → length (origins project.devices) + 1 < 2 ^ 32
      → Accepted (validate project diagnostics)
      → All (IsPollable (build project)) project.poll_groups
  group_tags-validate project diagnostics small h =
      IsPollable-All project project.poll_groups small
        (validate-IsValidProject project diagnostics h).groups
