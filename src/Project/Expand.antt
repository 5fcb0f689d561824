-- ===== src/Project/Expand.antt =====
-- Src/project/load.cpp, expand_device_profiles: a device with a profile gets the profile's tags, each
-- replaced by the device's tag of that name, and then its other tags.
pub mod OwnTags
pub mod Laws
use opc_server.Prelude.{
  List, [], ◌∷◌, ◌++◌, map, Option, none, some, String, Bool, true, false, ◌&&◌, ◌||◌, not,
  if◌then◌else◌,
}
use opc_server.Prelude.Eq.{◌=?◌, string_eq}
use opc_server.Prelude.Text.{contains}
use opc_server.Project.{Project, Device, DeviceProfile, Tag}

module _ {F64 : Type 0} where
  -- by_id: `emplace` keeps the first profile of an id.
  unfoldable pub profile_of : String → List (DeviceProfile F64) → Option (DeviceProfile F64)
  profile_of id [] = none
  profile_of id (p ∷ profiles) =
      let later = profile_of id profiles in
      if (p.id =? id) && not (p.id =? "") then some p else later

  abbrev pub or_here : Option (Tag F64) → String → Tag F64 → Option (Tag F64)
  or_here (some later) name t = some later
  or_here none name t = if t.name =? name then some t else none

  -- The last tag of a name.
  unfoldable pub last_named : String → List (Tag F64) → Option (Tag F64)
  last_named name [] = none
  last_named name (t ∷ tags) = or_here (last_named name tags) name t

  -- overlay: a later tag of a name replaces an earlier one, and tags without a name are left out.
  abbrev pub overlay : List (Tag F64) → String → Option (Tag F64)
  overlay own name = if name =? "" then none else last_named name own

  abbrev pub or_profile : Option (Tag F64) → Tag F64 → Tag F64
  or_profile none t = t
  or_profile (some own) t = own

  abbrev pub overlaid : List (Tag F64) → Tag F64 → Tag F64
  overlaid own t = or_profile (overlay own t.name) t

  abbrev pub name_of : Tag F64 → String
  name_of t = t.name

  -- The device's tags that no tag of the profile has the name of, or that have no name. (That
  -- from_profile leaves the empty name out makes no difference to this test.)
  unfoldable pub own_tags : List String → List (Tag F64) → List (Tag F64)
  own_tags from_profile [] = []
  own_tags from_profile (t ∷ tags) =
      let later = own_tags from_profile tags in
      if (t.name =? "") || not (contains t.name from_profile) then t ∷ later else later

  unfoldable pub merged : List (Tag F64) → List (Tag F64) → List (Tag F64)
  merged profile_tags own =
      map (overlaid own) profile_tags ++ own_tags (map name_of profile_tags) own

  abbrev pub expanded : Option (DeviceProfile F64) → List (Tag F64) → List (Tag F64)
  expanded none own = own
  expanded (some profile) own = elim profile.tags [ [] ↦ own | t ∷ tags ↦ merged (t ∷ tags) own ]

  unfoldable pub expand_device : List (DeviceProfile F64) → Device F64 → Device F64
  expand_device profiles d =
      if d.profile_id =? ""
      then d
      else record d { tags = expanded (profile_of d.profile_id profiles) d.tags }

  unfoldable pub expand_device_profiles : Project F64 → Project F64
  expand_device_profiles p = record p { devices = map (expand_device p.device_profiles) p.devices }
