-- ===== src/Index.antt =====
-- Src/core/runtime_index: the tags of a project numbered from 1, and found by number or by name.
pub mod Laws
mod Tests
use opc_server.Prelude.{
  ℕ, ◌+◌, ◌%◌, ◌^◌, List, [], ◌∷◌, ◌++◌, Option, some, none, String, Bool, length, get_elem?,
  if◌then◌else◌, ◌&&◌,
}
use opc_server.Prelude.Int.{to_unsigned}
use opc_server.Prelude.Eq.{◌=?◌, nat_eq, string_eq}
use opc_server.Prelude.Map.{lookup, emplace}
use opc_server.Project.{Tag, Device, Endpoint, PollGroup, Project}

pub record TagBinding (F64 : Type 0) : Type 0 where
  pub id : ℕ
  pub device_id : String
  pub endpoint_id : String
  pub unit_id : ℕ
  pub tag : Tag F64

pub record RuntimeIndex (F64 : Type 0) : Type 0 where
  pub project : Project F64
  pub tags : List (TagBinding F64)
  pub by_id : List (ℕ × ℕ)
  pub by_name : List (String × ℕ)

unfoldable pub endpoint_from : List Endpoint → String → Option Endpoint
endpoint_from [] id = none
endpoint_from (ep ∷ eps) id = if ep.id =? id then some ep else endpoint_from eps id

module _ {F64 : Type 0} where
  abbrev pub new_binding : Device F64 → ℕ → Tag F64 → TagBinding F64
  new_binding device next tag = record {
    id = next;
    device_id = device.id;
    endpoint_id = device.endpoint_id;
    unit_id = to_unsigned device.unit_id 256;
    tag = tag;
  }

  -- `next` of the loop stands beside the index.
  unfoldable pub add_tag : Device F64 → ℕ × RuntimeIndex F64 → Tag F64 → ℕ × RuntimeIndex F64
  add_tag device (next, index) tag = (
    (next + 1) % 2 ^ 32,
    record index {
      by_id = emplace next (length index.tags) index.by_id;
      by_name = emplace tag.name (length index.tags) index.by_name;
      tags = index.tags ++ new_binding device next tag ∷ [];
    },
  )

  unfoldable pub add_tags :
      Device F64 → ℕ × RuntimeIndex F64 → List (Tag F64) → ℕ × RuntimeIndex F64
  add_tags device s [] = s
  add_tags device s (tag ∷ tags) = add_tags device (add_tag device s tag) tags

  unfoldable pub add_devices : ℕ × RuntimeIndex F64 → List (Device F64) → ℕ × RuntimeIndex F64
  add_devices s [] = s
  add_devices s (device ∷ devices) = add_devices (add_tags device s device.tags) devices

  abbrev pub empty_index : Project F64 → RuntimeIndex F64
  empty_index p = record { project = p; tags = []; by_id = []; by_name = [] }

  unfoldable pub build : Project F64 → RuntimeIndex F64
  build p = (add_devices (1, empty_index p) p.devices).1

  -- `tags_[pos]`; the positions in the maps are in range.
  abbrev pub tag_at : RuntimeIndex F64 → Option ℕ → Option (TagBinding F64)
  tag_at index none = none
  tag_at index (some i) = get_elem? index.tags i

  unfoldable pub find_by_id : RuntimeIndex F64 → ℕ → Option (TagBinding F64)
  find_by_id index id = tag_at index (lookup id index.by_id)

  unfoldable pub find_by_name : RuntimeIndex F64 → String → Option (TagBinding F64)
  find_by_name index name = tag_at index (lookup name index.by_name)

  unfoldable pub endpoint : RuntimeIndex F64 → String → Option Endpoint
  endpoint index id = endpoint_from index.project.endpoints id

  unfoldable pub device_from : List (Device F64) → String → Option (Device F64)
  device_from [] id = none
  device_from (d ∷ ds) id = if d.id =? id then some d else device_from ds id

  unfoldable pub device : RuntimeIndex F64 → String → Option (Device F64)
  device index id = device_from index.project.devices id

  abbrev pub is_on_endpoint : Option (Device F64) → String → Bool
  is_on_endpoint none endpoint_id = Bool.false
  is_on_endpoint (some dev) endpoint_id = dev.endpoint_id =? endpoint_id

  unfoldable pub groups_from : RuntimeIndex F64 → List PollGroup → String → List PollGroup
  groups_from index [] endpoint_id = []
  groups_from index (group ∷ groups) endpoint_id =
      let rest = groups_from index groups endpoint_id in
      if is_on_endpoint (device index group.device_id) endpoint_id then group ∷ rest else rest

  unfoldable pub groups_for_endpoint : RuntimeIndex F64 → String → List PollGroup
  groups_for_endpoint index endpoint_id = groups_from index index.project.poll_groups endpoint_id
