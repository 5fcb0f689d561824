-- ===== src/Gateway/Tests.antt =====
-- The theorems on accepted projects at a plant with two poll groups.
use opc_server.Prelude.{false, ◌≡◌, refl, [], ◌∷◌, All, arith, String}
use opc_server.Prelude.Int.{ℤ, pos}
use opc_server.Prelude.Eq.{◌=?◌, string_eq}
use opc_server.Prelude.Map.{lookup, emplace}
use opc_server.Prelude.Text.{contains}
use opc_server.Project.{Project, PollGroup, Priority, DeviceProfile, Device}
use opc_server.Project.Validate.{
  validate, is_accepted, error_if, warning_if, check_endpoints, check_devices, check_groups,
  check_all_tag_groups, check_endpoint, check_device, is_known, check_tags, check_name,
  check_fields, valid_byte_order, check_group, check_blocks, check_named, check_tag_names,
  check_tag_groups,
}
use opc_server.Project.Accepted.Errors.{Accepted}
use opc_server.Project.Accepted.{IsValidProject, validate-IsValidProject}
use opc_server.Project.Expand.{expand_device, last_named, profile_of}
use opc_server.Project.Expand.OwnTags.{or_else}
use opc_server.Project.Expand.Laws.{Expands, expand_device-Expands}
use opc_server.Index.{build}
use opc_server.Gateway.Groups.{IsPollable, group_tags-validate}
use opc_server.Samples.{plant, plc, level, pump, valve}

abbrev group_of : String → String → PollGroup
group_of id device_id = record {
  id = id;
  period_ms = pos 500;
  priority = Priority.normal;
  device_id = device_id;
  blocks = [];
  tag_names = "pump" ∷ "level" ∷ [];
}

abbrev polled_plant : Project ℤ
polled_plant = record plant { poll_groups = group_of "fast" "plc" ∷ [] }

polled_plant-Accepted : Accepted (validate polled_plant [])
unfolding validate is_accepted error_if warning_if check_endpoints check_devices check_groups lookup
    check_all_tag_groups check_endpoint contains check_device is_known check_tags check_name
    check_fields valid_byte_order check_group emplace check_blocks check_named check_tag_names
    check_tag_groups
polled_plant-Accepted = refl

validate-IsValidProject_example : IsValidProject polled_plant
validate-IsValidProject_example = validate-IsValidProject polled_plant [] polled_plant-Accepted

group_tags-validate_example : All (IsPollable (build polled_plant)) polled_plant.poll_groups
group_tags-validate_example =
    group_tags-validate polled_plant [] (omega arith) polled_plant-Accepted

abbrev meter : DeviceProfile ℤ
meter = record { id = "meter"; name = ""; vendor = ""; description = ""; tags = level ∷ pump ∷ [] }

abbrev profiled : Device ℤ
profiled = record plc {
  profile_id = "meter";
  tags = record level { address = pos 40 } ∷ valve ∷ [];
}

expand_device-Expands_example :
    Expands meter.tags profiled.tags (expand_device (meter ∷ []) profiled).tags
    × ((name : String)
        → (name =? "") ≡ false
        → last_named name (expand_device (meter ∷ []) profiled).tags
          ≡ or_else (last_named name profiled.tags) (last_named name meter.tags))
unfolding profile_of
expand_device-Expands_example = expand_device-Expands (meter ∷ []) profiled meter refl refl
