-- ===== src/Project/Validate.antt =====
-- Src/project/validate.cpp: the diagnostics that validate appends. A loop that goes over an index
-- carries it, and the sets that the loop fills.
use opc_server.Prelude.{
  ℕ, ◌+◌, List, [], ◌∷◌, ◌++◌, map, Option, none, some, Bool, true, false, not, ◌&&◌, ◌||◌,
  if◌then◌else◌, String,
}
use opc_server.Prelude.Int.{ℤ, pos, ltb_ℤ}
use opc_server.Prelude.Eq.{◌=?◌, string_eq}
use opc_server.Prelude.Map.{lookup, emplace}
use opc_server.Prelude.Text.{concat, to_string, contains}
use opc_server.Project.{
  Project, Endpoint, Device, DeviceProfile, Tag, TagType, Area, PollGroup, RegisterBlock,
}

pub data Severity : Type 0 where
  error warning : Severity

pub record Diagnostic : Type 0 where
  pub severity : Severity
  pub path : String
  pub message : String

abbrev pub Diagnostics : Type 0
Diagnostics = List Diagnostic

-- What add_error appends if the condition holds.
unfoldable pub error_if : Bool → String → String → Diagnostics
error_if c path message =
    if c then record { severity = Severity.error; path = path; message = message } ∷ [] else []

unfoldable pub warning_if : Bool → String → String → Diagnostics
warning_if c path message =
    if c then record { severity = Severity.warning; path = path; message = message } ∷ [] else []

abbrev pub quoted : String → String → String → String
quoted before name after = concat before (concat name after)

abbrev pub indexed : String → ℕ → String
indexed name i = concat name (concat "[" (concat (to_string i) "]"))

abbrev pub is_short : TagType → Bool
is_short TagType.uint16 = true
is_short TagType.int16 = true
is_short _ = false

abbrev pub is_bool : TagType → Bool
is_bool TagType.bool = true
is_bool _ = false

unfoldable pub valid_byte_order : String → TagType → Bool
valid_byte_order order type =
    let four = order =? "ABCD" || order =? "CDAB" || order =? "BADC" || order =? "DCBA" in
    let two = order =? "AB" || order =? "BA" in
    if order =? ""
    then is_bool type || is_short type
    else if not (four || two)
    then false
    else if is_short type
    then two
    else if is_bool type
    then true
    else four

abbrev pub is_read_only : Area → Bool
is_read_only Area.input = true
is_read_only Area.discrete = true
is_read_only _ = false

abbrev pub is_below : ℤ → Option ℤ → Bool
is_below bound none = false
is_below bound (some q) = ltb_ℤ q bound

unfoldable pub check_endpoint : ℕ → List String → Endpoint → Diagnostics × List String
check_endpoint i ids ep =
    let path = indexed "endpoints" i in
    if ep.id =? "" then ([], ids) else (
      error_if (contains ep.id ids) (concat path ".id") (quoted "duplicate endpoint id '" ep.id "'")
          ++ error_if (ltb_ℤ ep.connect_timeout_ms (pos 1) || ltb_ℤ ep.response_timeout_ms (pos 1))
              path "timeouts must be >= 1",
      ep.id ∷ ids,
    )

unfoldable pub check_endpoints : ℕ → List String → List Endpoint → Diagnostics × List String
check_endpoints i ids [] = ([], ids)
check_endpoints i ids (ep ∷ eps) =
    let (found, ids') = check_endpoint i ids ep in
    let (later, all) = check_endpoints (i + 1) ids' eps in (found ++ later, all)

-- devices_by_id, whose keys are those of device_ids, and global_tag_names.
pub record Seen (F64 : Type 0) : Type 0 where
  pub devices_by_id : List (String × Device F64)
  pub global_tag_names : List String

module _ {F64 : Type 0} where
  unfoldable pub profile_ids_of : List (DeviceProfile F64) → List String
  profile_ids_of [] = []
  profile_ids_of (profile ∷ profiles) =
      let rest = profile_ids_of profiles in if profile.id =? "" then rest else profile.id ∷ rest

  -- The names of the device's tags, then those of all devices.
  unfoldable pub check_name :
      String → List String × List String → Tag F64 → Diagnostics × List String × List String
  check_name tpath (names, global) tag =
      if tag.name =? ""
      then ([], names, global)
      else if contains tag.name names
      then (
        error_if true (concat tpath ".name") (quoted "duplicate tag name '" tag.name "'"),
        names,
        global,
      )
      else (
        error_if (contains tag.name global) (concat tpath ".name")
            (quoted "duplicate tag name '" tag.name "' across devices"),
        tag.name ∷ names,
        tag.name ∷ global,
      )

  -- The checks of a tag that look at nothing else.
  unfoldable pub check_fields : String → Tag F64 → Diagnostics
  check_fields tpath tag =
      error_if (ltb_ℤ tag.address (pos 0)) (concat tpath ".address") "address must be >= 0"
      ++ (error_if (not (valid_byte_order tag.byte_order tag.type)) (concat tpath ".byteOrder")
            (quoted "invalid byteOrder '" tag.byte_order "' for type")
          ++ (error_if (is_below (pos 1) tag.quantity) (concat tpath ".quantity")
                "quantity must be >= 1"
              ++ error_if (tag.writable && is_read_only tag.area) (concat tpath ".writable")
                  "input/discrete areas cannot be writable"))

  unfoldable pub check_tags :
      String
      → ℕ
      → List String × List String
      → List (Tag F64)
      → Diagnostics × List String × List String
  check_tags path i (names, global) [] = ([], names, global)
  check_tags path i (names, global) (tag ∷ tags) =
      let tpath = concat path (indexed ".tags" i) in
      let (found, names', global') = check_name tpath (names, global) tag in
      let (later, names'', global'') = check_tags path (i + 1) (names', global') tags in
      (found ++ (check_fields tpath tag ++ later), names'', global'')

  unfoldable pub is_known : String → List (String × Device F64) → Bool
  is_known id devices = elim (lookup id devices) [ none ↦ false | some _ ↦ true ]

  unfoldable pub check_device :
      List String → List String → ℕ → Seen F64 → Device F64 → Diagnostics × Seen F64
  check_device endpoint_ids profile_ids i seen device =
      let path = indexed "devices" i in
      let (found, _, global) = check_tags path 0 ([], seen.global_tag_names) device.tags in
      (
        error_if (not (device.id =? "") && is_known device.id seen.devices_by_id)
              (concat path ".id") (quoted "duplicate device id '" device.id "'")
            ++ (error_if
                  (not (device.endpoint_id =? "") && not (contains device.endpoint_id endpoint_ids))
                  (concat path ".endpointId") (quoted "unknown endpointId '" device.endpoint_id "'")
                ++ (error_if
                      (not (device.profile_id =? "")
                        && not (contains device.profile_id profile_ids))
                      (concat path ".profileId")
                      (quoted "unknown profileId '" device.profile_id "'")
                    ++ (error_if (ltb_ℤ device.unit_id (pos 0) || ltb_ℤ (pos 255) device.unit_id)
                          (concat path ".unitId") "unitId must be in [0, 255]"
                        ++ found))),
        record {
          devices_by_id =
              if device.id =? ""
              then seen.devices_by_id
              else emplace device.id device seen.devices_by_id;
          global_tag_names = global;
        },
      )

  unfoldable pub check_devices :
      List String → List String → ℕ → Seen F64 → List (Device F64) → Diagnostics × Seen F64
  check_devices endpoint_ids profile_ids i seen [] = ([], seen)
  check_devices endpoint_ids profile_ids i seen (device ∷ devices) =
      let (found, seen') = check_device endpoint_ids profile_ids i seen device in
      let (later, all) = check_devices endpoint_ids profile_ids (i + 1) seen' devices in
      (found ++ later, all)

unfoldable pub check_blocks : String → ℕ → List RegisterBlock → Diagnostics
check_blocks path i [] = []
check_blocks path i (block ∷ blocks) =
    let bpath = concat path (indexed ".blocks" i) in
    error_if (ltb_ℤ block.start (pos 0)) (concat bpath ".start") "start must be >= 0"
    ++ (error_if (ltb_ℤ block.count (pos 1) || ltb_ℤ (pos 125) block.count) (concat bpath ".count")
          "count must be in [1, 125]"
        ++ check_blocks path (i + 1) blocks)

unfoldable pub check_tag_names : String → String → List String → List String → Diagnostics
check_tag_names path device_id names [] = []
check_tag_names path device_id names (tag_name ∷ tag_names) =
    error_if (not (contains tag_name names)) (concat path ".tagNames")
      (quoted "tag '" tag_name (quoted "' not found on device '" device_id "'"))
    ++ check_tag_names path device_id names tag_names

abbrev pub is_empty : {A : Type 0} → List A → Bool
is_empty [] = true
is_empty _ = false

module _ {F64 : Type 0} where
  unfoldable pub check_named : String → PollGroup → Option (Device F64) → Diagnostics
  check_named path group none = []
  check_named path group (some device) =
      check_tag_names path group.device_id (map (λ tag. tag.name) device.tags) group.tag_names

  unfoldable pub check_group :
      List (String × Device F64) → ℕ → List String → PollGroup → Diagnostics × List String
  check_group devices i ids group =
      let path = indexed "pollGroups" i in
      (
        error_if (not (group.id =? "") && contains group.id ids) (concat path ".id")
              (quoted "duplicate poll group id '" group.id "'")
            ++ (error_if (ltb_ℤ group.period_ms (pos 10)) (concat path ".periodMs")
                  "periodMs must be >= 10"
                ++ (error_if (not (group.device_id =? "") && not (is_known group.device_id devices))
                      (concat path ".deviceId") (quoted "unknown deviceId '" group.device_id "'")
                    ++ (warning_if (is_empty group.blocks && is_empty group.tag_names) path
                          "poll group has neither blocks nor tagNames"
                        ++ (check_blocks path 0 group.blocks
                            ++ check_named path group (lookup group.device_id devices))))),
        if group.id =? "" then ids else group.id ∷ ids,
      )

  unfoldable pub check_groups :
      List (String × Device F64) → ℕ → List String → List PollGroup → Diagnostics × List String
  check_groups devices i ids [] = ([], ids)
  check_groups devices i ids (group ∷ groups) =
      let (found, ids') = check_group devices i ids group in
      let (later, all) = check_groups devices (i + 1) ids' groups in (found ++ later, all)

  unfoldable pub check_tag_groups : String → ℕ → List String → List (Tag F64) → Diagnostics
  check_tag_groups path i ids [] = []
  check_tag_groups path i ids (tag ∷ tags) =
      warning_if (not (tag.group =? "") && not (contains tag.group ids))
        (concat path (concat (indexed ".tags" i) ".group"))
        (quoted "tag group '" tag.group "' has no matching pollGroups.id")
      ++ check_tag_groups path (i + 1) ids tags

  unfoldable pub check_all_tag_groups : ℕ → List String → List (Device F64) → Diagnostics
  check_all_tag_groups i ids [] = []
  check_all_tag_groups i ids (device ∷ devices) =
      check_tag_groups (indexed "devices" i) 0 ids device.tags
      ++ check_all_tag_groups (i + 1) ids devices

  abbrev pub nothing_seen : Seen F64
  nothing_seen = record { devices_by_id = []; global_tag_names = [] }

  unfoldable pub validate : Project F64 → Diagnostics → Diagnostics
  validate project diagnostics =
      let (of_endpoints, endpoint_ids) = check_endpoints 0 [] project.endpoints in
      let profile_ids = profile_ids_of project.device_profiles in
      let (of_devices, seen) =
        check_devices endpoint_ids profile_ids 0 nothing_seen project.devices in
      let (of_groups, group_ids) = check_groups seen.devices_by_id 0 [] project.poll_groups in
      diagnostics
      ++ (error_if (ltb_ℤ project.schema_version (pos 1)) "schemaVersion" "must be >= 1"
          ++ (of_endpoints
              ++ (of_devices ++ (of_groups ++ check_all_tag_groups 0 group_ids project.devices))))

-- The loop of load_json_text over the diagnostics: whether the project is accepted.
unfoldable pub is_accepted : Diagnostics → Bool
is_accepted [] = true
is_accepted (d ∷ ds) = elim d.severity [
  | Severity.error ↦ false
  | Severity.warning ↦ is_accepted ds
]
