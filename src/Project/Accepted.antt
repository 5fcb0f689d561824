-- ===== src/Project/Accepted.antt =====
-- What validate has checked of a project without errors: its tags, devices and groups.
pub mod Errors
pub mod Devices
use opc_server.Prelude.{
  ℕ, ◌+◌, ◌≡◌, ◌⊎◌, inl, inr, refl, sym, ap, ◌∙◌, List, [], ◌∷◌, ◌++◌, map, Option, none, some,
  Bool, true, false, not, ◌&&◌, if◌then◌else◌, String, All, Bool-cases, arith,
}
use opc_server.Prelude.Int.{pos, ◌≤ℤ◌}
use opc_server.Prelude.Eq.{◌=?◌, string_eq}
use opc_server.Prelude.Map.{lookup, or_else, lookup-emplace_any}
use opc_server.Prelude.Text.{contains}
use opc_server.Project.{Project, Device, Tag, PollGroup}
use opc_server.Index.{device_from}
use opc_server.Project.Validate.{
  Severity, Diagnostics, error_if, warning_if, is_below, is_read_only, valid_byte_order, check_name,
  check_fields, check_tags, Seen, is_known, check_device, check_devices, check_blocks,
  check_tag_names, check_named, check_group, check_groups, check_endpoints, profile_ids_of,
  nothing_seen, validate, is_accepted,
}
use opc_server.Project.Accepted.Errors.{
  Accepted, Accepted-append, Accepted-error_if, error_if_last, Accepted-warning_if,
}
use opc_server.Project.Accepted.Devices.{IsValidTag, IsValidDevice, check_devices-All}

check_tag_names-All :
    (path id : String) (names tag_names : List String)
    → Accepted (check_tag_names path id names tag_names)
    → All (λ name. contains name names ≡ true) tag_names
unfolding check_tag_names
check_tag_names-All path id names [] h = tt
check_tag_names-All path id names (name ∷ tag_names) h =
    let (found, rest) = Accepted-error_if (not (contains name names)) _ _ _ h in
    (ground (arith, found), check_tag_names-All path id names tag_names rest)

module _ {F64 : Type 0} where
  -- The names are names of the device's tags, if there is a device.
  abbrev pub Named : Option (Device F64) → List String → Type 0
  Named none names = Unit
  Named (some device) names =
      All (λ name. contains name (map (λ tag. tag.name) device.tags) ≡ true) names

  pub record IsValidGroup (devices : List (String × Device F64)) (group : PollGroup) : Type 0 where
    pub period : pos 10 ≤ℤ group.period_ms
    pub known : (not (group.device_id =? "") && not (is_known group.device_id devices)) ≡ false
    pub names : Named (lookup group.device_id devices) group.tag_names

  check_named-Named :
      (path : String) (group : PollGroup) (found : Option (Device F64))
      → Accepted (check_named path group found)
      → Named found group.tag_names
  unfolding check_named
  check_named-Named path group none h = tt
  check_named-Named path group (some device) h =
      check_tag_names-All path group.device_id (map (λ tag. tag.name) device.tags) group.tag_names h

  check_group-IsValidGroup :
      (devices : List (String × Device F64)) (i : ℕ) (ids : List String) (group : PollGroup)
      → Accepted (check_group devices i ids group).0
      → IsValidGroup devices group
  unfolding check_group
  check_group-IsValidGroup devices i ids group h =
      let (_, h1) = Accepted-error_if _ _ _ _ h in
      let (period, h2) = Accepted-error_if _ _ _ _ h1 in
      let (known, h3) = Accepted-error_if _ _ _ _ h2 in
      let h4 = Accepted-warning_if _ _ _ _ h3 in
      let (_, h5) = Accepted-append (check_blocks _ 0 group.blocks) _ h4 in
      record {
        period = ground (arith, period);
        known = known;
        names = check_named-Named _ group (lookup group.device_id devices) h5;
      }

  check_groups-All :
      (groups : List PollGroup) (devices : List (String × Device F64)) (i : ℕ) (ids : List String)
      → Accepted (check_groups devices i ids groups).0
      → All (IsValidGroup devices) groups
  unfolding check_groups
  check_groups-All [] devices i ids h = tt
  check_groups-All (group ∷ groups) devices i ids h =
      let (h1, h2) = Accepted-append (check_group devices i ids group).0 _ h in
      (
        check_group-IsValidGroup devices i ids group h1,
        check_groups-All groups devices (i + 1) _ h2,
      )

  or_else_none : (o : Option (Device F64)) → o ≡ or_else o none
  or_else_none none = refl
  or_else_none (some d) = refl

  lookup-check_device :
      (endpoints profiles : List String) (i : ℕ) (seen : Seen F64) (device : Device F64)
      (id : String)
      → (id =? "") ≡ false
      → lookup id (check_device endpoints profiles i seen device).1.devices_by_id
        ≡ or_else (lookup id seen.devices_by_id) (if device.id =? id then some device else none)
  unfolding check_device
  lookup-check_device endpoints profiles i seen device id h = elim (Bool-cases (device.id =? "")) [
    | inl e ↦ rw (e, other e) (or_else_none (lookup id seen.devices_by_id))
    | inr e ↦ rw e (lookup-emplace_any device.id id device seen.devices_by_id)
  ]
    where
      other : (device.id =? "") ≡ true → (device.id =? id) ≡ false
      other e = ground (
        arith,
        h,
        e,
        string_eq.beq_iff device.id "",
        string_eq.beq_iff device.id id,
        string_eq.beq_iff id "",
      )

  lookup-check_devices :
      (devices : List (Device F64)) (endpoints profiles : List String) (i : ℕ) (seen : Seen F64)
      (id : String)
      → (id =? "") ≡ false
      → lookup id (check_devices endpoints profiles i seen devices).1.devices_by_id
        ≡ or_else (lookup id seen.devices_by_id) (device_from devices id)
  unfolding check_devices device_from
  lookup-check_devices [] endpoints profiles i seen id h =
      or_else_none (lookup id seen.devices_by_id)
  lookup-check_devices (device ∷ devices) endpoints profiles i seen id h =
      lookup-check_devices devices endpoints profiles (i + 1)
        (check_device endpoints profiles i seen device).1 id h
      ∙ ap (λ o. or_else o (device_from devices id))
          (lookup-check_device endpoints profiles i seen device id h)
      ∙ regroup (lookup id seen.devices_by_id) (device.id =? id) (device_from devices id)
    where
      regroup :
          (o : Option (Device F64)) (c : Bool) (rest : Option (Device F64))
          → or_else (or_else o (if c then some device else none)) rest
            ≡ or_else o (if c then some device else rest)
      regroup none true rest = refl
      regroup none false rest = refl
      regroup (some d) c rest = refl

module _ {F64 : Type 0} where
  -- A group whose period is long enough and whose device, if it names one, is the first of that
  -- name and has every tag that the group lists.
  pub record Fits (project : Project F64) (group : PollGroup) : Type 0 where
    pub period : pos 10 ≤ℤ group.period_ms
    pub device :
        ((group.device_id =? "") ≡ true)
        ⊎ ((d : Device F64) × (device_from project.devices group.device_id ≡ some d)
            × Named (some d) group.tag_names)

  pub record IsValidProject (project : Project F64) : Type 0 where
    pub devices : All IsValidDevice project.devices
    pub groups : All (Fits project) project.poll_groups

  Fits-IsValidGroup :
      (project : Project F64) (devices : List (String × Device F64)) (group : PollGroup)
      → ((id : String) → (id =? "") ≡ false → lookup id devices ≡ device_from project.devices id)
      → IsValidGroup devices group
      → Fits project group
  unfolding is_known
  Fits-IsValidGroup project devices group same valid = elim (Bool-cases (group.device_id =? "")) [
    | inl e ↦ record { period = valid.period; device = inl e }
    | inr e ↦ record {
      period = valid.period;
      device = inr (
          found (lookup group.device_id devices) (same group.device_id e) valid.names e
            valid.known);
    }
  ]
    where
      found :
          (o : Option (Device F64))
          → o ≡ device_from project.devices group.device_id
          → Named o group.tag_names
          → (group.device_id =? "") ≡ false
          → (not (group.device_id =? "") && not (elim o [ none ↦ false | some _ ↦ true ])) ≡ false
          → (d : Device F64) × (device_from project.devices group.device_id ≡ some d)
            × Named (some d) group.tag_names
      found none e names given known = absurd (ground (arith, given, known))
      found (some d) e names given known = (d, sym e, names)

  Fits-All :
      (project : Project F64) (devices : List (String × Device F64)) (groups : List PollGroup)
      → ((id : String) → (id =? "") ≡ false → lookup id devices ≡ device_from project.devices id)
      → All (IsValidGroup devices) groups
      → All (Fits project) groups
  Fits-All project devices [] same valid = tt
  Fits-All project devices (group ∷ groups) same valid = (
    Fits-IsValidGroup project devices group same valid.0,
    Fits-All project devices groups same valid.1,
  )

  -- If no diagnostic of validate is an error, each device's unit is from 0 to 255, each tag has an
  -- address of at least 0, a byte order for its type, a quantity of at least 1 if one is set, and is
  -- not writable in a read-only area; each group's period is at least 10 ms, and the device that it
  -- names is there with every tag that the group lists.
  pub validate-IsValidProject :
      (project : Project F64) (diagnostics : Diagnostics)
      → Accepted (validate project diagnostics)
      → IsValidProject project
  unfolding validate lookup
  validate-IsValidProject project diagnostics h =
      let endpoints = (check_endpoints 0 [] project.endpoints).1 in
      let profiles = profile_ids_of project.device_profiles in
      let checked = check_devices endpoints profiles 0 nothing_seen project.devices in
      let (_, h1) = Accepted-append diagnostics _ h in
      let (_, h2) = Accepted-error_if _ _ _ _ h1 in
      let (_, h3) = Accepted-append (check_endpoints 0 [] project.endpoints).0 _ h2 in
      let (h4, h5) = Accepted-append checked.0 _ h3 in
      let (h6, _) =
        Accepted-append (check_groups checked.1.devices_by_id 0 [] project.poll_groups).0 _ h5 in
      record {
        devices = check_devices-All project.devices endpoints profiles 0 nothing_seen h4;
        groups =
            Fits-All project checked.1.devices_by_id project.poll_groups
              (λ id e. lookup-check_devices project.devices endpoints profiles 0 nothing_seen id e)
              (check_groups-All project.poll_groups checked.1.devices_by_id 0 [] h6);
      }
