-- ===== src/Project/Accepted/Devices.antt =====
-- What validate has checked of the tags and the devices of a project without errors.
use opc_server.Prelude.{ℕ, ◌+◌, ◌≡◌, List, [], ◌∷◌, ◌++◌, true, false, ◌&&◌, String, All, arith}
use opc_server.Prelude.Int.{pos, ◌≤ℤ◌}
use opc_server.Prelude.Eq.{string_eq}
use opc_server.Project.{Device, Tag}
use opc_server.Project.Validate.{
  Diagnostics, is_below, is_read_only, valid_byte_order, check_name, check_fields, check_tags, Seen,
  check_device, check_devices,
}
use opc_server.Project.Accepted.Errors.{Accepted, Accepted-append, Accepted-error_if, error_if_last}

module _ {F64 : Type 0} where
  pub record IsValidTag (tag : Tag F64) : Type 0 where
    pub address : pos 0 ≤ℤ tag.address
    pub order : valid_byte_order tag.byte_order tag.type ≡ true
    pub quantity : is_below (pos 1) tag.quantity ≡ false
    pub area : (tag.writable && is_read_only tag.area) ≡ false

  pub record IsValidDevice (device : Device F64) : Type 0 where
    pub unit_low : pos 0 ≤ℤ device.unit_id
    pub unit_high : device.unit_id ≤ℤ pos 255
    pub tags : All IsValidTag device.tags

  pub check_fields-IsValidTag :
      (tpath : String) (tag : Tag F64) (ys : Diagnostics)
      → Accepted (check_fields tpath tag ++ ys)
      → IsValidTag tag × Accepted ys
  unfolding check_fields
  check_fields-IsValidTag tpath tag ys h =
      let (fields, rest) = Accepted-append (check_fields tpath tag) ys h in
      let (a, h1) = Accepted-error_if _ _ _ _ fields in
      let (b, h2) = Accepted-error_if _ _ _ _ h1 in
      let (c, h3) = Accepted-error_if _ _ _ _ h2 in
      let d = error_if_last _ _ _ h3 in
      (
        record { address = ground (arith, a); order = ground (arith, b); quantity = c; area = d },
        rest,
      )

  pub check_tags-All :
      (tags : List (Tag F64)) (path : String) (i : ℕ) (names global : List String)
      → Accepted (check_tags path i (names, global) tags).0
      → All IsValidTag tags
  unfolding check_tags
  check_tags-All [] path i names global h = tt
  check_tags-All (tag ∷ tags) path i names global h =
      let (_, h1) = Accepted-append (check_name _ (names, global) tag).0 _ h in
      let (valid, h2) = check_fields-IsValidTag _ tag _ h1 in
      (valid, check_tags-All tags path (i + 1) _ _ h2)

  pub check_device-IsValidDevice :
      (endpoints profiles : List String) (i : ℕ) (seen : Seen F64) (device : Device F64)
      → Accepted (check_device endpoints profiles i seen device).0
      → IsValidDevice device
  unfolding check_device
  check_device-IsValidDevice endpoints profiles i seen device h =
      let (_, h1) = Accepted-error_if _ _ _ _ h in
      let (_, h2) = Accepted-error_if _ _ _ _ h1 in
      let (_, h3) = Accepted-error_if _ _ _ _ h2 in
      let (u, h4) = Accepted-error_if _ _ _ _ h3 in
      record {
        unit_low = ground (arith, u);
        unit_high = ground (arith, u);
        tags = check_tags-All device.tags _ 0 [] seen.global_tag_names h4;
      }

  pub check_devices-All :
      (devices : List (Device F64)) (endpoints profiles : List String) (i : ℕ) (seen : Seen F64)
      → Accepted (check_devices endpoints profiles i seen devices).0
      → All IsValidDevice devices
  unfolding check_devices
  check_devices-All [] endpoints profiles i seen h = tt
  check_devices-All (device ∷ devices) endpoints profiles i seen h =
      let (h1, h2) = Accepted-append (check_device endpoints profiles i seen device).0 _ h in
      (
        check_device-IsValidDevice endpoints profiles i seen device h1,
        check_devices-All devices endpoints profiles (i + 1) _ h2,
      )
