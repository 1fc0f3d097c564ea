-- ===== src/Mesh/Device.antt =====
-- src/core/mesh/topology/device.c: a device of the mesh and its JSON.
use noc_demo.Common.{
  ◌≡◌, refl, ◌∙◌, if◌then◌else◌, or_else, Option, none, some, List, [], ◌∷◌, map, All,
}
use noc_demo.Common.Int.{ℤ, pos, IsInt}
use noc_demo.Common.Texts.{Text, codes}
use noc_demo.CJson.Base.{CJson}
use noc_demo.CJson.Object.{
  Members, object_of, string_item, number_item, get_item, get_item-object_of, find_member,
  is_object, read_string, read_int, read_string-member, read_int-member, kind-object_of,
}
use noc_demo.CJson.Array.{array_of, read_array, read_array-map_if}

pub record DeviceInfo : Type 0 where
  pub hub_id : Option Text
  pub ezm_id : Option Text
  pub ezm_version : Option Text
  pub ezm_name : Option Text
  pub role : Option Text
  pub mac : Option Text
  pub ip : Option Text
  pub parent_mac : Option Text
  pub channel_selection_5g : Option Text
  pub channel_selection_2g : Option Text
  pub status : ℤ

-- DEVICE_OFF, DEVICE_ON, DEVICE_PAIRING and DEVICE_DELETED
abbrev pub device_off : ℤ
device_off = pos 0

abbrev pub device_on : ℤ
device_on = pos 1

abbrev pub device_pairing : ℤ
device_pairing = pos 2

abbrev pub device_deleted : ℤ
device_deleted = pos 3

-- The status is a machine integer.
abbrev pub StatusFits : DeviceInfo → Type 0
StatusFits d = IsInt d.status

module _ ⦃cj : CJson⦄ where
  open cj use {Json}

  abbrev pub channel_members : DeviceInfo → Members
  channel_members device =
      (codes "5g", string_item device.channel_selection_5g)
      ∷ (codes "2g", string_item device.channel_selection_2g)
      ∷ []

  abbrev pub device_members : DeviceInfo → Members
  device_members device =
      (codes "hub_id", string_item device.hub_id)
      ∷ (codes "ezm_id", string_item device.ezm_id)
      ∷ (codes "ezm_version", string_item device.ezm_version)
      ∷ (codes "ezm_name", string_item device.ezm_name)
      ∷ (codes "role", string_item device.role)
      ∷ (codes "mac", string_item device.mac)
      ∷ (codes "ip", string_item device.ip)
      ∷ (codes "parent_mac", string_item device.parent_mac)
      ∷ (codes "channel_selection", some (object_of (channel_members device)))
      ∷ (codes "status", number_item device.status)
      ∷ []

  unfoldable pub cvt_device_info_to_json : DeviceInfo → Json
  cvt_device_info_to_json device = object_of (device_members device)

  -- a member of the member "channel_selection", if that is an object
  unfoldable pub read_channel : Option Json → Text → Option Text
  read_channel json k =
      let channels = get_item json (codes "channel_selection") in
      if is_object channels then read_string channels k else none

  unfoldable pub cvt_json_to_device_info : Option Json → DeviceInfo
  cvt_json_to_device_info json = record {
    hub_id = read_string json (codes "hub_id");
    ezm_id = read_string json (codes "ezm_id");
    ezm_version = read_string json (codes "ezm_version");
    ezm_name = read_string json (codes "ezm_name");
    role = read_string json (codes "role");
    mac = read_string json (codes "mac");
    ip = read_string json (codes "ip");
    parent_mac = read_string json (codes "parent_mac");
    channel_selection_5g = read_channel json (codes "5g");
    channel_selection_2g = read_channel json (codes "2g");
    status = read_int json (codes "status");
  }

  unfoldable pub cvt_device_list_to_json : List DeviceInfo → Json
  cvt_device_list_to_json devices = array_of (map cvt_device_info_to_json devices)

  unfoldable pub cvt_json_to_device_list : Option Json → List DeviceInfo
  cvt_json_to_device_list json = read_array cvt_json_to_device_info json

  read_channel-member :
      (ms cs : Members) (k : Text) (v : Option Text)
      → find_member (codes "channel_selection") ms ≡ some (object_of cs)
      → find_member k cs ≡ or_else (string_item v) none
      → read_channel (some (object_of ms)) k ≡ v
  unfolding read_channel is_object
  read_channel-member ms cs k v h inner =
      rw (get_item-object_of ms (codes "channel_selection") ∙ h, kind-object_of cs)
        (read_string-member cs k v inner)

  device_info_round_trip :
      (d : DeviceInfo)
      → StatusFits d
      → cvt_json_to_device_info (some (cvt_device_info_to_json d)) ≡ d
  unfolding cvt_device_info_to_json cvt_json_to_device_info
  device_info_round_trip d fits =
      let ms = device_members d in
      let cs = channel_members d in
      λ i. record {
        hub_id = read_string-member ms (codes "hub_id") d.hub_id refl i;
        ezm_id = read_string-member ms (codes "ezm_id") d.ezm_id refl i;
        ezm_version = read_string-member ms (codes "ezm_version") d.ezm_version refl i;
        ezm_name = read_string-member ms (codes "ezm_name") d.ezm_name refl i;
        role = read_string-member ms (codes "role") d.role refl i;
        mac = read_string-member ms (codes "mac") d.mac refl i;
        ip = read_string-member ms (codes "ip") d.ip refl i;
        parent_mac = read_string-member ms (codes "parent_mac") d.parent_mac refl i;
        channel_selection_5g =
            read_channel-member ms cs (codes "5g") d.channel_selection_5g refl refl i;
        channel_selection_2g =
            read_channel-member ms cs (codes "2g") d.channel_selection_2g refl refl i;
        status = read_int-member ms (codes "status") d.status fits refl i;
      }

  -- A list of devices whose statuses are machine integers is read back from its JSON array, the
  -- nested object of the channels included.
  pub device_list_round_trip :
      (devices : List DeviceInfo)
      → All StatusFits devices
      → cvt_json_to_device_list (some (cvt_device_list_to_json devices)) ≡ devices
  unfolding cvt_device_list_to_json cvt_json_to_device_list
  device_list_round_trip devices fits =
      read_array-map_if {P = StatusFits} cvt_json_to_device_info cvt_device_info_to_json devices
        device_info_round_trip fits
