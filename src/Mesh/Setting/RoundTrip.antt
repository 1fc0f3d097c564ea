-- ===== src/Mesh/Setting/RoundTrip.antt =====
-- The settings of the mesh are read back from the JSON that they are written as.
use noc_demo.Common.{◌≡◌, refl, some}
use noc_demo.Common.Int.{IsInt}
use noc_demo.Common.Texts.{codes}
use noc_demo.CJson.Base.{CJson}
use noc_demo.CJson.Nested.{read_object-member}
use noc_demo.CJson.Object.{read_string-member, read_int-member, read_bool-member, kind-object_of}
use noc_demo.Mesh.Setting.{
  RssiThreshhold, AntennaInstalled, MeshSetting, rssi_members, antenna_members,
  mesh_setting_members, cvt_rssi_threshhold_to_json, cvt_json_to_rssi_threshhold,
  cvt_antenna_installed_to_json, cvt_json_to_antenna_installed, cvt_mesh_setting_to_json,
  cvt_json_to_mesh_setting,
}
use noc_demo.Network.Wlan.{wireless_members, cvt_wireless_to_json, cvt_json_to_wireless}
use noc_demo.Network.Wlan.RoundTrip.{wireless_round_trip}

-- The numbers of the thresholds are machine integers.
abbrev pub RssiFits : RssiThreshhold → Type 0
RssiFits r = IsInt r.up × IsInt r.down

-- All numbers of a setting are machine integers.
abbrev pub SettingFits : MeshSetting → Type 0
SettingFits m =
    ((r : RssiThreshhold) → m.rssi_threshhold ≡ some r → RssiFits r)
    × IsInt m.active_time_after_set
    × IsInt m.weight_mesh
    × IsInt m.minimum_mesh_link_snr

module _ ⦃cj : CJson⦄ where
  rssi_round_trip :
      (r : RssiThreshhold)
      → RssiFits r
      → cvt_json_to_rssi_threshhold (some (cvt_rssi_threshhold_to_json r)) ≡ r
  unfolding cvt_rssi_threshhold_to_json cvt_json_to_rssi_threshhold
  rssi_round_trip r (up_fits, down_fits) =
      let ms = rssi_members r in
      λ i. record {
        up = read_int-member ms (codes "up") r.up up_fits refl i;
        down = read_int-member ms (codes "down") r.down down_fits refl i;
      }

  antenna_round_trip :
      (a : AntennaInstalled)
      → cvt_json_to_antenna_installed (some (cvt_antenna_installed_to_json a)) ≡ a
  unfolding cvt_antenna_installed_to_json cvt_json_to_antenna_installed
  antenna_round_trip a =
      let ms = antenna_members a in
      λ i. record {
        up = read_bool-member ms (codes "up") a.up refl i;
        down = read_bool-member ms (codes "down") a.down refl i;
      }

  -- A setting of the mesh whose numbers are machine integers is read back from its JSON object,
  -- with the structures inside and those of them that are NULL.
  pub mesh_setting_round_trip :
      (m : MeshSetting)
      → SettingFits m
      → cvt_json_to_mesh_setting (some (cvt_mesh_setting_to_json m)) ≡ m
  unfolding cvt_mesh_setting_to_json cvt_json_to_mesh_setting cvt_rssi_threshhold_to_json
      cvt_antenna_installed_to_json cvt_wireless_to_json
  mesh_setting_round_trip m (rssi_fits, time_fits, weight_fits, snr_fits) =
      let ms = mesh_setting_members m in
      λ i. record {
        mesh_id = read_string-member ms (codes "mesh_id") m.mesh_id refl i;
        mesh_name = read_string-member ms (codes "mesh_name") m.mesh_name refl i;
        type = read_string-member ms (codes "type") m.type refl i;
        rssi_threshhold =
            read_object-member cvt_json_to_rssi_threshhold cvt_rssi_threshhold_to_json ms
              (codes "rssi_threshhold") m.rssi_threshhold (λ a. kind-object_of (rssi_members a))
              (λ a h. rssi_round_trip a (rssi_fits a h)) refl i;
        antenna_installed =
            read_object-member cvt_json_to_antenna_installed cvt_antenna_installed_to_json ms
              (codes "antenna_installed") m.antenna_installed
              (λ a. kind-object_of (antenna_members a)) (λ a h. antenna_round_trip a) refl i;
        backhaul_channel =
            read_string-member ms (codes "backhaul_channel") m.backhaul_channel refl i;
        active_time_after_set =
            read_int-member ms (codes "active_time_after_set") m.active_time_after_set time_fits
              refl i;
        work_mode = read_string-member ms (codes "work_mode") m.work_mode refl i;
        weight_mesh = read_int-member ms (codes "weight_mesh") m.weight_mesh weight_fits refl i;
        mesh_link_connection =
            read_string-member ms (codes "mesh_link_connection") m.mesh_link_connection refl i;
        minimum_mesh_link_snr =
            read_int-member ms (codes "minimum_mesh_link_snr") m.minimum_mesh_link_snr snr_fits refl
              i;
        wireless =
            read_object-member cvt_json_to_wireless cvt_wireless_to_json ms (codes "wireless")
              m.wireless (λ a. kind-object_of (wireless_members a)) (λ a h. wireless_round_trip a)
              refl i;
      }
