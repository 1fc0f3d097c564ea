-- ===== src/Mesh/Setting.antt =====
-- src/core/mesh/setting/mesh_setting.c: the settings of the mesh, their JSON, and the work mode.
pub mod RoundTrip
pub mod WorkMode
use noc_demo.Common.{Bool, if◌then◌else◌, Option, none, some, List, [], ◌∷◌}
use noc_demo.Common.Int.{ℤ, pos, negsuc}
use noc_demo.Common.Texts.{Text, codes, text_eq}
use noc_demo.CJson.Base.{CJson}
use noc_demo.CJson.Nested.{pointer_item, read_object}
use noc_demo.CJson.Object.{
  Members, object_of, string_item, number_item, bool_item, read_string, read_int, read_bool,
}
use noc_demo.Config.{Config}
use noc_demo.Network.Wlan.{Wireless, cvt_wireless_to_json, cvt_json_to_wireless}
use noc_demo.Settings.{load_json_from_file}
use noc_demo.World.{Cmd, pure, stop, null_read, ◌>>=◌}

pub record RssiThreshhold : Type 0 where
  pub up : ℤ
  pub down : ℤ

pub record AntennaInstalled : Type 0 where
  pub up : Bool
  pub down : Bool

-- The three structures inside are pointers and may be NULL.
pub record MeshSetting : Type 0 where
  pub mesh_id : Option Text
  pub mesh_name : Option Text
  pub type : Option Text
  pub rssi_threshhold : Option RssiThreshhold
  pub antenna_installed : Option AntennaInstalled
  pub backhaul_channel : Option Text
  pub active_time_after_set : ℤ
  pub work_mode : Option Text
  pub weight_mesh : ℤ
  pub mesh_link_connection : Option Text
  pub minimum_mesh_link_snr : ℤ
  pub wireless : Option Wireless

-- STANDALONE_MODE, AGENT_MODE and CONTROLLER_MODE, or -1
abbrev pub mode_of : Text → ℤ
mode_of mode =
    if text_eq mode (codes "standalone")
    then pos 0
    else if text_eq mode (codes "agent")
    then pos 1
    else if text_eq mode (codes "controller")
    then pos 2
    else negsuc 0

module _ ⦃cj : CJson⦄ where
  open cj use {Json}

  abbrev pub rssi_members : RssiThreshhold → Members
  rssi_members r = (codes "up", number_item r.up) ∷ (codes "down", number_item r.down) ∷ []

  unfoldable pub cvt_rssi_threshhold_to_json : RssiThreshhold → Json
  cvt_rssi_threshhold_to_json r = object_of (rssi_members r)

  unfoldable pub cvt_json_to_rssi_threshhold : Option Json → RssiThreshhold
  cvt_json_to_rssi_threshhold json = record {
    up = read_int json (codes "up");
    down = read_int json (codes "down");
  }

  abbrev pub antenna_members : AntennaInstalled → Members
  antenna_members a = (codes "up", bool_item a.up) ∷ (codes "down", bool_item a.down) ∷ []

  unfoldable pub cvt_antenna_installed_to_json : AntennaInstalled → Json
  cvt_antenna_installed_to_json a = object_of (antenna_members a)

  -- What is not a Boolean is not true either, so the test of cJSON_IsBool is not written out.
  unfoldable pub cvt_json_to_antenna_installed : Option Json → AntennaInstalled
  cvt_json_to_antenna_installed json = record {
    up = read_bool json (codes "up");
    down = read_bool json (codes "down");
  }

  abbrev pub mesh_setting_members : MeshSetting → Members
  mesh_setting_members m =
      (codes "mesh_id", string_item m.mesh_id)
      ∷ (codes "mesh_name", string_item m.mesh_name)
      ∷ (codes "type", string_item m.type)
      ∷ (codes "rssi_threshhold", pointer_item cvt_rssi_threshhold_to_json m.rssi_threshhold)
      ∷ (codes "antenna_installed", pointer_item cvt_antenna_installed_to_json m.antenna_installed)
      ∷ (codes "backhaul_channel", string_item m.backhaul_channel)
      ∷ (codes "active_time_after_set", number_item m.active_time_after_set)
      ∷ (codes "work_mode", string_item m.work_mode)
      ∷ (codes "weight_mesh", number_item m.weight_mesh)
      ∷ (codes "mesh_link_connection", string_item m.mesh_link_connection)
      ∷ (codes "minimum_mesh_link_snr", number_item m.minimum_mesh_link_snr)
      ∷ (codes "wireless", pointer_item cvt_wireless_to_json m.wireless)
      ∷ []

  unfoldable pub cvt_mesh_setting_to_json : MeshSetting → Json
  cvt_mesh_setting_to_json m = object_of (mesh_setting_members m)

  unfoldable pub cvt_json_to_mesh_setting : Option Json → MeshSetting
  cvt_json_to_mesh_setting json = record {
    mesh_id = read_string json (codes "mesh_id");
    mesh_name = read_string json (codes "mesh_name");
    type = read_string json (codes "type");
    rssi_threshhold = read_object cvt_json_to_rssi_threshhold json (codes "rssi_threshhold");
    antenna_installed = read_object cvt_json_to_antenna_installed json (codes "antenna_installed");
    backhaul_channel = read_string json (codes "backhaul_channel");
    active_time_after_set = read_int json (codes "active_time_after_set");
    work_mode = read_string json (codes "work_mode");
    weight_mesh = read_int json (codes "weight_mesh");
    mesh_link_connection = read_string json (codes "mesh_link_connection");
    minimum_mesh_link_snr = read_int json (codes "minimum_mesh_link_snr");
    wireless = read_object cvt_json_to_wireless json (codes "wireless");
  }

  module _ (config : Config) where
    load_setting : Cmd MeshSetting
    load_setting = do
      json ← load_json_from_file config.mesh_setting_file
      pure (cvt_json_to_mesh_setting json)

    -- strcmp of a NULL work mode reads through NULL.
    unfoldable pub compare_mode : Option Text → Cmd ℤ
    compare_mode none = stop null_read
    compare_mode (some mode) = pure (mode_of mode)

    unfoldable pub get_work_mode : Cmd ℤ
    unfolding load_setting compare_mode
    get_work_mode = do setting ← load_setting; compare_mode setting.work_mode

    unfoldable pub get_work_mode_str : Cmd (Option Text)
    unfolding load_setting
    get_work_mode_str = do setting ← load_setting; pure setting.work_mode
