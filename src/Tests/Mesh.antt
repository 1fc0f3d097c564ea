-- ===== src/Tests/Mesh.antt =====
-- The properties of the list of devices at concrete inputs.
use mathlib.Core.Path.{subst}
use noc_demo.Common.{
  ◌≤◌, ◌≡◌, refl, true, false, Option, none, some, List, [], ◌∷◌, length, All, arith,
}
use noc_demo.Common.Texts.{Text, codes, contains, strstr_found}
use noc_demo.CJson.Tree.{tree_cjson}
use noc_demo.Mesh.Device.{DeviceInfo, StatusFits, device_on, device_deleted}
use noc_demo.Mesh.Topology.{
  delete_device_list_from_file, get_device_from_file_by_mac,
  update_device_list_to_file_from_emt_device, request_device_list_from_file_by_status,
}
use noc_demo.Mesh.Topology.Listed.{
  HasDevices, HasDevices-listed, listed, Settled, Present, emt_update_settles,
}
use noc_demo.Mesh.Topology.Marked.{names, delete_marks_one}
use noc_demo.Common.Int.{pos, negsuc}
use noc_demo.Mesh.Setting.{
  RssiThreshhold, MeshSetting, cvt_mesh_setting_to_json, get_work_mode, get_work_mode_str,
}
use noc_demo.Mesh.Setting.RoundTrip.{RssiFits, SettingFits}
use noc_demo.Mesh.Setting.WorkMode.{standalone, agent, controller, Unknown, work_mode_read}
use noc_demo.Settings.{saved, HasSetting, HasSetting-saved}
use noc_demo.Tests.Base.{config, empty_world}
use noc_demo.World.{World, done, stopped, null_read}

abbrev device : Text → Text → DeviceInfo
device role mac = record {
  hub_id = none;
  ezm_id = none;
  ezm_version = none;
  ezm_name = some (codes "hall");
  role = some role;
  mac = some mac;
  ip = none;
  parent_mac = none;
  channel_selection_5g = some (codes "36");
  channel_selection_2g = none;
  status = device_on;
}

abbrev first_agent : DeviceInfo
first_agent = device (codes "agent") (codes "a1")

abbrev second_agent : DeviceInfo
second_agent = device (codes "agent") (codes "b2")

abbrev stored : List DeviceInfo
stored = first_agent ∷ second_agent ∷ []

stored_fit : All StatusFits stored
stored_fit = (omega arith, (omega arith, tt))

abbrev world : World
world = listed config stored empty_world

has_devices : HasDevices config stored world
has_devices = HasDevices-listed config stored empty_world refl stored_fit

emt_update_settles_example :
    (ds on : List DeviceInfo) × (w' : World) × (update_device_list_to_file_from_emt_device config
        (first_agent ∷ [])
        world
      ≡ done tt w')
    × HasDevices config ds w'
    × All (Settled (first_agent ∷ [])) ds
    × (length stored ≤ length ds)
    × (request_device_list_from_file_by_status config device_on w' ≡ done on w')
    × All (Present (first_agent ∷ [])) on
emt_update_settles_example =
    emt_update_settles config (first_agent ∷ []) stored world has_devices refl

first_not_named : names second_agent (first_agent ∷ []) ≡ false
unfolding contains
first_not_named = refl

second_named : strstr_found second_agent.mac second_agent.mac ≡ true
unfolding contains
second_named = refl

delete_marks_one_example :
    let gone = record second_agent { status = device_deleted } in
    let w' = listed config (first_agent ∷ gone ∷ []) world in
    (delete_device_list_from_file config (second_agent ∷ []) world ≡ done true w')
    × (get_device_from_file_by_mac config second_agent.mac w' ≡ done (some gone) w')
delete_marks_one_example =
    delete_marks_one config second_agent second_agent (first_agent ∷ []) [] world has_devices refl
      first_not_named second_named

abbrev setting : Option Text → MeshSetting
setting work_mode = record {
  mesh_id = some (codes "m1");
  mesh_name = none;
  type = none;
  rssi_threshhold = some (record { up = negsuc 69; down = negsuc 79 });
  antenna_installed = none;
  backhaul_channel = some (codes "36");
  active_time_after_set = pos 5;
  work_mode = work_mode;
  weight_mesh = pos 1;
  mesh_link_connection = none;
  minimum_mesh_link_snr = pos 20;
  wireless = some (record { wifi_iface = none });
}

abbrev pub FitsOrNone : Option RssiThreshhold → Type 0
FitsOrNone none = Unit
FitsOrNone (some r) = RssiFits r

rssi_fit :
    (word : Option Text) (r : RssiThreshhold) → (setting word).rssi_threshhold ≡ some r → RssiFits r
rssi_fit word r h = subst FitsOrNone h (omega arith, omega arith)

setting_fits : (word : Option Text) → SettingFits (setting word)
setting_fits word = (rssi_fit word, omega arith, omega arith, omega arith)

abbrev setting_world : Option Text → World
setting_world word =
    saved config.mesh_setting_file (cvt_mesh_setting_to_json (setting word)) empty_world

setting_there :
    (word : Option Text)
    → HasSetting config.mesh_setting_file
        (cvt_mesh_setting_to_json (setting word))
        (setting_world word)
setting_there word = HasSetting-saved config.mesh_setting_file _ empty_world refl

abbrev agent_word : Option Text
agent_word = some (codes "agent")

abbrev bridge_word : Option Text
bridge_word = some (codes "bridge")

bridge-Unknown : Unknown (codes "bridge")
bridge-Unknown standalone = refl
bridge-Unknown agent = refl
bridge-Unknown controller = refl

work_mode_read_example :
    (get_work_mode config (setting_world agent_word) ≡ done (pos 1) (setting_world agent_word))
    × (get_work_mode_str config (setting_world agent_word)
        ≡ done agent_word (setting_world agent_word))
    × (get_work_mode config (setting_world bridge_word)
        ≡ done (negsuc 0) (setting_world bridge_word))
    × (get_work_mode config (setting_world none) ≡ stopped null_read)
    × (get_work_mode_str config (setting_world none) ≡ done none (setting_world none))
work_mode_read_example =
    work_mode_read config agent (setting agent_word) (setting bridge_word) (setting none)
      (codes "bridge") (setting_world agent_word) (setting_world bridge_word) (setting_world none)
      (setting_there agent_word) (setting_there bridge_word) (setting_there none)
      (setting_fits agent_word) (setting_fits bridge_word) (setting_fits none) refl refl
      bridge-Unknown refl
