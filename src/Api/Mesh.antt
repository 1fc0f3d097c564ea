-- ===== src/Api/Mesh.antt =====
-- src/api/mesh/mesh_handler.c: the handlers of the requests for the settings of the mesh, and of the
-- changes of its devices.
pub mod Updated
use noc_demo.Common.{if◌then◌else◌, not, Bool, true, false, Option, none, some, List}
use noc_demo.Common.Int.{ℤ, pos, int_eq}
use noc_demo.Common.Texts.{Text, strstr_found}
use noc_demo.Api.Errors.{ErrorTables}
use noc_demo.Api.Handler.{
  mqtt_publish_message, begin, error_of, put_error, put_data, data_member, respond_name, named,
}
use noc_demo.Api.Message.{
  MsgType, empty, mesh_settings, mesh_devices, Data, mesh_setting, device_list, MsgRespond,
}
use noc_demo.CJson.Base.{CJson}
use noc_demo.Config.{Config}
use noc_demo.ErrorCode.{
  ErrorCode, success, mesh_not_found, device_not_found, ezmesh_deamon_connect_fail,
}
use noc_demo.Mesh.Device.{DeviceInfo}
use noc_demo.Mesh.Setting.{
  MeshSetting, cvt_mesh_setting_to_json, cvt_json_to_mesh_setting, get_work_mode,
}
use noc_demo.Mesh.Topology.{update_device_list_to_file_from_web}
use noc_demo.Network.Wlan.{WifiIface, Wireless, change_wifi_iface}
use noc_demo.Settings.{load_json_from_file}
use noc_demo.Utils.File.{write_data, truncate}
use noc_demo.World.{World, done, Cmd, pure, stop, ◌>>=◌, ◌>>◌, null_read}

-- the members of the union
abbrev pub setting_of : Data → Option MeshSetting
setting_of (mesh_setting m) = some m
setting_of _ = none

abbrev pub devices_of : Data → Option (List DeviceInfo)
devices_of (device_list ds) = some ds
devices_of _ = none

-- `work_mode == CONTROLLER_MODE`
abbrev pub is_controller_mode : ℤ → Bool
is_controller_mode mode = int_eq mode (pos 2)

abbrev pub counts_as_running : Option Bool → Bool
counts_as_running none = true
counts_as_running (some connected) = connected

-- `connect` is what libcurl does: none where curl_easy_init gives NULL, else whether the connection
-- to the daemon of the mesh succeeds. Without a handle the daemon counts as running.
unfoldable pub ezm_deamon_is_running : (World → Option Bool) → Cmd Bool
ezm_deamon_is_running connect w = done (counts_as_running (connect w)) w

-- `setting->wireless->wifi_iface`, which the change reads through
unfoldable pub change_wireless : Option Wireless → Cmd (Unit {0})
change_wireless none = stop null_read
change_wireless (some wireless) = elim wireless.wifi_iface [
  | none ↦ stop null_read
  | some iface ↦ change_wifi_iface iface
]

-- a pointer that is read through
unfoldable pub not_null : {A : Type 0} → Option A → Cmd A
not_null none = stop null_read
not_null (some a) = pure a

module _ ⦃cj : CJson⦄ (pub_topic : Text) (resumed : List Text) (tables : ErrorTables)
    (connect : World → Option Bool) (config : Config) where
  open cj use {Json, print}

  -- an answer with an error and the data of the request
  unfoldable pub answer_error : MsgRespond → ErrorCode → MsgType → Cmd (Unit {0})
  answer_error respond err type = do
    error ← error_of tables err
    mqtt_publish_message pub_topic (put_error respond error) type

  unfoldable pub answer_stored : MsgRespond → Cmd (Unit {0})
  answer_stored respond = do
    json ← load_json_from_file config.mesh_setting_file
    error ← error_of tables success
    respond' ← put_data (put_error respond error) (mesh_setting (cvt_json_to_mesh_setting json))
    mqtt_publish_message pub_topic respond' mesh_settings

  unfoldable pub request_mesh : Json → Cmd (Unit {0})
  request_mesh msg_json = do
    (request, respond) ← begin resumed msg_json empty
    work_mode ← get_work_mode config
    (if is_controller_mode work_mode
        then answer_stored respond
        else answer_error respond success empty)

  -- the identifiers match: the setting is stored, the answer given and the wireless network changed
  unfoldable pub store_setting : MsgRespond → MeshSetting → Cmd (Unit {0})
  store_setting respond m = do
    write_data (print (cvt_mesh_setting_to_json m)) truncate config.mesh_setting_file
    answer_error respond success mesh_settings
    change_wireless m.wireless

  unfoldable pub update_controller_mesh : MsgRespond → Option Data → Cmd (Unit {0})
  update_controller_mesh respond payload = do
    json ← load_json_from_file config.mesh_setting_file
    m ← data_member setting_of payload
    requested ← not_null m
    (if strstr_found (cvt_json_to_mesh_setting json).mesh_id requested.mesh_id
        then store_setting respond requested
        else answer_error respond mesh_not_found empty)

  unfoldable pub update_running_mesh : MsgRespond → Option Data → Cmd (Unit {0})
  update_running_mesh respond payload = do
    work_mode ← get_work_mode config
    (if is_controller_mode work_mode
        then update_controller_mesh respond payload
        else answer_error respond ezmesh_deamon_connect_fail empty)

  -- The name of the answer is converted once more where the daemon does not answer.
  unfoldable pub update_stopped_mesh : MsgRespond → Cmd (Unit {0})
  update_stopped_mesh respond = do
    error ← error_of tables ezmesh_deamon_connect_fail
    name ← respond_name resumed respond.header.name
    mqtt_publish_message pub_topic (named (put_error respond error) name) empty

  unfoldable pub update_mesh : Json → Cmd (Unit {0})
  update_mesh msg_json = do
    (request, respond) ← begin resumed msg_json mesh_settings
    up ← ezm_deamon_is_running connect
    (if up then update_running_mesh respond request.payload else update_stopped_mesh respond)

  abbrev pub found_code : Bool → ErrorCode
  found_code true = success
  found_code false = device_not_found

  unfoldable pub update_running_devices : MsgRespond → Option Data → Cmd (Unit {0})
  update_running_devices respond payload = do
    ds ← data_member devices_of payload
    devices ← not_null ds
    ret ← update_device_list_to_file_from_web config devices
    error ← error_of tables (found_code ret)
    respond' ← put_data (put_error respond error) (device_list devices)
    mqtt_publish_message pub_topic respond' mesh_devices

  unfoldable pub update_mesh_devices : Json → Cmd (Unit {0})
  update_mesh_devices msg_json = do
    (request, respond) ← begin resumed msg_json mesh_devices
    up ← ezm_deamon_is_running connect
    (if up
        then update_running_devices respond request.payload
        else answer_error respond ezmesh_deamon_connect_fail empty)
