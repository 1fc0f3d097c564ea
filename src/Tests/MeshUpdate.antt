-- ===== src/Tests/MeshUpdate.antt =====
-- A request that changes the settings of a mesh, at a concrete input.
use mathlib.Core.Path.{subst}
use noc_demo.Common.{◌≡◌, refl, if◌then◌else◌, true, none, some, [], ◌∷◌, arith}
use noc_demo.Common.Int.{pos}
use noc_demo.Common.Texts.{Text, codes, strstr_found}
use noc_demo.Api.Errors.{Error, ErrorTables, error_table_lookup}
use noc_demo.Api.Errors.Lookup.{table_of, error_table_lookup_first}
use noc_demo.Api.Handler.Answer.{Asks, answer_text, told}
use noc_demo.Api.Mesh.{update_mesh}
use noc_demo.Api.Mesh.Updated.{mesh_updated}
use noc_demo.Api.Message.{
  mesh_settings, mesh_setting, cvt_msg_request_to_json, cvt_json_to_msg_request,
}
use noc_demo.Api.Message.RoundTrip.{Carries, request_round_trip}
use noc_demo.CJson.Tree.{tree_cjson}
use noc_demo.ErrorCode.{mesh_not_found, code}
use noc_demo.Mesh.Setting.{RssiThreshhold, MeshSetting, cvt_mesh_setting_to_json}
use noc_demo.Mesh.Setting.RoundTrip.{RssiFits, SettingFits}
use noc_demo.Network.Wlan.{WifiIface, change_wifi_iface}
use noc_demo.Settings.{saved, HasSetting-saved}
use noc_demo.Tests.Base.{config, empty_world}
use noc_demo.Tests.Mesh.{FitsOrNone}
use noc_demo.Tests.Messages.{header, fine, answer_name_text, topic, name_converted}
use noc_demo.World.{World, done}

abbrev unmatched : Error
unmatched = record { code = pos 240005; message = some (codes "Mesh not found") }

abbrev tables : ErrorTables
tables = record {
  general = some (table_of (fine ∷ []));
  general_mqtt = some (table_of []);
  ezm = some (table_of (unmatched ∷ []));
}

fine_known : error_table_lookup tables (pos 0) ≡ some fine
fine_known =
    error_table_lookup_first (pos 0) (fine ∷ []) [] (unmatched ∷ []) (omega arith, tt) tt
      (omega arith, tt)

unmatched_known : error_table_lookup tables (pos (code mesh_not_found)) ≡ some unmatched
unfolding code
unmatched_known =
    error_table_lookup_first (pos 240005) (fine ∷ []) [] (unmatched ∷ []) (omega arith, tt) tt
      (omega arith, tt)

abbrev iface : WifiIface
iface = record { ssid = some (codes "home"); key = some (codes "secret") }

abbrev with_channel : Text → MeshSetting
with_channel channel = record {
  mesh_id = some (codes "m1");
  mesh_name = none;
  type = none;
  rssi_threshhold = none;
  antenna_installed = none;
  backhaul_channel = some channel;
  active_time_after_set = pos 5;
  work_mode = some (codes "controller");
  weight_mesh = pos 1;
  mesh_link_connection = none;
  minimum_mesh_link_snr = pos 20;
  wireless = some (record { wifi_iface = some iface });
}

abbrev old : MeshSetting
old = with_channel (codes "36")

abbrev new : MeshSetting
new = with_channel (codes "44")

channel_fits : (channel : Text) → SettingFits (with_channel channel)
channel_fits channel =
    let no_bound : (r : RssiThreshhold) → none ≡ some r → RssiFits r =
      λ r h. subst FitsOrNone h tt in
    (no_bound, omega arith, omega arith, omega arith)

abbrev stored : World
stored = saved config.mesh_setting_file (cvt_mesh_setting_to_json old) empty_world

abbrev request :
    (json : tree_cjson.Json) × ((cvt_msg_request_to_json
          (record { header = header; payload = some (mesh_setting new) })
          mesh_settings
          stored
        ≡ done json stored)
      × (cvt_json_to_msg_request (some json) mesh_settings
          ≡ record { header = header; payload = some (mesh_setting new) }))
request =
    request_round_trip mesh_settings (mesh_setting new) header stored
      (Carries.setting new (channel_fits (codes "44"))) (omega arith)

new-Asks : Asks [] request.0 mesh_settings header (some (mesh_setting new)) answer_name_text
new-Asks = record { parsed = request.1.1; converted = name_converted }

mesh_updated_example :
    let json = cvt_mesh_setting_to_json new in
    let file = config.mesh_setting_file in
    update_mesh topic [] tables (λ w. some true) config request.0 stored ≡ (
      if strstr_found old.mesh_id new.mesh_id
      then change_wifi_iface iface (
          told topic
            (answer_text header answer_name_text (some json) fine)
            (saved file json stored))
      else done tt (
          told topic
            (answer_text header answer_name_text (some tree_cjson.create_object) unmatched)
            stored))
mesh_updated_example =
    mesh_updated [] topic tables (λ w. some true) config old new iface request.0 header
      answer_name_text fine unmatched stored new-Asks refl
      (HasSetting-saved config.mesh_setting_file (cvt_mesh_setting_to_json old) empty_world refl)
      (channel_fits (codes "36")) refl refl fine_known unmatched_known refl
