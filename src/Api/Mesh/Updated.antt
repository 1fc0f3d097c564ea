-- ===== src/Api/Mesh/Updated.antt =====
-- What a request that changes the settings of the mesh does while the daemon answers.
use noc_demo.Common.{◌≡◌, refl, ap, if◌then◌else◌, Bool, true, false, Option, some, List}
use noc_demo.Common.Int.{pos}
use noc_demo.Common.Texts.{Text, codes, strstr_found}
use noc_demo.Api.Errors.{Error, ErrorTables, error_table_lookup}
use noc_demo.Api.Handler.{put_error, data_member}
use noc_demo.Api.Handler.Answer.{
  told, answer_text, Asks, answer_of, begin_lem, error_lem, publish_lem,
}
use noc_demo.Api.Mesh.{
  answer_error, store_setting, update_mesh, update_running_mesh, update_controller_mesh,
  ezm_deamon_is_running, change_wireless, not_null,
}
use noc_demo.Api.Message.{
  empty, mesh_settings, mesh_setting, Header, MsgRespond, member_to_json,
  cvt_msg_request_to_msg_respond,
}
use noc_demo.CJson.Base.{CJson}
use noc_demo.Config.{Config}
use noc_demo.ErrorCode.{success, mesh_not_found, code}
use noc_demo.Mesh.Setting.{MeshSetting, cvt_mesh_setting_to_json}
use noc_demo.Mesh.Setting.RoundTrip.{SettingFits, mesh_setting_round_trip}
use noc_demo.Mesh.Setting.WorkMode.{work_mode_lem}
use noc_demo.Network.Wlan.{WifiIface, change_wifi_iface}
use noc_demo.Settings.{HasSetting, load_found, saved}
use noc_demo.Utils.File.Lock.{write_data_truncates}
use noc_demo.World.{World, Cmd, Run, done}

branch :
    {A : Type 0} (b : Bool) (f g : Cmd A) (w : World) {x y : Run A}
    → f w ≡ x
    → g w ≡ y
    → (if b then f else g) w ≡ (if b then x else y)
branch true f g w p q = p
branch false f g w p q = q

module _ ⦃cj : CJson⦄ (resumed : List Text) (topic : Text) (tables : ErrorTables)
    (connect : World → Option Bool) (config : Config) where
  open cj use {Json, create_object}

  running_lem : (w : World) → connect w ≡ some true → ezm_deamon_is_running connect w ≡ done true w
  unfolding ezm_deamon_is_running
  running_lem w up = rw up

  module _ (m : MeshSetting) (iface : WifiIface) (h : Header) (name : Text) where
    abbrev answer : MsgRespond
    answer = answer_of resumed h (some (mesh_setting m)) name

    abbrev json : Json
    json = cvt_mesh_setting_to_json m

    stored_lem :
        (e : Error) (w : World)
        → error_table_lookup tables (pos 0) ≡ some e
        → w.locked ≡ false
        → w.writable config.mesh_setting_file ≡ true
        → change_wireless m.wireless ≡ change_wifi_iface iface
        → store_setting topic resumed tables connect config answer m w
          ≡ change_wifi_iface iface (
              told topic (answer_text h name (some json) e) (saved config.mesh_setting_file json w))
    unfolding store_setting answer_error put_error cvt_msg_request_to_msg_respond member_to_json
        code
    stored_lem e w known free ok wireless =
        let w1 = saved config.mesh_setting_file json w in
        rw
          (
            write_data_truncates (cj.print json) config.mesh_setting_file w free ok,
            error_lem resumed tables success e w1 known,
            publish_lem resumed topic mesh_settings h (mesh_setting m) name e (some json) w1 refl,
            wireless,
          )
          refl

    refused_lem :
        (e : Error) (w : World)
        → error_table_lookup tables (pos (code mesh_not_found)) ≡ some e
        → answer_error topic resumed tables connect config answer mesh_not_found empty w
          ≡ done tt (told topic (answer_text h name (some create_object) e) w)
    unfolding answer_error put_error cvt_msg_request_to_msg_respond member_to_json
    refused_lem e w known =
        rw (error_lem resumed tables mesh_not_found e w known)
          (publish_lem resumed topic empty h (mesh_setting m) name e (some create_object) w refl)

  -- While the daemon of the mesh runs on a controller whose stored setting is `s`, the lock of the
  -- files is free, the file can be written and the tables have both codes: a request with the
  -- setting `m`, which has a wireless network, is decided by the identifiers alone. If that of `s`
  -- contains that of `m`, the file holds `m`, the answer has `m`, and then the wireless network is
  -- changed; if not, the answer says that the mesh is not found, and nothing else is done.
  pub mesh_updated :
      (s m : MeshSetting) (iface : WifiIface) (msg_json : Json) (h : Header) (name : Text)
      (e e' : Error) (w : World)
      → Asks resumed msg_json mesh_settings h (some (mesh_setting m)) name
      → connect w ≡ some true
      → HasSetting config.mesh_setting_file (cvt_mesh_setting_to_json s) w
      → SettingFits s
      → s.work_mode ≡ some (codes "controller")
      → w.writable config.mesh_setting_file ≡ true
      → error_table_lookup tables (pos 0) ≡ some e
      → error_table_lookup tables (pos (code mesh_not_found)) ≡ some e'
      → m.wireless ≡ some (record { wifi_iface = some iface })
      → let json = cvt_mesh_setting_to_json m in
        let file = config.mesh_setting_file in
        update_mesh topic resumed tables connect config msg_json w ≡ (
          if strstr_found s.mesh_id m.mesh_id
          then change_wifi_iface iface
              (told topic (answer_text h name (some json) e) (saved file json w))
          else done tt (told topic (answer_text h name (some create_object) e') w))
  unfolding update_mesh update_running_mesh update_controller_mesh data_member not_null
      change_wireless
  mesh_updated s m iface msg_json h name e e' w asks up has fits mode ok known known' wireless =
      let w_mode = (work_mode_lem config s w has fits).0 in
      rw
        (
          begin_lem resumed w asks,
          running_lem w up,
          w_mode,
          mode,
          load_found has,
          mesh_setting_round_trip s fits,
        )
        (branch (strstr_found s.mesh_id m.mesh_id) _ _ w
          (stored_lem m iface h name e w known has.free ok (ap change_wireless wireless))
          (refused_lem m iface h name e' w known'))
