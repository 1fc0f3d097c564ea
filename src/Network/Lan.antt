-- ===== src/Network/Lan.antt =====
-- src/core/network/lan: the settings of the local network.
pub mod Stores
use noc_demo.Common.{
  ◌<◌, ◌≡◌, refl, ◌&&◌, ap, if◌then◌else◌, Bool, true, false, Bool-cases, inl, inr, Option, none,
  some, List, [], ◌∷◌, ◌++◌, length, All, arith, append_assoc,
}
use noc_demo.Common.Texts.{Text, codes, strstr_found}
use noc_demo.CJson.Base.{CJson}
use noc_demo.CJson.Object.{
  Members, object_of, string_item, bool_item, read_string, read_bool, read_string-member,
  read_bool-member,
}
use noc_demo.Config.{Config}
use noc_demo.ErrorCode.{ErrorCode, success, internal_server, on_success}
use noc_demo.Settings.{
  load_json_from_file, save_json, saved, HasSetting, HasSetting-saved, load_found, save_json_writes,
  save_json_refused,
}
use noc_demo.Utils.Uci.{
  app_uci_set, app_uci_commit, run_uci, run_uci_fits, uci_set_command, uci_commit_command,
}
use noc_demo.World.{World, done, ran, Cmd, pure, ◌>>=◌, ◌>>◌}

pub record Lan : Type 0 where
  pub bridge_ap_mode : Bool
  pub proto : Option Text
  pub ipaddr : Option Text
  pub netmask : Option Text

-- the three settings of an address that is not asked for
unfoldable pub set_address : Lan → Cmd (Unit {0})
set_address lan = do
  app_uci_set (codes "network.lan.ipaddr") lan.ipaddr
  app_uci_set (codes "network.lan.netmask") lan.netmask
  app_uci_set (codes "network.lan.proto") lan.proto
  pure tt

unfoldable pub lan_set_uci : Lan → Cmd (Unit {0})
unfolding set_address
lan_set_uci lan =
    if lan.bridge_ap_mode
    then (if strstr_found lan.proto (some (codes "dhcp"))
        then app_uci_set (codes "network.lan.proto") (some (codes "dhcp")) >> pure tt
        else set_address lan)
    else set_address lan

module _ ⦃cj : CJson⦄ where
  open cj use {Json}

  abbrev pub lan_members : Lan → Members
  lan_members lan =
      (codes "bridge_ap_mode", bool_item lan.bridge_ap_mode)
      ∷ (codes "proto", string_item lan.proto)
      ∷ (codes "ipaddr", string_item lan.ipaddr)
      ∷ (codes "netmask", string_item lan.netmask)
      ∷ []

  unfoldable pub cvt_lan_to_json : Lan → Json
  cvt_lan_to_json lan = object_of (lan_members lan)

  unfoldable pub cvt_json_to_lan : Option Json → Lan
  cvt_json_to_lan json = record {
    bridge_ap_mode = read_bool json (codes "bridge_ap_mode");
    proto = read_string json (codes "proto");
    ipaddr = read_string json (codes "ipaddr");
    netmask = read_string json (codes "netmask");
  }

  module _ (config : Config) where
    unfoldable pub lan_save_to_setting_file : Lan → Cmd ErrorCode
    lan_save_to_setting_file lan = save_json config.lan_setting_file (cvt_lan_to_json lan)

    unfoldable pub lan_set : Lan → Cmd ErrorCode
    lan_set lan = do
      lan_set_uci lan
      err ← lan_save_to_setting_file lan
      on_success err (app_uci_commit (codes "network") >> pure success)

    unfoldable pub lan_get_from_lan_setting_file : Cmd Lan
    lan_get_from_lan_setting_file = do
      json ← load_json_from_file config.lan_setting_file
      pure (cvt_json_to_lan json)

    unfoldable pub lan_get : Cmd (ErrorCode × Lan)
    lan_get = do lan ← lan_get_from_lan_setting_file; pure (success, lan)

    unfoldable pub lan_reload_from_setting_file : Cmd ErrorCode
    lan_reload_from_setting_file = do lan ← lan_get_from_lan_setting_file; lan_set lan
