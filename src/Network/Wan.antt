-- ===== src/Network/Wan.antt =====
-- src/core/network/wan: the settings of the outer network.
pub mod Stores
use noc_demo.Common.{Option, some, List, [], ◌∷◌}
use noc_demo.Common.Texts.{Text, codes}
use noc_demo.CJson.Base.{CJson}
use noc_demo.CJson.Object.{Members, object_of, string_item, read_string}
use noc_demo.Config.{Config}
use noc_demo.ErrorCode.{ErrorCode, success, on_success}
use noc_demo.Settings.{load_json_from_file, save_json}
use noc_demo.Utils.Uci.{app_uci_set, app_uci_commit}
use noc_demo.World.{Cmd, pure, ◌>>=◌, ◌>>◌}

pub record Wan : Type 0 where
  pub proto : Option Text
  pub ipaddr : Option Text

module _ ⦃cj : CJson⦄ where
  open cj use {Json}

  abbrev pub wan_members : Wan → Members
  wan_members wan =
      (codes "proto", string_item wan.proto) ∷ (codes "ipaddr", string_item wan.ipaddr) ∷ []

  unfoldable pub cvt_wan_to_json : Wan → Json
  cvt_wan_to_json wan = object_of (wan_members wan)

  unfoldable pub cvt_json_to_wan : Option Json → Wan
  cvt_json_to_wan json = record {
    proto = read_string json (codes "proto");
    ipaddr = read_string json (codes "ipaddr");
  }

  module _ (config : Config) where
    unfoldable pub wan_save_to_setting_file : Wan → Cmd ErrorCode
    wan_save_to_setting_file wan = save_json config.wan_setting_file (cvt_wan_to_json wan)

    unfoldable pub wan_set : Wan → Cmd ErrorCode
    wan_set wan = do
      app_uci_set (codes "network.wan.proto") wan.proto
      app_uci_set (codes "network.wan.ipaddr") wan.ipaddr
      err ← wan_save_to_setting_file wan
      on_success err (app_uci_commit (codes "network") >> pure success)

    unfoldable pub wan_get_from_setting_file : Cmd Wan
    wan_get_from_setting_file = do
      json ← load_json_from_file config.wan_setting_file
      pure (cvt_json_to_wan json)

    unfoldable pub wan_get : Cmd (ErrorCode × Wan)
    wan_get = do wan ← wan_get_from_setting_file; pure (success, wan)

    unfoldable pub wan_reload_from_setting_file : Cmd ErrorCode
    wan_reload_from_setting_file = do wan ← wan_get_from_setting_file; wan_set wan
