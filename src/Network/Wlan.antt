-- ===== src/Network/Wlan.antt =====
-- src/core/network/wlan: the name and the password of the wireless network.
pub mod Change
pub mod RoundTrip
use noc_demo.Common.{Option, none, some, List, [], ◌∷◌, ◌++◌}
use noc_demo.Common.Int.{ℤ}
use noc_demo.Common.Texts.{Text, codes}
use noc_demo.CJson.Base.{CJson}
use noc_demo.CJson.Nested.{pointer_item, read_object}
use noc_demo.CJson.Object.{Members, object_of, string_item, number_item, read_string, read_int}
use noc_demo.Utils.Shell.{execl_timeout}
use noc_demo.World.{Cmd, pure, ◌>>=◌, ◌>>◌, sprintf}

pub record WifiIface : Type 0 where
  pub ssid : Option Text
  pub key : Option Text

pub record WifiSetting : Type 0 where
  pub country : Option Text
  pub channel : ℤ
  pub txpower : ℤ

-- `wifi_iface` is a pointer and may be NULL.
pub record Wireless : Type 0 where
  pub wifi_iface : Option WifiIface

module _ ⦃cj : CJson⦄ where
  open cj use {Json}

  abbrev pub wifi_iface_members : WifiIface → Members
  wifi_iface_members w = (codes "ssid", string_item w.ssid) ∷ (codes "key", string_item w.key) ∷ []

  unfoldable pub cvt_wifi_iface_to_json : WifiIface → Json
  cvt_wifi_iface_to_json w = object_of (wifi_iface_members w)

  unfoldable pub cvt_json_to_wifi_iface : Option Json → WifiIface
  cvt_json_to_wifi_iface json = record {
    ssid = read_string json (codes "ssid");
    key = read_string json (codes "key");
  }

  abbrev pub wifi_setting_members : WifiSetting → Members
  wifi_setting_members w =
      (codes "country", string_item w.country)
      ∷ (codes "channel", number_item w.channel)
      ∷ (codes "txpower", number_item w.txpower)
      ∷ []

  unfoldable pub cvt_wifi_setting_to_json : WifiSetting → Json
  cvt_wifi_setting_to_json w = object_of (wifi_setting_members w)

  unfoldable pub cvt_json_to_wifi_setting : Option Json → WifiSetting
  cvt_json_to_wifi_setting json = record {
    country = read_string json (codes "country");
    channel = read_int json (codes "channel");
    txpower = read_int json (codes "txpower");
  }

  abbrev pub wireless_members : Wireless → Members
  wireless_members w = (codes "wifi_iface", pointer_item cvt_wifi_iface_to_json w.wifi_iface) ∷ []

  unfoldable pub cvt_wireless_to_json : Wireless → Json
  cvt_wireless_to_json w = object_of (wireless_members w)

  unfoldable pub cvt_json_to_wireless : Option Json → Wireless
  cvt_json_to_wireless json = record {
    wifi_iface = read_object cvt_json_to_wifi_iface json (codes "wifi_iface");
  }

-- `sprintf(cmd, …); ret = execl_timeout(1000, cmd);` with `char cmd[200]`
unfoldable pub run_command : Text → Cmd (Unit {0})
run_command text = do cmd ← sprintf 200 text; execl_timeout cmd; pure tt

unfoldable pub ssid_command : Text → Text
ssid_command ssid = codes "uci set repacd.MAPConfig.FronthaulSSID='" ++ ssid ++ codes "'"

unfoldable pub key_command : Text → Text
key_command key = codes "uci set repacd.MAPConfig.FronthaulKey='" ++ key ++ codes "'"

unfoldable pub set_required : Text
set_required = codes "uci set repacd.MAPConfig.FirstConfigRequired='1'"

unfoldable pub commit_repacd : Text
commit_repacd = codes "uci commit repacd"

unfoldable pub restart_repacd : Text
restart_repacd = codes "/etc/init.d/repacd restart"

unfoldable pub change_to : Option Text → Option Text → Cmd (Unit {0})
change_to (some ssid) (some key) = do
  run_command (ssid_command ssid)
  run_command (key_command key)
  run_command set_required
  run_command commit_repacd
  run_command restart_repacd
change_to _ _ = pure tt

-- Nothing is done when the name or the password is NULL.
unfoldable pub change_wifi_iface : WifiIface → Cmd (Unit {0})
unfolding change_to
change_wifi_iface w = change_to w.ssid w.key
