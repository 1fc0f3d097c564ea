-- ===== src/Tests/Settings.antt =====
-- The properties of the files, of the networks and of the wireless settings at concrete inputs.
use noc_demo.Common.{
  ◌≡◌, refl, true, false, if◌then◌else◌, ◌&&◌, ltb, none, some, [], ◌∷◌, ◌++◌, length, All, arith,
}
use noc_demo.Common.Int.{pos, negsuc}
use noc_demo.Common.Texts.{codes, contains}
use noc_demo.CJson.Tree.{tree_cjson}
use noc_demo.ErrorCode.{success}
use noc_demo.Network.Lan.{Lan, cvt_lan_to_json, lan_set, lan_get}
use noc_demo.Network.Lan.Stores.{CommandFits, lan_commands, commit_network, lan_set_stores}
use noc_demo.Network.Wan.{Wan, cvt_wan_to_json, wan_reload_from_setting_file, wan_get}
use noc_demo.Network.Wan.Stores.{wan_commands, wan_stored, wan_reload_applies}
use noc_demo.Network.Wlan.{WifiIface, change_wifi_iface}
use noc_demo.Network.Wlan.Change.{change_commands, change_wifi_iface_bounds}
use noc_demo.Settings.{HasSetting, saved, HasSetting-saved}
use noc_demo.Tests.Base.{config, empty_world, full_disk}
use noc_demo.Utils.File.{append, truncate, content, read_data, write_data, check_file_exist}
use noc_demo.Utils.File.Lock.{written, Stuck, failed_open_blocks, write_then_read}
use noc_demo.Utils.Uci.{uci_set_command}
use noc_demo.World.{World, done, stopped, overflow, ran}

abbrev stuck : World
stuck = record full_disk { locked = true }

failed_open_blocks_example :
    (read_data (codes "f") full_disk ≡ done none stuck)
    × (write_data (codes "s") append (codes "f") full_disk ≡ done (negsuc 0) stuck)
    × (check_file_exist (codes "f") full_disk ≡ done false stuck)
    × Stuck stuck
failed_open_blocks_example =
    failed_open_blocks (codes "f") (codes "s") append full_disk refl refl refl

abbrev log : World
log = written (codes "ab") (codes "log") empty_world

write_then_read_example :
    let old = content (log.files (codes "log")) in
    let appended = written (old ++ codes "cd") (codes "log") log in
    let truncated = written (codes "cd") (codes "log") log in
    (write_data (codes "cd") append (codes "log") log ≡ done (pos 0) appended)
    × (read_data (codes "log") appended ≡ done (some (old ++ codes "cd")) appended)
    × (write_data (codes "cd") truncate (codes "log") log ≡ done (pos 0) truncated)
    × (read_data (codes "log") truncated ≡ done (some (codes "cd")) truncated)
write_then_read_example = write_then_read (codes "cd") (codes "log") log refl refl

abbrev pub lan : Lan
lan = record {
  bridge_ap_mode = true;
  proto = some (codes "static");
  ipaddr = some (codes "10.0.0.1");
  netmask = some (codes "255.0.0.0");
}

pub lan_fits : All CommandFits (lan_commands lan)
unfolding uci_set_command contains
lan_fits = (omega arith, (omega arith, (omega arith, tt)))

lan_set_stores_example :
    let w' =
      ran (commit_network ∷ []) (
        saved config.lan_setting_file (cvt_lan_to_json lan) (ran (lan_commands lan) empty_world)) in
    (lan_set config lan empty_world ≡ done success w')
    × (lan_get config w' ≡ done (success, lan) w')
lan_set_stores_example = lan_set_stores config lan empty_world refl refl lan_fits

abbrev wan : Wan
wan = record { proto = some (codes "static"); ipaddr = some (codes "192.0.2.1") }

wan_fits : All CommandFits (wan_commands wan)
unfolding uci_set_command
wan_fits = (omega arith, (omega arith, tt))

abbrev wan_world : World
wan_world = saved config.wan_setting_file (cvt_wan_to_json wan) empty_world

wan_reload_applies_example :
    (wan_reload_from_setting_file config wan_world ≡ done success (wan_stored config wan wan_world))
    × HasSetting config.wan_setting_file (cvt_wan_to_json wan) (wan_stored config wan wan_world)
    × (wan_get config (wan_stored config wan wan_world)
        ≡ done (success, wan) (wan_stored config wan wan_world))
wan_reload_applies_example =
    wan_reload_applies config wan wan_world
      (HasSetting-saved config.wan_setting_file _ empty_world refl) refl wan_fits

abbrev iface : WifiIface
iface = record { ssid = some (codes "home"); key = some (codes "secret12") }

change_wifi_iface_bounds_example : change_wifi_iface iface empty_world ≡ elim iface.ssid [
  | none ↦ done tt empty_world
  | some ssid ↦ elim iface.key [
    | none ↦ done tt empty_world
    | some key ↦
        if ltb (length ssid) 159 && ltb (length key) 160
        then done tt (ran (change_commands ssid key) empty_world)
        else stopped overflow
  ]
]
change_wifi_iface_bounds_example = change_wifi_iface_bounds iface empty_world
