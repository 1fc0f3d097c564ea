-- ===== src/Network/Lan/Stores.antt =====
-- What setting the local network leaves in its file and in the configuration of the router.
use noc_demo.Common.{
  ◌<◌, ◌≡◌, refl, ◌∙◌, ◌&&◌, ap, if◌then◌else◌, Bool, true, false, some, List, [], ◌∷◌, length, All,
  arith,
}
use noc_demo.Common.Texts.{Text, codes, strstr_found}
use noc_demo.CJson.Base.{CJson}
use noc_demo.CJson.Object.{read_string-member, read_bool-member}
use noc_demo.Config.{Config}
use noc_demo.ErrorCode.{success, internal_server}
use noc_demo.Settings.{
  saved, HasSetting-saved, HasSetting-ran, load_found, save_json_writes, save_json_refused,
}
use noc_demo.Network.Lan.{
  Lan, set_address, lan_set_uci, lan_members, cvt_lan_to_json, cvt_json_to_lan,
  lan_save_to_setting_file, lan_set, lan_get_from_lan_setting_file, lan_get,
}
use noc_demo.Utils.Uci.{
  app_uci_set, app_uci_commit, run_uci_fits, uci_set_command, uci_commit_command,
}
use noc_demo.World.{World, done, ran, ran-ran}

-- Is the address left to a server of the network?
abbrev pub uses_dhcp : Lan → Bool
uses_dhcp lan = lan.bridge_ap_mode && strstr_found lan.proto (some (codes "dhcp"))

abbrev address_commands : Lan → List Text
address_commands lan =
    uci_set_command (codes "network.lan.ipaddr") lan.ipaddr
    ∷ uci_set_command (codes "network.lan.netmask") lan.netmask
    ∷ uci_set_command (codes "network.lan.proto") lan.proto
    ∷ []

abbrev dhcp_command : Text
dhcp_command = uci_set_command (codes "network.lan.proto") (some (codes "dhcp"))

abbrev pub lan_commands : Lan → List Text
lan_commands lan = if uses_dhcp lan then dhcp_command ∷ [] else address_commands lan

abbrev pub commit_network : Text
commit_network = uci_commit_command (codes "network")

pub commit_small : length commit_network < 200
unfolding uci_commit_command
commit_small = omega arith

-- A command fits `char cmd[200]`.
abbrev pub CommandFits : Text → Type 0
CommandFits cmd = length cmd < 200

set_address_lem :
    (lan : Lan) (w : World)
    → All CommandFits (address_commands lan)
    → set_address lan w ≡ done tt (ran (address_commands lan) w)
unfolding set_address app_uci_set
set_address_lem lan w (fit_a, (fit_b, (fit_c, _))) =
    let a = uci_set_command (codes "network.lan.ipaddr") lan.ipaddr in
    let b = uci_set_command (codes "network.lan.netmask") lan.netmask in
    let c = uci_set_command (codes "network.lan.proto") lan.proto in
    let w1 = ran (a ∷ []) w in
    let w2 = ran (b ∷ []) w1 in
    rw (run_uci_fits a w fit_a, run_uci_fits b w1 fit_b, run_uci_fits c w2 fit_c)
      (ap (done tt)
        (ap (ran (c ∷ [])) (ran-ran (a ∷ []) (b ∷ []) w) ∙ ran-ran (a ∷ b ∷ []) (c ∷ []) w))

uci_lem :
    (lan : Lan) (w : World)
    → All CommandFits (lan_commands lan)
    → lan_set_uci lan w ≡ done tt (ran (lan_commands lan) w)
unfolding lan_set_uci app_uci_set
uci_lem lan w fits = ground (arith, set_address_lem lan w, run_uci_fits dhcp_command w)

module _ ⦃cj : CJson⦄ where
  pub lan_round_trip : (l : Lan) → cvt_json_to_lan (some (cvt_lan_to_json l)) ≡ l
  unfolding cvt_lan_to_json cvt_json_to_lan
  lan_round_trip l =
      let ms = lan_members l in
      λ i. record {
        bridge_ap_mode = read_bool-member ms (codes "bridge_ap_mode") l.bridge_ap_mode refl i;
        proto = read_string-member ms (codes "proto") l.proto refl i;
        ipaddr = read_string-member ms (codes "ipaddr") l.ipaddr refl i;
        netmask = read_string-member ms (codes "netmask") l.netmask refl i;
      }

module _ ⦃cj : CJson⦄ (config : Config) where
  -- If the lock of the files is free, the setting file can be written and every command fits its
  -- buffer, lan_set succeeds: the configuration gets the settings of the address, or only the
  -- protocol where a server of the network assigns it, the new setting is stored and the change
  -- is committed last; lan_get then answers the setting.
  pub lan_set_stores :
      (lan : Lan) (w : World)
      → w.locked ≡ false
      → w.writable config.lan_setting_file ≡ true
      → All CommandFits (lan_commands lan)
      → let w' =
          ran
            (commit_network ∷ [])
            (saved config.lan_setting_file (cvt_lan_to_json lan) (ran (lan_commands lan) w)) in
        (lan_set config lan w ≡ done success w') × (lan_get config w' ≡ done (success, lan) w')
  unfolding lan_set lan_save_to_setting_file app_uci_commit lan_get lan_get_from_lan_setting_file
  lan_set_stores lan w free ok fits =
      let w1 = ran (lan_commands lan) w in
      let json = cvt_lan_to_json lan in
      let w2 = saved config.lan_setting_file json w1 in
      (
        rw (
          uci_lem lan w fits,
          save_json_writes config.lan_setting_file json w1 free ok,
          run_uci_fits commit_network w2 commit_small,
        ),
        rw (
          load_found (
              HasSetting-ran (commit_network ∷ [])
                (HasSetting-saved config.lan_setting_file json w1 free)),
          lan_round_trip lan,
        ),
      )

  -- If the lock is free, the setting file cannot be written and every command fits its buffer,
  -- lan_set reports an internal error, nothing is committed and the lock of the files stays taken.
  pub lan_set_refused :
      (lan : Lan) (w : World)
      → w.locked ≡ false
      → w.writable config.lan_setting_file ≡ false
      → All CommandFits (lan_commands lan)
      → lan_set config lan w
        ≡ done internal_server (record (ran (lan_commands lan) w) { locked = true })
  unfolding lan_set lan_save_to_setting_file
  lan_set_refused lan w free bad fits =
      let w1 = ran (lan_commands lan) w in
      let json = cvt_lan_to_json lan in
      rw (uci_lem lan w fits, save_json_refused config.lan_setting_file json w1 free bad)
