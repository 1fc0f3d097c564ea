-- ===== src/Network/Iptables/Reload.antt =====
-- The rules that the setting files ask for: the reload functions of iptables_dnat_dmz.c,
-- iptables_dnat_pf.c and iptables_nova_port.c, and iptables_refresh of iptables.c. Reading a setting
-- file always answers ERR_SUCCESS, so the test of its result is not written out.
use noc_demo.Common.{if◌then◌else◌, some, List, [], ◌∷◌, ◌++◌}
use noc_demo.Common.Texts.{Text, codes}
use noc_demo.CJson.Base.{CJson}
use noc_demo.Config.{Config}
use noc_demo.ErrorCode.{ErrorCode, success, on_success}
use noc_demo.Network.Iptables.Defs.{Iptable, IptableNovaService}
use noc_demo.Network.Iptables.Codec.{
  cvt_json_to_iptable, cvt_json_to_iptable_list, cvt_json_to_iptable_nova_service_list,
}
use noc_demo.Network.Iptables.Rules.{
  wan_interface, option_text, iptables_default_setting, iptables_restrict_basic,
  iptables_open_port_profiles,
}
use noc_demo.Settings.{load_json_from_file}
use noc_demo.Utils.Shell.{execl_non_timeout}
use noc_demo.World.{Cmd, pure, ◌>>=◌, ◌>>◌, sprintf, arg}

abbrev pub dmz_prefix : Iptable → Text
dmz_prefix iptables =
    codes "iptables -t nat -A PREROUTING  -i "
    ++ wan_interface
    ++ option_text (codes " -s ") iptables.ip_mask

unfoldable pub dmz_command : Iptable → Text
dmz_command iptables =
    dmz_prefix iptables ++ codes " -j DNAT --to-destination " ++ arg iptables.dnat_ip

run_dmz : Iptable → Cmd ErrorCode
run_dmz iptables = do
  cmd ← sprintf 200 (dmz_prefix iptables)
  tmp ← sprintf 200 (dmz_command iptables)
  execl_non_timeout tmp
  pure success

unfoldable pub iptables_dnat_dmz_profiles_set : Iptable → Cmd ErrorCode
unfolding run_dmz
iptables_dnat_dmz_profiles_set iptables = if iptables.enable then run_dmz iptables else pure success

-- the loop of iptable_nova_service_reload_from_setting_file
unfoldable pub open_services : List IptableNovaService → Cmd ErrorCode
open_services [] = pure success
open_services (s ∷ services) = do
  err ← iptables_open_port_profiles s.port_profiles
  on_success err (open_services services)

module _ ⦃cj : CJson⦄ (config : Config) where
  unfoldable pub iptable_dnat_dmz_request_from_setting_file : Cmd Iptable
  iptable_dnat_dmz_request_from_setting_file = do
    json ← load_json_from_file config.iptables_dnat_dmz_setting_file
    pure (cvt_json_to_iptable json)

  unfoldable pub iptable_dnat_dmz_reload_from_setting_file : Cmd ErrorCode
  iptable_dnat_dmz_reload_from_setting_file = do
    dmz ← iptable_dnat_dmz_request_from_setting_file
    iptables_dnat_dmz_profiles_set dmz

  unfoldable pub iptable_dnat_forwarding_request_from_setting_file : Cmd (List Iptable)
  iptable_dnat_forwarding_request_from_setting_file = do
    json ← load_json_from_file config.iptables_dnat_forwarding_setting_file
    pure (cvt_json_to_iptable_list json)

  unfoldable pub iptable_dnat_forwarding_reload_from_setting_file : Cmd ErrorCode
  iptable_dnat_forwarding_reload_from_setting_file = do
    profiles ← iptable_dnat_forwarding_request_from_setting_file
    iptables_open_port_profiles (some profiles)

  unfoldable pub iptable_nova_service_request_from_setting_file : Cmd (List IptableNovaService)
  iptable_nova_service_request_from_setting_file = do
    json ← load_json_from_file config.iptables_nova_setting_file
    pure (cvt_json_to_iptable_nova_service_list json)

  unfoldable pub iptable_nova_service_reload_from_setting_file : Cmd ErrorCode
  iptable_nova_service_reload_from_setting_file = do
    services ← iptable_nova_service_request_from_setting_file
    open_services services

  unfoldable pub iptables_refresh : Cmd ErrorCode
  iptables_refresh = do
    err ← iptables_default_setting
    on_success err (do
      err ← iptable_dnat_dmz_reload_from_setting_file
      on_success err (do
        err ← iptable_dnat_forwarding_reload_from_setting_file
        on_success err (do
          err ← iptable_nova_service_reload_from_setting_file
          on_success err iptables_restrict_basic)))
