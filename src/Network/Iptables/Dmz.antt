-- ===== src/Network/Iptables/Dmz.antt =====
-- What a new demilitarised zone leaves in its file and in the rules.
use noc_demo.Common.{◌≡◌, false, true, List}
use noc_demo.Common.Texts.{text_eq}
use noc_demo.CJson.Base.{CJson}
use noc_demo.Config.{Config}
use noc_demo.ErrorCode.{success}
use noc_demo.Network.Iptables.Defs.{Iptable, IptableNovaService}
use noc_demo.Network.Iptables.Codec.{cvt_iptable_to_json}
use noc_demo.Network.Iptables.Refresh.{
  HasFirewall, FirewallFits, refresh_commands, iptables_refresh_runs,
}
use noc_demo.Network.Iptables.Services.{iptable_dnat_dmz_update}
use noc_demo.Settings.{saved, save_json_writes, HasSetting-saved, HasSetting-other}
use noc_demo.World.{World, done, ran}

module _ ⦃cj : CJson⦄ (config : Config) where
  -- The file of the zone is neither of the other two.
  abbrev pub DmzDiffers : Type 0
  DmzDiffers =
      (text_eq config.iptables_dnat_dmz_setting_file config.iptables_dnat_forwarding_setting_file
        ≡ false)
      × (text_eq config.iptables_dnat_dmz_setting_file config.iptables_nova_setting_file ≡ false)

  -- If the setting files hold the settings, the file of the zone can be written and is not one of
  -- the others, and every command fits its buffer, updating the zone succeeds: the new zone is
  -- stored, and the rules are made anew with it and the other settings as they were.
  pub dmz_update_applies :
      (old new : Iptable) (profiles : List Iptable) (services : List IptableNovaService) (w : World)
      → DmzDiffers
      → HasFirewall config old profiles services w
      → w.writable config.iptables_dnat_dmz_setting_file ≡ true
      → FirewallFits new profiles services
      → iptable_dnat_dmz_update config new w
        ≡ done success (
            ran
              (refresh_commands new profiles services)
              (saved config.iptables_dnat_dmz_setting_file (cvt_iptable_to_json new) w))
  unfolding iptable_dnat_dmz_update
  dmz_update_applies old new profiles services w (other, other') h ok fits =
      let file = config.iptables_dnat_dmz_setting_file in
      let json = cvt_iptable_to_json new in
      let w1 = saved file json w in
      rw (
        save_json_writes file json w h.dmz_file.free ok,
        iptables_refresh_runs config new profiles services w1
            (record {
              dmz_file = HasSetting-saved file json w h.dmz_file.free;
              profiles_file = HasSetting-other file json other h.profiles_file;
              services_file = (
                h.services_file.0,
                h.services_file.1,
                HasSetting-other file json other' h.services_file.2,
              );
            })
            fits,
      )
