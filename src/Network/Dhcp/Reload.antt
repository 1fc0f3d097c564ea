-- ===== src/Network/Dhcp/Reload.antt =====
-- What dns_dhcp_get and dns_dhcp_reload_from_setting_file make of a stored setting.
pub mod Parts
use noc_demo.Common.{
  ℕ, ◌≡◌, refl, ◌∙◌, ap, true, false, Bool-cases, inl, inr, Option, none, some, List, [], ◌∷◌,
  arith,
}
use noc_demo.Common.Int.{ℤ}
use noc_demo.Common.Texts.{Text, codes}
use noc_demo.CJson.Base.{CJson}
use noc_demo.CJson.Object.{object_of, get_item-object_of}
use noc_demo.Config.{Config}
use noc_demo.ErrorCode.{success}
use noc_demo.Network.Dhcp.Apply.{
  set_dns, dns_set, dns_dhcp_get, dns_dhcp_get_from_setting_file, dns_dhcp_save_to_setting_file,
  dns_dhcp_set, dns_dhcp_reload_from_setting_file,
}
use noc_demo.Network.Dhcp.Codec.{
  Dns, Dhcp4, DnsDhcp, dns_dhcp_members, dns_or_null, dhcp4_or_null, dns_item, cvt_json_to_dns_dhcp,
  cvt_dns_dhcp_to_json,
}
use noc_demo.Network.Dhcp.Reload.Parts.{
  Storable, reloaded_dns, reloaded_dhcp4, dns_json, dns_back, dhcp4_back,
}
use noc_demo.Network.Dhcp.Stores.{stored_json}
use noc_demo.Settings.{HasSetting, load_found, saved, save_json_writes, save_json_refused}
use noc_demo.Utils.Uci.{app_uci_delete, run_uci_fits}
use noc_demo.Utils.Uci.Runs.{delete_command, Fits}
use noc_demo.World.{World, done, stopped, null_read, ran}

module _ ⦃cj : CJson⦄ where
  -- What is stored is read back with the relay and the forwarding turned off, and with NULL for the
  -- names where no host has one.
  pub reloaded_lem :
      (dns : Dns) (additional forwarding : List Text) (dhcp4 : Dhcp4)
      → Storable dns additional forwarding dhcp4
      → cvt_json_to_dns_dhcp (some (stored_json dns (some dhcp4)))
        ≡ record { dns = reloaded_dns dns dns.custom_hostname; dhcp4 = some (reloaded_dhcp4 dhcp4) }
  unfolding cvt_json_to_dns_dhcp dns_or_null dhcp4_or_null
  reloaded_lem dns additional forwarding dhcp4 h =
      let ms = dns_dhcp_members (some (dns_json dns)) (some dhcp4) in
      λ i. record {
        dns =
            (ap dns_or_null (get_item-object_of ms (codes "dns"))
                ∙ dns_back dns additional forwarding dns.custom_hostname refl h.additional_texts
                    h.forwarding_texts h.pointer)
              i;
        dhcp4 =
            (ap dhcp4_or_null (get_item-object_of ms (codes "dhcp4"))
                ∙ ap some (dhcp4_back dhcp4 h.pools h.clients))
              i;
      }

  abbrev pub reloaded : Dns → Dhcp4 → DnsDhcp
  reloaded dns dhcp4 = record {
    dns = reloaded_dns dns dns.custom_hostname;
    dhcp4 = some (reloaded_dhcp4 dhcp4);
  }

  module _ (config : Config) (dns : Dns) (additional forwarding : List Text) (dhcp4 : Dhcp4)
      (h : Storable dns additional forwarding dhcp4) (w : World)
      (there : HasSetting config.dhcp_setting_file (stored_json dns (some dhcp4)) w) where
    -- A setting whose servers are all there, which no number has replaced, and whose numbers are
    -- machine integers, is read back from its file with the relay and the forwarding turned off; the
    -- clients, the pool and the servers are as they were, and so are the names of the hosts, if
    -- there is at least one; without a name the whole part of the names is NULL.
    pub dns_dhcp_read_back : dns_dhcp_get config w ≡ done (success, reloaded dns dhcp4) w
    unfolding dns_dhcp_get dns_dhcp_get_from_setting_file
    dns_dhcp_read_back = rw (load_found there, reloaded_lem dns additional forwarding dhcp4 h)

  delete_addresses_fits : Fits (delete_command (codes "dhcp.@dnsmasq[0].address"))
  delete_addresses_fits = omega arith

  -- Without the part of the names, dns_dhcp_set reads through NULL, whether the file can be written
  -- or not.
  set_null :
      (config : Config) (atoi : Text → ℤ) (decimal : ℤ → Text) (resumed : List Text)
      (unreturned : ℤ) (fuel : ℕ) (dhcp4 : Option Dhcp4) (w : World)
      → w.locked ≡ false
      → dns_dhcp_set atoi decimal resumed config unreturned fuel
          (record { dns = none; dhcp4 = dhcp4 })
          w
        ≡ stopped null_read
  unfolding dns_dhcp_set dns_set set_dns dns_dhcp_save_to_setting_file cvt_dns_dhcp_to_json dns_item
      app_uci_delete
  set_null config atoi decimal resumed unreturned fuel dhcp4 w free =
      let path = config.dhcp_setting_file in
      let json = object_of (dns_dhcp_members none dhcp4) in
      let delete = delete_command (codes "dhcp.@dnsmasq[0].address") in
      elim (Bool-cases (w.writable path)) [
        | inl ok ↦ rw (
          save_json_writes path json w free ok,
          run_uci_fits delete (saved path json w) delete_addresses_fits,
        )
        | inr bad ↦ rw (
          save_json_refused path json w free bad,
          run_uci_fits delete (record w { locked = true }) delete_addresses_fits,
        )
      ]

  -- A setting without a name of a host, whose servers are all there, which no number has replaced,
  -- and whose numbers are machine integers, as dns_dhcp_set stores it, is not brought back by the
  -- reload at the start of the program: it reads through NULL, whatever dns_set leaves as its result
  -- and however much fuel the loop has.
  pub dns_dhcp_reload_crashes :
      (config : Config) (atoi : Text → ℤ) (decimal : ℤ → Text) (resumed : List Text)
      (unreturned : ℤ) (fuel : ℕ) (dns : Dns) (additional forwarding : List Text) (dhcp4 : Dhcp4)
      (w : World)
      → Storable dns additional forwarding dhcp4
      → dns.custom_hostname ≡ []
      → HasSetting config.dhcp_setting_file (stored_json dns (some dhcp4)) w
      → dns_dhcp_reload_from_setting_file atoi decimal resumed config unreturned fuel w
        ≡ stopped null_read
  unfolding dns_dhcp_reload_from_setting_file dns_dhcp_get_from_setting_file
  dns_dhcp_reload_crashes config atoi decimal resumed unreturned fuel dns additional forwarding
        dhcp4 w h no_host there =
      rw (
        load_found there,
        reloaded_lem dns additional forwarding dhcp4 h,
        ap (reloaded_dns dns) no_host,
        set_null config atoi decimal resumed unreturned fuel (some (reloaded_dhcp4 dhcp4)) w
            there.free,
      )
