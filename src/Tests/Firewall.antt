-- ===== src/Tests/Firewall.antt =====
-- The properties of the firewall at concrete inputs.
use noc_demo.Common.{◌≡◌, refl, true, if◌then◌else◌, none, some, List, [], ◌∷◌, ◌++◌, All, arith}
use noc_demo.Common.Texts.{Text, codes, contains}
use noc_demo.CJson.Tree.{tree_cjson}
use noc_demo.ErrorCode.{success, internal_server}
use noc_demo.Network.Iptables.Defs.{Iptable, IptableNovaService}
use noc_demo.Network.Iptables.Codec.{
  cvt_iptable_to_json, cvt_iptable_list_to_json, cvt_iptable_nova_service_list_to_json,
  cvt_json_to_iptable_nova_service_list,
}
use noc_demo.Network.Iptables.RoundTrip.{nova_list_round_trip}
use noc_demo.Network.Iptables.Rules.{open_command}
use noc_demo.Network.Iptables.Reload.{dmz_command, iptables_refresh}
use noc_demo.Network.Iptables.Refresh.{
  HasFirewall, FirewallFits, OpenFits, DmzFits, ServiceFits, refresh_commands,
  iptables_refresh_runs,
}
use noc_demo.Network.Iptables.Forwarding.{
  found_result, iptables_dnat_forwarding_create, iptables_dnat_forwarding_update,
  iptables_dnat_forwarding_delete,
}
use noc_demo.Network.Iptables.Forwarding.Stores.{
  with_ids, replaced_all, requested, refreshed, forwarding_create_stores, forwarding_update_stores,
}
use noc_demo.Network.Iptables.Forwarding.Removes.{
  NamesOne, unnamed, any_named, forwarding_delete_removes,
}
use noc_demo.Network.Iptables.Services.{
  iptable_dnat_dmz_update, iptable_nova_service_set, nova_service_set_never_succeeds,
}
use noc_demo.Network.Iptables.Dmz.{dmz_update_applies}
use noc_demo.Settings.{saved, HasSetting-saved, HasSetting-other}
use noc_demo.Tests.Base.{numbered, config, empty_world}
use noc_demo.World.{World, done, stopped, deadlock, null_read, ran}

abbrev profile : Text → Text → Iptable
profile id port = record {
  id = some id;
  name = none;
  port_range = some port;
  ip_mask = some (codes "10.0.0.0/8");
  protocol = some (codes "tcp");
  dnat_ip = none;
  dnat_port_range = none;
  interface = none;
  enable = true;
}

abbrev zone : Iptable
zone = record (profile (codes "z") (codes "1")) { dnat_ip = some (codes "10.0.0.3") }

abbrev http : Iptable
http = profile (codes "p1") (codes "80")

abbrev https : Iptable
https = profile (codes "p2") (codes "443")

abbrev https' : Iptable
https' = profile (codes "p2") (codes "8443")

abbrev service : IptableNovaService
service = record { name = some (codes "ssh"); port_profiles = some (http ∷ []) }

abbrev services : List IptableNovaService
services = service ∷ []

services_written :
    (json : tree_cjson.Json) × (cvt_iptable_nova_service_list_to_json services ≡ some json)
    × (cvt_json_to_iptable_nova_service_list (some json) ≡ services)
services_written = nova_list_round_trip services ((http ∷ [], refl), tt)

nova_list_round_trip_example :
    (json : tree_cjson.Json) × (cvt_iptable_nova_service_list_to_json services ≡ some json)
    × (cvt_json_to_iptable_nova_service_list (some json) ≡ services)
nova_list_round_trip_example = nova_list_round_trip services ((http ∷ [], refl), tt)

abbrev stored : List Iptable
stored = http ∷ https ∷ []

abbrev zone_world : World
zone_world = saved config.iptables_dnat_dmz_setting_file (cvt_iptable_to_json zone) empty_world

abbrev profiles_world : World
profiles_world =
    saved config.iptables_dnat_forwarding_setting_file (cvt_iptable_list_to_json stored) zone_world

abbrev world : World
world = saved config.iptables_nova_setting_file services_written.0 profiles_world

has_firewall : HasFirewall config zone stored services world
has_firewall =
    let nova = config.iptables_nova_setting_file in
    let pf = config.iptables_dnat_forwarding_setting_file in
    record {
      dmz_file = HasSetting-other nova _ refl (
          HasSetting-other pf _ refl
            (HasSetting-saved config.iptables_dnat_dmz_setting_file _ empty_world refl));
      profiles_file = HasSetting-other nova _ refl (HasSetting-saved pf _ zone_world refl);
      services_file =
          (services_written.0, services_written.1, HasSetting-saved nova _ profiles_world refl);
    }

http_fits : OpenFits http
unfolding open_command
http_fits = omega arith

https_fits : (OpenFits https) × (OpenFits https')
unfolding open_command
https_fits = (omega arith, omega arith)

zone_fits : DmzFits zone
unfolding dmz_command
zone_fits = (omega arith, omega arith)

services_fit : All ServiceFits services
services_fit = ((http ∷ [], refl, (http_fits, tt)), tt)

iptables_refresh_runs_example :
    iptables_refresh config world ≡ done success (ran (refresh_commands zone stored services) world)
iptables_refresh_runs_example =
    iptables_refresh_runs config zone stored services world has_firewall
      (zone_fits, (http_fits, (https_fits.0, tt)), services_fit)

created_fits : FirewallFits zone (stored ++ with_ids 0 (https' ∷ [])) services
unfolding open_command
created_fits = (zone_fits, (http_fits, (https_fits.0, (omega arith, tt))), services_fit)

forwarding_create_stores_example :
    let all = stored ++ with_ids 0 (https' ∷ []) in
    iptables_dnat_forwarding_create config (https' ∷ []) world
    ≡ done (success, all) (refreshed config zone all services (record world { uuids = 1 }))
forwarding_create_stores_example =
    forwarding_create_stores config zone stored (https' ∷ []) services world (refl, refl)
      has_firewall refl (omega arith) created_fits

replaced_fits : FirewallFits zone (replaced_all (https' ∷ []) stored) services
unfolding contains
replaced_fits = (zone_fits, (http_fits, (https_fits.1, tt)), services_fit)

forwarding_update_stores_example :
    iptables_dnat_forwarding_update config (https' ∷ []) world
    ≡ done
        (found_result (requested (https' ∷ []) stored), replaced_all (https' ∷ []) stored)
        (refreshed config zone (replaced_all (https' ∷ []) stored) services world)
forwarding_update_stores_example =
    forwarding_update_stores config zone (https' ∷ []) stored services world (refl, refl)
      has_firewall refl replaced_fits

https_named_once : All (NamesOne stored) (https' ∷ [])
unfolding contains
https_named_once = (omega arith, tt)

left_fits : FirewallFits zone (unnamed (https' ∷ []) stored) services
unfolding contains
left_fits = (zone_fits, (http_fits, tt), services_fit)

forwarding_delete_removes_example :
    iptables_dnat_forwarding_delete config (https' ∷ []) world
    ≡ done
        (found_result (any_named (https' ∷ []) stored), unnamed (https' ∷ []) stored)
        (refreshed config zone (unnamed (https' ∷ []) stored) services world)
forwarding_delete_removes_example =
    forwarding_delete_removes config zone (https' ∷ []) stored services world (refl, refl)
      has_firewall refl https_named_once left_fits

https_zone_fits : DmzFits https
unfolding dmz_command
https_zone_fits = (omega arith, omega arith)

dmz_update_applies_example :
    iptable_dnat_dmz_update config https world
    ≡ done success (
        ran
          (refresh_commands https stored services)
          (saved config.iptables_dnat_dmz_setting_file (cvt_iptable_to_json https) world))
dmz_update_applies_example =
    dmz_update_applies config zone https stored services world (refl, refl) has_firewall refl
      (https_zone_fits, (http_fits, (https_fits.0, tt)), services_fit)

nova_service_set_never_succeeds_example :
    iptable_nova_service_set config services world
    ≡ elim (cvt_iptable_nova_service_list_to_json services) [
      | none ↦ stopped null_read
      | some json ↦
          if world.writable config.iptables_nova_setting_file
          then done internal_server (saved config.iptables_nova_setting_file json world)
          else stopped deadlock
    ]
nova_service_set_never_succeeds_example = nova_service_set_never_succeeds config services world refl
