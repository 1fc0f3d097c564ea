-- ===== src/Tests/Dhcp.antt =====
-- The properties of the names, the addresses and the leases at concrete inputs.
use noc_demo.Common.{
  ℕ, zero, suc, ◌≤◌, ◌≡◌, refl, true, none, some, List, [], ◌∷◌, ◌++◌, map, length, arith,
}
use noc_demo.Common.Int.{ℤ, pos}
use noc_demo.Common.Texts.{Text, codes}
use noc_demo.CJson.Tree.{tree_cjson}
use noc_demo.ErrorCode.{success}
use noc_demo.Network.Dhcp.Apply.{
  delete_hosts, dns_dhcp_set, dns_dhcp_get, dns_dhcp_reload_from_setting_file,
}
use noc_demo.Network.Dhcp.Clients.{Dhcp4Fits, cut_at}
use noc_demo.Network.Dhcp.Codec.{DhcpInfo, CustomHostname, Dns, Dhcp4}
use noc_demo.Network.Dhcp.Hosts.{delete_hosts_ends, repeat, at_once}
use noc_demo.Network.Dhcp.Lease.{dhcp_lease_get}
use noc_demo.Network.Dhcp.Lease.Answer.{
  Entry, IsEntry, IsDuid, line, duid_line, info, dhcp_lease_get_answers,
}
use noc_demo.Network.Dhcp.Reload.{reloaded, dns_dhcp_read_back, dns_dhcp_reload_crashes}
use noc_demo.Network.Dhcp.Reload.Parts.{Storable}
use noc_demo.Network.Dhcp.Set.{DnsFits, dns_list}
use noc_demo.Network.Dhcp.Stores.{
  setting, stored, stored_json, all_commands, dns_dhcp_set_stores, dns_dhcp_set_unreturned,
}
use noc_demo.Settings.{HasSetting-saved, saved}
use noc_demo.Tests.Base.{config, empty_world}
use noc_demo.Utils.Split.{split, pieces, unlines}
use noc_demo.Utils.Uci.{uci_set_command}
use noc_demo.World.{Read, byte, again, World, done, stopped, null_read, out_of_fuel, ran}

abbrev refusal : List Read
refusal = byte 0x6e ∷ byte 0x6f ∷ []

-- a configuration with two hosts, where the second deletion is waited for, and one for which
-- nothing is printed
abbrev two_hosts : World
two_hosts = record empty_world {
  answer = λ before cmd. elim before [
    | [] ↦ []
    | c ∷ cs ↦ elim cs [ [] ↦ again ∷ again ∷ [] | d ∷ ds ↦ refusal ]
  ];
}

abbrev delays : ℕ → ℕ
delays zero = 0
delays (suc i) = 2

delete_hosts_ends_example :
    (delete_hosts 3 two_hosts ≡ done tt (ran (repeat (suc (at_once delays 2))) two_hosts))
    × (at_once delays 2 ≤ 2)
    × (delete_hosts 3 empty_world ≡ stopped out_of_fuel)
delete_hosts_ends_example =
    delete_hosts_ends delays 2 3 two_hosts empty_world (omega arith) (refl, (refl, λ e. cc))
      (λ n. refl)

abbrev atoi : Text → ℤ
atoi s = pos (length s)

abbrev decimal : ℤ → Text
decimal n = codes "7"

abbrev host : CustomHostname
host = record { name = none; domain = some (codes "nas"); ip = some (codes "10.0.0.2") }

abbrev client : DhcpInfo
client = record {
  timestamp = pos 5;
  mac = some (codes "aa");
  ip = some (codes "10.0.0.3");
  host_name = some (codes "tv");
}

abbrev dns : Dns
dns = record {
  custom_hostname = host ∷ [];
  additional_dns = some (codes "1.1.1.1") ∷ [];
  forwarding_dns = some (codes "8.8.8.8") ∷ [];
  address = none;
  forwarding_dns_enabled = true;
}

abbrev dhcp4 : Dhcp4
dhcp4 = record {
  start_ip = some (codes "10.0.0.9");
  pools = pos 20;
  relay_enabled = true;
  relay_server_address = some (codes "10.0.0.1");
  relay_local_address = some (codes "10.0.0.1");
  static_dhcp4_clients = client ∷ [];
}

abbrev servers : List Text
servers = codes "1.1.1.1" ∷ []

dns_fits : DnsFits dns servers
dns_fits = record {
  texts = refl;
  pointer = refl;
  hosts = (omega arith, tt);
  options = (omega arith, tt);
  forwarding = (omega arith, tt);
}

dhcp4_fits : Dhcp4Fits atoi decimal [] dhcp4 (codes "10.0.0.9")
unfolding split pieces uci_set_command
dhcp4_fits = record {
  address = refl;
  relay = (omega arith, (omega arith, (omega arith, (omega arith, (omega arith, tt)))));
  clients = (omega arith, (omega arith, (omega arith, (omega arith, (omega arith, tt)))));
  range = (omega arith, (omega arith, tt));
}

-- every command prints something, so that there is no host
abbrev talking : World
talking = record empty_world { answer = λ before cmd. byte 0x78 ∷ [] }

dns_dhcp_set_stores_example :
    dns_dhcp_set atoi decimal [] config (pos 0) 1 (setting dns dhcp4) talking
    ≡ done
        (pos 0, setting dns (cut_at dhcp4 (codes "10.0.0.9")))
        (ran
          (all_commands atoi decimal [] dns servers dhcp4 (at_once delays 0) (codes "10.0.0.9"))
          (stored config dns dhcp4 talking))
dns_dhcp_set_stores_example =
    dns_dhcp_set_stores atoi decimal [] config 1 dns servers dhcp4 delays 0 (codes "10.0.0.9")
      talking refl refl dns_fits dhcp4_fits (λ e. cc) (omega arith)

dns_dhcp_set_unreturned_example :
    dns_dhcp_set atoi decimal [] config (pos 77) 1 (setting dns dhcp4) empty_world
    ≡ done
        (pos 77, setting dns dhcp4)
        (ran (dns_list dns servers) (stored config dns dhcp4 empty_world))
dns_dhcp_set_unreturned_example =
    dns_dhcp_set_unreturned atoi decimal [] config 1 dns servers dhcp4 (pos 77) empty_world refl
      refl refl dns_fits

storable : Storable dns servers (codes "8.8.8.8" ∷ []) dhcp4
storable = record {
  additional_texts = refl;
  forwarding_texts = refl;
  pointer = refl;
  pools = omega arith;
  clients = (omega arith, tt);
}

abbrev saved_world : World
saved_world = saved config.dhcp_setting_file (stored_json dns (some dhcp4)) empty_world

dns_dhcp_read_back_example :
    dns_dhcp_get config saved_world ≡ done (success, reloaded dns dhcp4) saved_world
dns_dhcp_read_back_example =
    dns_dhcp_read_back config dns servers (codes "8.8.8.8" ∷ []) dhcp4 storable saved_world
      (HasSetting-saved config.dhcp_setting_file _ empty_world refl)

abbrev nameless : Dns
nameless = record dns { custom_hostname = [] }

nameless-Storable : Storable nameless servers (codes "8.8.8.8" ∷ []) dhcp4
nameless-Storable = record {
  additional_texts = refl;
  forwarding_texts = refl;
  pointer = refl;
  pools = omega arith;
  clients = (omega arith, tt);
}

abbrev nameless_world : World
nameless_world = saved config.dhcp_setting_file (stored_json nameless (some dhcp4)) empty_world

dns_dhcp_reload_crashes_example :
    dns_dhcp_reload_from_setting_file atoi decimal [] config (pos 0) 9 nameless_world
    ≡ stopped null_read
dns_dhcp_reload_crashes_example =
    dns_dhcp_reload_crashes config atoi decimal [] (pos 0) 9 nameless servers (codes "8.8.8.8" ∷ [])
      dhcp4 nameless_world nameless-Storable refl
      (HasSetting-saved config.dhcp_setting_file _ empty_world refl)

abbrev entry : Entry
entry = record {
  stamp = codes "17";
  mac = codes "aa";
  ip = codes "10.0.0.3";
  host = codes "tv";
  more = [];
}

entry_is : IsEntry entry
entry_is = record {
  words = ((refl, refl), ((refl, refl), ((refl, refl), ((refl, refl), tt))));
  stamped = refl;
  one_line = (refl, refl);
}

some-IsDuid : IsDuid (codes "00" ∷ [])
some-IsDuid = record { words = ((refl, refl), tt); one_line = (refl, refl) }

abbrev with_file : Text → World
with_file text = record empty_world { files = λ path. some text }

abbrev entry_and_duid : Text
entry_and_duid = unlines (map line (entry ∷ []) ++ duid_line (codes "00" ∷ []) ∷ map line [])

abbrev entries_alone : Text
entries_alone = unlines (map line (entry ∷ []) ++ line entry ∷ [])

dhcp_lease_get_answers_example :
    (dhcp_lease_get atoi (with_file entry_and_duid)
      ≡ done
          (success, map (info atoi) (entry ∷ []) ++ map (info atoi) [])
          (with_file entry_and_duid))
    × (dhcp_lease_get atoi (with_file entries_alone)
        ≡ done (success, map (info atoi) (entry ∷ [])) (with_file entries_alone))
dhcp_lease_get_answers_example =
    dhcp_lease_get_answers atoi (entry ∷ []) [] (codes "00" ∷ []) entry (with_file entry_and_duid)
      (with_file entries_alone) (entry_is, tt) tt entry_is some-IsDuid refl refl refl refl
