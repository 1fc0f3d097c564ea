-- ===== src/Network/Dhcp/Apply.antt =====
-- dns_set, dhcp4_set and dns_dhcp_set of dhcp.c: the commands that bring the settings to the router.
use noc_demo.Common.{ℕ, zero, suc, if◌then◌else◌, Option, none, some, List, [], ◌∷◌, ◌++◌}
use noc_demo.Common.Int.{ℤ, pos, int_eq, int_add}
use noc_demo.Common.Texts.{Text, codes}
use noc_demo.CJson.Base.{CJson}
use noc_demo.Config.{Config}
use noc_demo.ErrorCode.{ErrorCode, success, code}
use noc_demo.Network.Dhcp.Codec.{
  DhcpInfo, CustomHostname, Dns, Dhcp4, DnsDhcp, cvt_dns_dhcp_to_json, cvt_json_to_dns_dhcp,
}
use noc_demo.Settings.{load_json_from_file, save_json}
use noc_demo.Utils.Split.{split, strtok_left}
use noc_demo.Utils.Uci.{app_uci_add, app_uci_set, app_uci_delete, app_uci_add_list, app_uci_commit}
use noc_demo.World.{Cmd, pure, stop, ◌>>=◌, ◌>>◌, sprintf, arg, null_read, wild_read, out_of_fuel}

-- `sprintf(cmd, "/%s/%s", domain, ip)`
abbrev pub address_of : CustomHostname → Text
address_of host = codes "/" ++ (arg host.domain ++ (codes "/" ++ arg host.ip))

unfoldable pub add_hostnames : List CustomHostname → Cmd (Unit {0})
add_hostnames [] = pure tt
add_hostnames (host ∷ hosts) = do
  cmd ← sprintf 200 (address_of host)
  app_uci_add_list (codes "dhcp.@dnsmasq[0].address") (some cmd)
  add_hostnames hosts

-- `strcat(cmd, ","); strcat(cmd, dns)` for each server, from what stands in `char cmd[200]`
unfoldable pub cat_servers : Text → List (Option Text) → Cmd Text
cat_servers cmd [] = pure cmd
cat_servers cmd (none ∷ servers) = do sprintf 200 (cmd ++ codes ","); stop null_read
cat_servers cmd (some s ∷ servers) = do
  longer ← sprintf 200 (cmd ++ (codes "," ++ s))
  cat_servers longer servers

unfoldable pub set_additional : List (Option Text) → Cmd (Unit {0})
set_additional [] = pure tt
set_additional (s ∷ servers) = do
  cmd ← cat_servers (codes "6") (s ∷ servers)
  app_uci_add_list (codes "dhcp.lan.dhcp_option") (some cmd)
  pure tt

unfoldable pub add_servers : List (Option Text) → Cmd (Unit {0})
add_servers [] = pure tt
add_servers (s ∷ servers) = do
  app_uci_add_list (codes "dhcp.@dnsmasq[0].server") s
  add_servers servers

-- the strings of `forwarding_dns`, which a number may have replaced
unfoldable pub servers_at : List (Option Text) → Option ℤ → Cmd (List (Option Text))
servers_at [] address = pure []
servers_at (s ∷ servers) none = pure (s ∷ servers)
servers_at (s ∷ servers) (some n) = if int_eq n (pos 0) then stop null_read else stop wild_read

unfoldable pub set_forwarding : Dns → Cmd (Unit {0})
set_forwarding dns =
    if dns.forwarding_dns_enabled
    then (servers_at dns.forwarding_dns dns.address >>= add_servers)
    else pure tt

-- what dns_set does; it has no `return`
unfoldable pub dns_commands : Dns → Cmd (Unit {0})
dns_commands dns = do
  add_hostnames dns.custom_hostname
  app_uci_delete (codes "dhcp.lan.dhcp_option")
  set_additional dns.additional_dns
  app_uci_delete (codes "dhcp.@dnsmasq[0].server")
  set_forwarding dns

-- The first deletion needs no field of the setting; the rest reads through the pointer.
unfoldable pub set_dns : Option Dns → Cmd (Unit {0})
set_dns none = do app_uci_delete (codes "dhcp.@dnsmasq[0].address"); stop null_read
set_dns (some dns) = do app_uci_delete (codes "dhcp.@dnsmasq[0].address"); dns_commands dns

unfoldable pub set_relay : Dhcp4 → Cmd (Unit {0})
set_relay dhcp4 =
    if dhcp4.relay_enabled
    then (do
      app_uci_delete (codes "dhcp.@relay[0]")
      app_uci_add (codes "dhcp") (codes "relay")
      app_uci_set (codes "dhcp.@relay[-1].interface") (some (codes "lan"))
      app_uci_set (codes "dhcp.@relay[-1].local_addr") dhcp4.relay_local_address
      app_uci_set (codes "dhcp.@relay[-1].server_addr") dhcp4.relay_server_address
      pure tt)
    else pure tt

-- `do { str = app_uci_delete("dhcp.@host[-1]"); } while (str == NULL);`
unfoldable pub delete_hosts : ℕ → Cmd (Unit {0})
delete_hosts zero = stop out_of_fuel
delete_hosts (suc fuel) = do
  str ← app_uci_delete (codes "dhcp.@host[-1]")
  elim str [ none ↦ delete_hosts fuel | some s ↦ pure tt ]

unfoldable pub add_hosts : List DhcpInfo → Cmd (Unit {0})
add_hosts [] = pure tt
add_hosts (client ∷ clients) = do
  app_uci_add (codes "dhcp") (codes "host")
  app_uci_set (codes "dhcp.@host[-1].name") client.host_name
  app_uci_set (codes "dhcp.@host[-1].mac") client.mac
  app_uci_set (codes "dhcp.@host[-1].ip") client.ip
  app_uci_set (codes "dhcp.@host[-1].dns") (some (codes "1"))
  add_hosts clients

module _ ⦃cj : CJson⦄ (config : Config) where
  unfoldable pub dns_dhcp_save_to_setting_file : DnsDhcp → Cmd (Unit {0})
  dns_dhcp_save_to_setting_file setting = do
    json ← cvt_dns_dhcp_to_json setting
    save_json config.dhcp_setting_file json
    pure tt

  unfoldable pub dns_dhcp_get_from_setting_file : Cmd DnsDhcp
  dns_dhcp_get_from_setting_file = do
    json ← load_json_from_file config.dhcp_setting_file
    pure (cvt_json_to_dns_dhcp json)

  unfoldable pub dns_dhcp_get : Cmd (ErrorCode × DnsDhcp)
  dns_dhcp_get = do setting ← dns_dhcp_get_from_setting_file; pure (success, setting)

-- strtok ends the string of the first address behind its first part.
abbrev pub address_left : Option Text → Option Text
address_left none = none
address_left (some ip) = some (strtok_left 0x2e ip)

abbrev pub pool_cut : Dhcp4 → Dhcp4
pool_cut dhcp4 = record dhcp4 { start_ip = address_left dhcp4.start_ip }

-- atoi, the `%d` of sprintf, and the parts that strtok finds when it is given NULL: it goes on in the
-- string of an earlier call
module _ (atoi : Text → ℤ) (decimal : ℤ → Text) (resumed : List Text) where
  -- the last of four parts, with the number behind the pool
  unfoldable pub set_range : List Text → ℤ → Cmd (Unit {0})
  set_range (a ∷ b ∷ c ∷ start_ip ∷ []) pools = do
    limit_ip ← sprintf 200 (decimal (int_add (atoi start_ip) pools))
    app_uci_set (codes "dhcp.lan.start") (some start_ip)
    app_uci_set (codes "dhcp.lan.limit") (some limit_ip)
    pure tt
  set_range _ pools = pure tt

  unfoldable pub set_pool : Option Text → ℤ → Cmd (Unit {0})
  set_pool none pools = set_range resumed pools
  set_pool (some ip) pools = set_range (split ip 0x2e) pools

  -- the code, and the setting as the calls leave it
  unfoldable pub dhcp4_set : ℕ → Option Dhcp4 → Cmd (ErrorCode × Dhcp4)
  dhcp4_set fuel none = stop null_read
  dhcp4_set fuel (some dhcp4) = do
    set_relay dhcp4
    delete_hosts fuel
    add_hosts dhcp4.static_dhcp4_clients
    set_pool dhcp4.start_ip dhcp4.pools
    pure (success, pool_cut dhcp4)

  module _ ⦃cj : CJson⦄ (config : Config) where
    abbrev pub commit_set : DnsDhcp → ErrorCode × Dhcp4 → Cmd (ℤ × DnsDhcp)
    commit_set setting (success, dhcp4) = do
      app_uci_commit (codes "dhcp")
      pure (pos 0, record setting { dhcp4 = some dhcp4 })
    commit_set setting (err, dhcp4) = pure (pos (code err), record setting { dhcp4 = some dhcp4 })

    -- `unreturned` is the number that the caller of dns_set finds, which has no `return`.
    module _ (unreturned : ℤ) (fuel : ℕ) where
      unfoldable pub dns_set : Option Dns → Cmd ℤ
      dns_set dns = do set_dns dns; pure unreturned

      unfoldable pub after_dns : DnsDhcp → ℤ → Cmd (ℤ × DnsDhcp)
      after_dns setting err =
          let rest : Cmd (ℤ × DnsDhcp) = dhcp4_set fuel setting.dhcp4 >>= commit_set setting in
          if int_eq err (pos 0) then rest else pure (err, setting)

      -- the code, and the setting as the calls leave it
      unfoldable pub dns_dhcp_set : DnsDhcp → Cmd (ℤ × DnsDhcp)
      dns_dhcp_set setting = do
        dns_dhcp_save_to_setting_file config setting
        err ← dns_set setting.dns
        after_dns setting err

      unfoldable pub dns_dhcp_reload_from_setting_file : Cmd (Unit {0})
      dns_dhcp_reload_from_setting_file = do
        setting ← dns_dhcp_get_from_setting_file config
        dns_dhcp_set setting
        pure tt
