-- ===== src/Network/Dhcp/Stores.antt =====
-- What dns_dhcp_set leaves in the setting file and in the configuration of the router.
use noc_demo.Common.{
  ℕ, ◌<◌, ◌≡◌, refl, ◌∙◌, ap, true, false, Option, none, some, List, [], ◌∷◌, ◌++◌, length, arith,
}
use noc_demo.Common.Int.{ℤ, pos, int_eq}
use noc_demo.Common.Texts.{Text, codes}
use noc_demo.CJson.Base.{CJson}
use noc_demo.CJson.Object.{object_of}
use noc_demo.Config.{Config}
use noc_demo.Network.Dhcp.Apply.{dns_set, dns_dhcp_save_to_setting_file, after_dns, dns_dhcp_set}
use noc_demo.Network.Dhcp.Clients.{Dhcp4Fits, cut_at, dhcp4_list, dhcp4_set_lem, relay_list}
use noc_demo.Network.Dhcp.Codec.{
  Dns, Dhcp4, DnsDhcp, dns_members, dns_dhcp_members, strings_item, forwarding_item, dns_item,
  cvt_dns_to_json, cvt_dns_dhcp_to_json,
}
use noc_demo.Network.Dhcp.Hosts.{HasHosts, at_once}
use noc_demo.Network.Dhcp.Set.{DnsFits, dns_list, Runs-set_dns}
use noc_demo.Settings.{saved, save_json_writes}
use noc_demo.Utils.Uci.{app_uci_commit, run_uci_fits, uci_commit_command}
use noc_demo.World.{World, done, ran, ran-ran}

abbrev pub commit_dhcp : Text
commit_dhcp = uci_commit_command (codes "dhcp")

commit_short : length commit_dhcp < 200
unfolding uci_commit_command
commit_short = omega arith

-- All commands of a setting, with `n` deletions before the last.
abbrev pub all_commands :
    (Text → ℤ) → (ℤ → Text) → List Text → Dns → List Text → Dhcp4 → ℕ → Text → List Text
all_commands atoi decimal resumed dns servers dhcp4 n ip =
    dns_list dns servers ++ (dhcp4_list atoi decimal resumed n dhcp4 ip ++ commit_dhcp ∷ [])

module _ ⦃cj : CJson⦄ where
  open cj use {Json}

  -- the setting as it is stored
  abbrev pub stored_json : Dns → Option Dhcp4 → Json
  stored_json dns dhcp4 =
      let json = object_of (dns_members dns (strings_item dns.forwarding_dns)) in
      object_of (dns_dhcp_members (some json) dhcp4)

  forwarding_item_pointer :
      (ss : List (Option Text)) (w : World) → forwarding_item ss none w ≡ done (strings_item ss) w
  unfolding forwarding_item
  forwarding_item_pointer [] w = refl
  forwarding_item_pointer (s ∷ ss) w = refl

  pub cvt_dns_dhcp_to_json_lem :
      (dns : Dns) (dhcp4 : Option Dhcp4) (w : World)
      → dns.address ≡ none
      → cvt_dns_dhcp_to_json (record { dns = some dns; dhcp4 = dhcp4 }) w
        ≡ done (stored_json dns dhcp4) w
  unfolding cvt_dns_dhcp_to_json dns_item cvt_dns_to_json
  cvt_dns_dhcp_to_json_lem dns dhcp4 w pointer =
      rw (pointer, forwarding_item_pointer dns.forwarding_dns w)

  abbrev pub setting : Dns → Dhcp4 → DnsDhcp
  setting dns dhcp4 = record { dns = some dns; dhcp4 = some dhcp4 }

  abbrev pub stored : Config → Dns → Dhcp4 → World → World
  stored config dns dhcp4 w = saved config.dhcp_setting_file (stored_json dns (some dhcp4)) w

  save_lem :
      (config : Config) (dns : Dns) (dhcp4 : Dhcp4) (w : World)
      → w.locked ≡ false
      → w.writable config.dhcp_setting_file ≡ true
      → dns.address ≡ none
      → dns_dhcp_save_to_setting_file config (setting dns dhcp4) w
        ≡ done tt (stored config dns dhcp4 w)
  unfolding dns_dhcp_save_to_setting_file
  save_lem config dns dhcp4 w free ok pointer = rw (
    cvt_dns_dhcp_to_json_lem dns (some dhcp4) w pointer,
    save_json_writes config.dhcp_setting_file (stored_json dns (some dhcp4)) w free ok,
  )

  module _ (atoi : Text → ℤ) (decimal : ℤ → Text) (resumed : List Text) (config : Config) (fuel : ℕ)
      (dns : Dns) (servers : List Text) (dhcp4 : Dhcp4) where
    -- For a setting with both parts: if the lock of the files is free, the setting file can be
    -- written, every command of the names fits its buffer, no additional server is NULL and no
    -- number has replaced the pointer of the forwarding servers: whatever number but 0 dns_set
    -- happens to leave is the result of dns_dhcp_set; the setting is stored and the names are set,
    -- but neither the addresses are set nor anything is committed.
    pub dns_dhcp_set_unreturned :
        (unreturned : ℤ) (w : World)
        → int_eq unreturned (pos 0) ≡ false
        → w.locked ≡ false
        → w.writable config.dhcp_setting_file ≡ true
        → DnsFits dns servers
        → dns_dhcp_set atoi decimal resumed config unreturned fuel (setting dns dhcp4) w
          ≡ done
              (unreturned, setting dns dhcp4)
              (ran (dns_list dns servers) (stored config dns dhcp4 w))
    unfolding dns_dhcp_set dns_set after_dns
    dns_dhcp_set_unreturned unreturned w other free ok dns_fits =
        let w1 = stored config dns dhcp4 w in
        let dns_done = (Runs-set_dns dns servers dns_fits w1).1 in
        rw (save_lem config dns dhcp4 w free ok dns_fits.pointer, dns_done, other) refl

    module _ (delays : ℕ → ℕ) (n : ℕ) (ip : Text) where
      -- For a setting with both parts: if the lock of the files is free, the setting file can be
      -- written, every command fits its buffer, no additional server is NULL, no number has
      -- replaced the pointer of the forwarding servers, the first address is there, dns_set happens
      -- to leave 0, and the loop has more fuel than the configuration has hosts when it starts,
      -- then dns_dhcp_set stores the setting, runs the commands of the names, of the relay, the
      -- deletions of hosts up to the first that is waited for or that fails, those of the clients
      -- and of the pool, commits last, and succeeds; it leaves the first address of the setting
      -- ended behind its first part.
      pub dns_dhcp_set_stores :
          (w : World)
          → w.locked ≡ false
          → w.writable config.dhcp_setting_file ≡ true
          → DnsFits dns servers
          → Dhcp4Fits atoi decimal resumed dhcp4 ip
          → HasHosts delays n
              (ran (relay_list dhcp4) (ran (dns_list dns servers) (stored config dns dhcp4 w)))
          → n < fuel
          → dns_dhcp_set atoi decimal resumed config (pos 0) fuel (setting dns dhcp4) w
            ≡ done
                (pos 0, setting dns (cut_at dhcp4 ip))
                (ran
                  (all_commands atoi decimal resumed dns servers dhcp4 (at_once delays n) ip)
                  (stored config dns dhcp4 w))
      unfolding dns_dhcp_set dns_set app_uci_commit after_dns
      dns_dhcp_set_stores w free ok dns_fits dhcp4_fits hosts enough =
          let w1 = stored config dns dhcp4 w in
          let w2 = ran (dns_list dns servers) w1 in
          let commands = dhcp4_list atoi decimal resumed (at_once delays n) dhcp4 ip in
          let w3 = ran commands w2 in
          let dns_done = (Runs-set_dns dns servers dns_fits w1).1 in
          rw
            (
              save_lem config dns dhcp4 w free ok dns_fits.pointer,
              dns_done,
              dhcp4_set_lem atoi decimal resumed delays n fuel dhcp4 ip w2 enough dhcp4_fits hosts,
              run_uci_fits commit_dhcp w3 commit_short,
            )
            (ap (done (pos 0, setting dns (cut_at dhcp4 ip))) (
              ran-ran commands (commit_dhcp ∷ []) w2
              ∙ ran-ran (dns_list dns servers) (commands ++ commit_dhcp ∷ []) w1))
