-- ===== src/Network/Dhcp/Clients.antt =====
-- The commands that bring the relay, the clients with fixed addresses and the pool to the router.
use noc_demo.Common.{
  ℕ, suc, ◌<◌, ◌≡◌, ◌∙◌, ap, Bool-cases, inl, inr, if◌then◌else◌, some, List, [], ◌∷◌, ◌++◌, length,
  length-append, All, arith,
}
use noc_demo.Common.Int.{ℤ, int_add}
use noc_demo.Common.Texts.{Text, codes}
use noc_demo.ErrorCode.{success}
use noc_demo.Network.Dhcp.Codec.{DhcpInfo, Dhcp4}
use noc_demo.Network.Dhcp.Apply.{set_relay, add_hosts, set_range, set_pool, dhcp4_set}
use noc_demo.Network.Dhcp.Hosts.{repeat, HasHosts, at_once, ends}
use noc_demo.Utils.Split.{split, strtok_left}
use noc_demo.Utils.Uci.{uci_set_command}
use noc_demo.Utils.Uci.Runs.{
  Fits, Runs, Runs-then, Runs-pure, Runs-app_uci_add, Runs-app_uci_set, Runs-app_uci_delete,
  Runs-sprintf, add_command, delete_command,
}
use noc_demo.World.{World, done, ran, ran-ran}

abbrev pub host_list : DhcpInfo → List Text
host_list client =
    add_command (codes "dhcp") (codes "host")
    ∷ uci_set_command (codes "dhcp.@host[-1].name") client.host_name
    ∷ uci_set_command (codes "dhcp.@host[-1].mac") client.mac
    ∷ uci_set_command (codes "dhcp.@host[-1].ip") client.ip
    ∷ uci_set_command (codes "dhcp.@host[-1].dns") (some (codes "1"))
    ∷ []

abbrev pub hosts_list : List DhcpInfo → List Text
hosts_list [] = []
hosts_list (client ∷ clients) = host_list client ++ hosts_list clients

Runs-add_hosts :
    (clients : List DhcpInfo)
    → All Fits (hosts_list clients)
    → Runs (add_hosts clients) (hosts_list clients)
unfolding add_hosts
Runs-add_hosts [] h = Runs-pure tt
Runs-add_hosts (client ∷ clients) (a, (b, (c, (d, (e, rest))))) =
    Runs-then _ _ _ _ (Runs-app_uci_add (codes "dhcp") (codes "host") a) (
      Runs-then _ _ _ _ (Runs-app_uci_set (codes "dhcp.@host[-1].name") client.host_name b) (
        Runs-then _ _ _ _ (Runs-app_uci_set (codes "dhcp.@host[-1].mac") client.mac c) (
          Runs-then _ _ _ _ (Runs-app_uci_set (codes "dhcp.@host[-1].ip") client.ip d) (
            Runs-then _ _ _ _ (Runs-app_uci_set (codes "dhcp.@host[-1].dns") (some (codes "1")) e)
              (Runs-add_hosts clients rest)))))

abbrev relay_commands : Dhcp4 → List Text
relay_commands dhcp4 =
    delete_command (codes "dhcp.@relay[0]")
    ∷ add_command (codes "dhcp") (codes "relay")
    ∷ uci_set_command (codes "dhcp.@relay[-1].interface") (some (codes "lan"))
    ∷ uci_set_command (codes "dhcp.@relay[-1].local_addr") dhcp4.relay_local_address
    ∷ uci_set_command (codes "dhcp.@relay[-1].server_addr") dhcp4.relay_server_address
    ∷ []

abbrev pub relay_list : Dhcp4 → List Text
relay_list dhcp4 = if dhcp4.relay_enabled then relay_commands dhcp4 else []

Runs-set_relay :
    (dhcp4 : Dhcp4) → All Fits (relay_list dhcp4) → Runs (set_relay dhcp4) (relay_list dhcp4)
unfolding set_relay
Runs-set_relay dhcp4 fits w = elim (Bool-cases dhcp4.relay_enabled) [
  | inl on ↦
      let (a, (b, (c, (d, (e, _))))) = rw on at fits in
      rw on (
        Runs-then _ _ _ _ (Runs-app_uci_delete (codes "dhcp.@relay[0]") a)
          (Runs-then _ _ _ _ (Runs-app_uci_add (codes "dhcp") (codes "relay") b) (
            Runs-then _ _ _ _
              (Runs-app_uci_set (codes "dhcp.@relay[-1].interface") (some (codes "lan")) c)
              (Runs-then _ _ _ _
                (Runs-app_uci_set (codes "dhcp.@relay[-1].local_addr") dhcp4.relay_local_address d)
                (Runs-then _ _ _ _
                  (Runs-app_uci_set (codes "dhcp.@relay[-1].server_addr") dhcp4.relay_server_address
                    e)
                  (Runs-pure tt)))))
          w)
  | inr off ↦ rw off (Runs-pure tt w)
]

-- the setting with the first address as it is left
abbrev pub cut_at : Dhcp4 → Text → Dhcp4
cut_at dhcp4 ip = record dhcp4 { start_ip = some (strtok_left 0x2e ip) }

module _ (atoi : Text → ℤ) (decimal : ℤ → Text) (resumed : List Text) where
  -- the first address and the number behind the last one, where the address has four parts
  abbrev pub range_list : List Text → ℤ → List Text
  range_list (a ∷ b ∷ c ∷ start_ip ∷ []) pools =
      uci_set_command (codes "dhcp.lan.start") (some start_ip)
      ∷ uci_set_command (codes "dhcp.lan.limit") (some (decimal (int_add (atoi start_ip) pools)))
      ∷ []
  range_list _ pools = []

  set_short : (args s : Text) → Fits (uci_set_command args (some s)) → length s < 200
  unfolding uci_set_command
  set_short args s fit = omega (arith, length-append {0} (codes "uci set " ++ args ++ codes "=") s)

  Runs-set_range :
      (parts : List Text) (pools : ℤ)
      → All Fits (range_list parts pools)
      → Runs (set_range atoi decimal resumed parts pools) (range_list parts pools)
  unfolding set_range
  Runs-set_range (a ∷ b ∷ c ∷ start_ip ∷ []) pools (first, (last, _)) =
      let limit_ip = decimal (int_add (atoi start_ip) pools) in
      Runs-sprintf limit_ip _ _ (set_short (codes "dhcp.lan.limit") limit_ip last) (
        Runs-then _ _ _ _ (Runs-app_uci_set (codes "dhcp.lan.start") (some start_ip) first) (
          Runs-then _ _ _ _ (Runs-app_uci_set (codes "dhcp.lan.limit") (some limit_ip) last)
            (Runs-pure tt)))
  Runs-set_range _ pools h = Runs-pure tt

  -- the commands of dhcp4_set, where `n` deletions come before the last
  abbrev pub dhcp4_list : ℕ → Dhcp4 → Text → List Text
  dhcp4_list n dhcp4 ip =
      relay_list dhcp4
      ++ (repeat (suc n)
          ++ (hosts_list dhcp4.static_dhcp4_clients ++ range_list (split ip 0x2e) dhcp4.pools))

  -- Every command of the setting fits its buffer, and the first address is there.
  pub record Dhcp4Fits (dhcp4 : Dhcp4) (ip : Text) : Type 0 where
    pub address : dhcp4.start_ip ≡ some ip
    pub relay : All Fits (relay_list dhcp4)
    pub clients : All Fits (hosts_list dhcp4.static_dhcp4_clients)
    pub range : All Fits (range_list (split ip 0x2e) dhcp4.pools)

  pub dhcp4_set_lem :
      (delays : ℕ → ℕ) (n fuel : ℕ) (dhcp4 : Dhcp4) (ip : Text) (w : World)
      → n < fuel
      → Dhcp4Fits dhcp4 ip
      → HasHosts delays n (ran (relay_list dhcp4) w)
      → dhcp4_set atoi decimal resumed fuel (some dhcp4) w
        ≡ done (success, cut_at dhcp4 ip) (ran (dhcp4_list (at_once delays n) dhcp4 ip) w)
  unfolding dhcp4_set set_pool
  dhcp4_set_lem delays n fuel dhcp4 ip w enough fits hosts =
      let w1 = ran (relay_list dhcp4) w in
      let w2 = ran (repeat (suc (at_once delays n))) w1 in
      let w3 = ran (hosts_list dhcp4.static_dhcp4_clients) w2 in
      let range = range_list (split ip 0x2e) dhcp4.pools in
      let clients = hosts_list dhcp4.static_dhcp4_clients in
      let relay_done = (Runs-set_relay dhcp4 fits.relay w).1 in
      let clients_done = (Runs-add_hosts dhcp4.static_dhcp4_clients fits.clients w2).1 in
      let range_done = (Runs-set_range (split ip 0x2e) dhcp4.pools fits.range w3).1 in
      let address = fits.address in
      rw (relay_done, ends delays n fuel w1 enough hosts, clients_done, address, range_done)
        (ap (done (success, cut_at dhcp4 ip)) (
          ran-ran clients range w2
          ∙ ran-ran (repeat (suc (at_once delays n))) (clients ++ range) w1
          ∙ ran-ran (relay_list dhcp4) (repeat (suc (at_once delays n)) ++ (clients ++ range)) w))
