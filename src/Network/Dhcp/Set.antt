-- ===== src/Network/Dhcp/Set.antt =====
-- The commands that bring the names, the addresses and the servers to the router.
use noc_demo.Common.{
  ◌<◌, ◌≡◌, refl, ◌≤◌, Bool-cases, inl, inr, if◌then◌else◌, Option, none, some, List, [], ◌∷◌, ◌++◌,
  map, length, length-append, All, arith,
}
use noc_demo.Common.Texts.{Text, codes}
use noc_demo.Network.Dhcp.Codec.{CustomHostname, Dns}
use noc_demo.Network.Dhcp.Apply.{
  address_of, add_hostnames, cat_servers, set_additional, add_servers, servers_at, set_forwarding,
  dns_commands, set_dns,
}
use noc_demo.Utils.Uci.Runs.{
  Fits, Runs, Runs-then, Runs-pure, Runs-app_uci_delete, Runs-app_uci_add_list, Runs-sprintf,
  delete_command, add_list_command,
}
use noc_demo.World.{arg, done, World, sprintf_fits}

abbrev pub hostname_command : CustomHostname → Text
hostname_command host = add_list_command (codes "dhcp.@dnsmasq[0].address") (address_of host)

abbrev pub hostname_commands : List CustomHostname → List Text
hostname_commands [] = []
hostname_commands (h ∷ hosts) = (hostname_command h ∷ []) ++ hostname_commands hosts

-- "6,a,b" for the servers a and b
abbrev pub with_servers : Text → List Text → Text
with_servers cmd [] = cmd
with_servers cmd (s ∷ servers) = with_servers (cmd ++ (codes "," ++ s)) servers

abbrev pub additional_commands : List Text → List Text
additional_commands [] = []
additional_commands (s ∷ servers) =
    add_list_command (codes "dhcp.lan.dhcp_option") (with_servers (codes "6") (s ∷ servers)) ∷ []

abbrev pub server_commands : List (Option Text) → List Text
server_commands [] = []
server_commands (s ∷ servers) =
    (add_list_command (codes "dhcp.@dnsmasq[0].server") (arg s) ∷ []) ++ server_commands servers

add_list_short : (args s : Text) → Fits (add_list_command args s) → length s < 200
add_list_short args s fit =
    omega (arith, length-append {0} (codes "uci add_list " ++ args ++ codes "=") s)

Runs-add_hostnames :
    (hosts : List CustomHostname)
    → All Fits (hostname_commands hosts)
    → Runs (add_hostnames hosts) (hostname_commands hosts)
unfolding add_hostnames
Runs-add_hostnames [] h = Runs-pure tt
Runs-add_hostnames (host ∷ hosts) (fit, fits) =
    Runs-sprintf (address_of host) _ (hostname_commands (host ∷ hosts))
      (add_list_short (codes "dhcp.@dnsmasq[0].address") (address_of host) fit)
      (Runs-then _ _ _ _
        (Runs-app_uci_add_list (codes "dhcp.@dnsmasq[0].address") (some (address_of host)) fit)
        (Runs-add_hostnames hosts fits))

Runs-add_servers :
    (servers : List (Option Text))
    → All Fits (server_commands servers)
    → Runs (add_servers servers) (server_commands servers)
unfolding add_servers
Runs-add_servers [] h = Runs-pure tt
Runs-add_servers (s ∷ servers) (fit, fits) =
    Runs-then _ _ _ _ (Runs-app_uci_add_list (codes "dhcp.@dnsmasq[0].server") s fit)
      (Runs-add_servers servers fits)

le-with_servers :
    (cmd : Text) (servers : List Text) → length cmd ≤ length (with_servers cmd servers)
le-with_servers cmd [] = omega arith
le-with_servers cmd (s ∷ servers) = omega (
  arith,
  le-with_servers (cmd ++ (codes "," ++ s)) servers,
  length-append {0} cmd (codes "," ++ s),
)

Runs-cat_servers :
    (cmd : Text) (servers : List Text) (w : World)
    → length (with_servers cmd servers) < 200
    → cat_servers cmd (map (λ s. some s) servers) w ≡ done (with_servers cmd servers) w
unfolding cat_servers
Runs-cat_servers cmd [] w fit = refl
Runs-cat_servers cmd (s ∷ servers) w fit =
    let longer = cmd ++ (codes "," ++ s) in
    rw (sprintf_fits 200 longer w (omega (arith, le-with_servers longer servers)))
      (Runs-cat_servers longer servers w fit)

Runs-set_additional :
    (servers : List Text)
    → All Fits (additional_commands servers)
    → Runs (set_additional (map (λ s. some s) servers)) (additional_commands servers)
unfolding set_additional
Runs-set_additional [] h w = Runs-pure tt w
Runs-set_additional (s ∷ servers) (fit, _) w =
    let text = with_servers (codes "6") (s ∷ servers) in
    rw
      (Runs-cat_servers (codes "6") (s ∷ servers) w
        (add_list_short (codes "dhcp.lan.dhcp_option") text fit))
      (Runs-then _ _ _ _ (Runs-app_uci_add_list (codes "dhcp.lan.dhcp_option") (some text) fit)
        (Runs-pure tt) w)

abbrev pub forwarding_commands : Dns → List Text
forwarding_commands dns =
    if dns.forwarding_dns_enabled then server_commands dns.forwarding_dns else []

servers_at_pointer : (ss : List (Option Text)) (w : World) → servers_at ss none w ≡ done ss w
unfolding servers_at
servers_at_pointer [] w = refl
servers_at_pointer (s ∷ ss) w = refl

Runs-set_forwarding :
    (dns : Dns)
    → dns.address ≡ none
    → All Fits (forwarding_commands dns)
    → Runs (set_forwarding dns) (forwarding_commands dns)
unfolding set_forwarding
Runs-set_forwarding dns pointer fits w = elim (Bool-cases dns.forwarding_dns_enabled) [
  | inl on ↦
      rw (on, pointer, servers_at_pointer dns.forwarding_dns w)
        (Runs-add_servers dns.forwarding_dns (rw on at fits) w)
  | inr off ↦ rw off (Runs-pure tt w)
]

abbrev delete_addresses : Text
delete_addresses = delete_command (codes "dhcp.@dnsmasq[0].address")

abbrev delete_options : Text
delete_options = delete_command (codes "dhcp.lan.dhcp_option")

abbrev delete_servers : Text
delete_servers = delete_command (codes "dhcp.@dnsmasq[0].server")

-- the commands of dns_set, for the texts of the additional servers
abbrev pub dns_list : Dns → List Text → List Text
dns_list dns servers =
    (delete_addresses ∷ [])
    ++ (hostname_commands dns.custom_hostname
        ++ ((delete_options ∷ [])
            ++ (additional_commands servers ++ ((delete_servers ∷ []) ++ forwarding_commands dns))))

-- Every command of the setting fits its buffer, no additional server is NULL, and the pointer of
-- the forwarding servers is one.
pub record DnsFits (dns : Dns) (servers : List Text) : Type 0 where
  pub texts : dns.additional_dns ≡ map (λ s. some s) servers
  pub pointer : dns.address ≡ none
  pub hosts : All Fits (hostname_commands dns.custom_hostname)
  pub options : All Fits (additional_commands servers)
  pub forwarding : All Fits (forwarding_commands dns)

pub Runs-set_dns :
    (dns : Dns) (servers : List Text)
    → DnsFits dns servers
    → Runs (set_dns (some dns)) (dns_list dns servers)
unfolding set_dns dns_commands set_forwarding
Runs-set_dns dns servers fits = rw fits.texts (
    Runs-then _ _ _ _ (Runs-app_uci_delete (codes "dhcp.@dnsmasq[0].address") (omega arith)) (
      Runs-then _ _ _ _ (Runs-add_hostnames dns.custom_hostname fits.hosts) (
        Runs-then _ _ _ _ (Runs-app_uci_delete (codes "dhcp.lan.dhcp_option") (omega arith)) (
          Runs-then _ _ _ _ (Runs-set_additional servers fits.options) (
            Runs-then _ _ _ _ (Runs-app_uci_delete (codes "dhcp.@dnsmasq[0].server") (omega arith))
              (Runs-set_forwarding dns fits.pointer fits.forwarding))))))
