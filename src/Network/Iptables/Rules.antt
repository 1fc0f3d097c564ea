-- ===== src/Network/Iptables/Rules.antt =====
-- src/core/network/iptables/iptables_basic.c and iptables_common.c: the fixed rules, and the rules
-- that open ports.
use noc_demo.Common.{if◌then◌else◌, ◌||◌, not, is_some, Option, none, some, List, [], ◌∷◌, ◌++◌}
use noc_demo.Common.Texts.{Text, codes}
use noc_demo.ErrorCode.{ErrorCode, success}
use noc_demo.Network.Iptables.Defs.{Iptable}
use noc_demo.Utils.Shell.{execl_non_timeout}
use noc_demo.World.{Cmd, pure, stop, null_read, ◌>>=◌, ◌>>◌, sprintf, arg}

abbrev pub wan_interface : Text
wan_interface = codes "eth0"

unfoldable pub iptables_default_setting_list : List Text
iptables_default_setting_list =
    codes "iptables -F"
    ∷ codes "iptables -X"
    ∷ codes "iptables -t nat -F"
    ∷ codes "iptables -t nat -X"
    ∷ codes "iptables -t mangle -F"
    ∷ codes "iptables -t mangle -X"
    ∷ codes "iptables -P FORWARD ACCEPT"
    ∷ codes "iptables -P OUTPUT ACCEPT"
    ∷ codes "iptables -P INPUT ACCEPT"
    ∷ codes "iptables -A INPUT -i lo -j ACCEPT"
    ∷ codes "iptables -A OUTPUT -o lo -j ACCEPT"
    ∷ (codes "iptables -A OUTPUT -o  " ++ wan_interface ++ codes "  -p tcp --dport 67 -j DROP ")
    ∷ (codes "iptables -A OUTPUT -o  " ++ wan_interface ++ codes "  -p udp --dport 67 -j DROP ")
    ∷ codes "iptables -A INPUT -p udp  --dport 67 -j ACCEPT"
    ∷ codes "iptables -A INPUT -p udp  --dport 53 -j ACCEPT"
    ∷ codes "iptables -A INPUT -p udp  --dport 5353 -j ACCEPT"
    ∷ codes "iptables -A INPUT -p tcp  --dport 53 -j ACCEPT"
    ∷ codes "iptables -A INPUT -m conntrack --ctstate ESTABLISHED,RELATED -j ACCEPT"
    ∷ codes "iptables -A OUTPUT -m conntrack --ctstate ESTABLISHED -j ACCEPT"
    ∷ codes "iptables -t nat -A POSTROUTING -j MASQUERADE"
    ∷ codes "iptables -I INPUT 2 -p icmp --icmp-type echo-request -j ACCEPT"
    ∷ codes "iptables -A INPUT -p icmp -j ACCEPT"
    ∷ []

unfoldable pub iptables_allow_all_traffic_list : List Text
iptables_allow_all_traffic_list =
    codes "iptables -F"
    ∷ codes "iptables -X"
    ∷ codes "iptables -t nat -F"
    ∷ codes "iptables -t nat -X"
    ∷ codes "iptables -t mangle -F"
    ∷ codes "iptables -t mangle -X"
    ∷ codes "iptables -P INPUT ACCEPT"
    ∷ codes "iptables -P FORWARD ACCEPT"
    ∷ codes "iptables -P OUTPUT ACCEPT"
    ∷ []

unfoldable pub iptable_restrict_basic : List Text
iptable_restrict_basic = codes "iptables -P INPUT DROP" ∷ []

-- the loop `for (i = 0; i < nb; i++) execl_non_timeout(list[i])`
unfoldable pub execl_each : List Text → Cmd ErrorCode
execl_each [] = pure success
execl_each (cmd ∷ cmds) = execl_non_timeout cmd >> execl_each cmds

unfoldable pub iptables_default_setting : Cmd ErrorCode
iptables_default_setting = execl_each iptables_default_setting_list

unfoldable pub iptables_allow_all_traffic : Cmd ErrorCode
iptables_allow_all_traffic = execl_each iptables_allow_all_traffic_list

unfoldable pub iptables_restrict_basic : Cmd ErrorCode
iptables_restrict_basic = execl_each iptable_restrict_basic

-- `if (field && strcmp(field, "") != 0) { strcat(cmd, flag); strcat(cmd, field); }`
abbrev pub option_text : Text → Option Text → Text
option_text flag none = []
option_text flag (some []) = []
option_text flag (some (c ∷ s)) = flag ++ c ∷ s

unfoldable pub open_command : Iptable → Text
open_command p =
    codes "iptables -A INPUT -p "
    ++ arg p.protocol
    ++ codes " --dport "
    ++ arg p.port_range
    ++ option_text (codes " -s ") p.ip_mask
    ++ option_text (codes " -i ") p.interface
    ++ codes " -j ACCEPT"

run_open : Iptable → Cmd ErrorCode → Cmd ErrorCode
run_open p rest = do cmd ← sprintf 200 (open_command p); execl_non_timeout cmd; rest

-- An enabled profile without a protocol or a port range ends the loop.
unfoldable pub open_loop : List Iptable → Cmd ErrorCode
unfolding run_open
open_loop [] = pure success
open_loop (p ∷ ps) =
    let rest = open_loop ps in
    if p.enable
    then (if not (is_some p.protocol) || not (is_some p.port_range)
        then pure success
        else run_open p rest)
    else rest

-- A NULL list is dereferenced at once.
unfoldable pub iptables_open_port_profiles : Option (List Iptable) → Cmd ErrorCode
iptables_open_port_profiles none = stop null_read
iptables_open_port_profiles (some ps) = open_loop ps
