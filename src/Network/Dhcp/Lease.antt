-- ===== src/Network/Dhcp/Lease.antt =====
-- dhcp_lease_get of dhcp.c: the clients that /tmp/dhcp.leases names.
pub mod Answer
use noc_demo.Common.{
  ℕ, zero, suc, ◌+◌, ◌-◌, ◌≡◌, refl, ◌∙◌, ap, sym, if◌then◌else◌, true, false, Option, none, some,
  List, [], ◌∷◌, ◌++◌, map, length, take, length-append, length-map, append_assoc, All, arith,
}
use noc_demo.Common.Int.{ℤ, pos}
use noc_demo.Common.Texts.{Text, codes, text_eq}
use noc_demo.ErrorCode.{ErrorCode, success}
use noc_demo.Network.Dhcp.Codec.{DhcpInfo}
use noc_demo.Utils.File.{read_data, read_line}
use noc_demo.Utils.File.Lock.{read_data_found}
use noc_demo.Utils.Split.{split, join, IsPiece, split-join}
use noc_demo.World.{World, done, Cmd, pure, ◌>>=◌}

abbrev pub lease_file : Text
lease_file = codes "/tmp/dhcp.leases"

-- an entry that `calloc` made and no line has filled
abbrev pub blank : DhcpInfo
blank = record { timestamp = pos 0; mac = none; ip = none; host_name = none }

unfoldable pub blanks : ℕ → List DhcpInfo
blanks zero = []
blanks (suc n) = blank ∷ blanks n

module _ (atoi : Text → ℤ) where
  abbrev pub info_of : Text → Text → Text → Text → DhcpInfo
  info_of stamp mac ip host = record {
    timestamp = atoi stamp;
    mac = some mac;
    ip = some ip;
    host_name = some host;
  }

  -- `nb_fields >= 4 && strcmp(fields[0], "duid")`
  unfoldable pub add_lease : List Text → List DhcpInfo → List DhcpInfo
  add_lease (stamp ∷ mac ∷ ip ∷ host ∷ more) rest =
      if text_eq stamp (codes "duid") then rest else info_of stamp mac ip host ∷ rest
  add_lease fields rest = rest

  unfoldable pub leases : List Text → List DhcpInfo
  leases [] = []
  leases (line ∷ lines) = add_lease (split line 0x20) (leases lines)

  -- an array with an entry for each line, and the number of its entries but one
  unfoldable pub clients : Option (List Text) → List DhcpInfo
  clients none = []
  clients (some lines) =
      let found = leases lines in
      take (length lines - 1) (found ++ blanks (length lines - length found))

  unfoldable pub dhcp_lease_get : Cmd (ErrorCode × List DhcpInfo)
  dhcp_lease_get = do lines ← read_line lease_file; pure (success, clients lines)
