-- ===== src/Network/Dhcp/Codec.antt =====
-- The settings of dhcp.h and their JSON.
use noc_demo.Common.{if◌then◌else◌, not, Bool, false, Option, none, some, List, [], ◌∷◌, map}
use noc_demo.Common.Int.{ℤ, pos, int_eq}
use noc_demo.Common.Texts.{Text, codes}
use noc_demo.CJson.Base.{CJson}
use noc_demo.CJson.Array.{array_of, read_array}
use noc_demo.CJson.Nested.{pointer_item}
use noc_demo.CJson.Object.{
  Members, object_of, string_item, number_item, bool_item, read_string, read_int, get_item,
  string_or_null, is_number, int_or_zero,
}
use noc_demo.World.{Cmd, pure, stop, ◌>>=◌, wild_read}

pub record DhcpInfo : Type 0 where
  pub timestamp : ℤ
  pub mac : Option Text
  pub ip : Option Text
  pub host_name : Option Text

pub record CustomHostname : Type 0 where
  pub name : Option Text
  pub domain : Option Text
  pub ip : Option Text

-- The counts are the lengths of the lists. `address` is a number that was stored in the pointer
-- `forwarding_dns`.
pub record Dns : Type 0 where
  pub custom_hostname : List CustomHostname
  pub additional_dns : List (Option Text)
  pub forwarding_dns : List (Option Text)
  pub address : Option ℤ
  pub forwarding_dns_enabled : Bool

pub record Dhcp4 : Type 0 where
  pub start_ip : Option Text
  pub pools : ℤ
  pub relay_enabled : Bool
  pub relay_server_address : Option Text
  pub relay_local_address : Option Text
  pub static_dhcp4_clients : List DhcpInfo

pub record DnsDhcp : Type 0 where
  pub dns : Option Dns
  pub dhcp4 : Option Dhcp4

-- the strings, unless one is NULL
abbrev with_text : Option Text → Option (List Text) → Option (List Text)
with_text (some s) (some ss) = some (s ∷ ss)
with_text _ _ = none

unfoldable pub all_texts : List (Option Text) → Option (List Text)
all_texts [] = some []
all_texts (s ∷ ss) = with_text s (all_texts ss)

module _ ⦃cj : CJson⦄ where
  open cj use {Json, create_string_array}

  abbrev pub dhcp_info_members : DhcpInfo → Members
  dhcp_info_members info =
      (codes "timestamp", number_item info.timestamp)
      ∷ (codes "mac", string_item info.mac)
      ∷ (codes "ip", string_item info.ip)
      ∷ (codes "host_name", string_item info.host_name)
      ∷ []

  unfoldable pub cvt_dhcp_info_to_json : DhcpInfo → Json
  cvt_dhcp_info_to_json info = object_of (dhcp_info_members info)

  unfoldable pub cvt_json_to_dhcp_info : Option Json → DhcpInfo
  cvt_json_to_dhcp_info json = record {
    timestamp = read_int json (codes "timestamp");
    mac = read_string json (codes "mac");
    ip = read_string json (codes "ip");
    host_name = read_string json (codes "host_name");
  }

  abbrev pub custom_hostname_members : CustomHostname → Members
  custom_hostname_members host =
      (codes "name", string_item host.name)
      ∷ (codes "domain", string_item host.domain)
      ∷ (codes "ip", string_item host.ip)
      ∷ []

  unfoldable pub cvt_custom_hostname_to_json : CustomHostname → Json
  cvt_custom_hostname_to_json host = object_of (custom_hostname_members host)

  unfoldable pub cvt_json_to_custom_hostname : Option Json → CustomHostname
  cvt_json_to_custom_hostname json = record {
    name = read_string json (codes "name");
    domain = read_string json (codes "domain");
    ip = read_string json (codes "ip");
  }

  texts_item : Option (List Text) → Option Json
  texts_item none = none
  texts_item (some ss) = some (create_string_array ss)

  -- cJSON_CreateStringArray answers NULL for a NULL pointer, which stands for no string, and
  -- where one of the strings is NULL.
  unfoldable pub strings_item : List (Option Text) → Option Json
  unfolding texts_item
  strings_item [] = none
  strings_item (s ∷ ss) = texts_item (all_texts (s ∷ ss))

  -- the strings at the pointer, which a number may have replaced
  unfoldable pub forwarding_item : List (Option Text) → Option ℤ → Cmd (Option Json)
  forwarding_item ss none = pure (strings_item ss)
  forwarding_item [] (some n) =
      pure (if int_eq n (pos 0) then none else some (create_string_array []))
  forwarding_item (s ∷ ss) (some n) = if int_eq n (pos 0) then pure none else stop wild_read

  abbrev pub dns_members : Dns → Option Json → Members
  dns_members dns forwarding =
      (
        codes "custom_hostname",
        some (array_of (map cvt_custom_hostname_to_json dns.custom_hostname)),
      )
      ∷ (codes "additional_dns", strings_item dns.additional_dns)
      ∷ (codes "forwarding_dns", forwarding)
      ∷ (codes "forwarding_dns_enabled", bool_item dns.forwarding_dns_enabled)
      ∷ []

  unfoldable pub cvt_dns_to_json : Dns → Cmd Json
  cvt_dns_to_json dns = do
    forwarding ← forwarding_item dns.forwarding_dns dns.address
    pure (object_of (dns_members dns forwarding))

  unfoldable pub non_empty_list : List CustomHostname → Option (List CustomHostname)
  non_empty_list [] = none
  non_empty_list (h ∷ hs) = some (h ∷ hs)

  -- An array that is there must not be empty.
  unfoldable pub hostnames : Option Json → Option (List CustomHostname)
  unfolding non_empty_list
  hostnames none = some []
  hostnames (some json) = non_empty_list (read_array cvt_json_to_custom_hostname (some json))

  abbrev pub strings_of : Option Json → List (Option Text)
  strings_of item = read_array string_or_null item

  -- `if (item && cJSON_IsNumber(item)) dns->forwarding_dns = item->valueint`
  unfoldable pub number_or_none : Option Json → Option ℤ
  number_or_none item = if is_number item then some (int_or_zero item) else none

  unfoldable pub dns_with : Option Json → Option (List CustomHostname) → Option Dns
  dns_with json none = none
  dns_with json (some hosts) = some (record {
    custom_hostname = hosts;
    additional_dns = strings_of (get_item json (codes "additional_dns"));
    forwarding_dns = strings_of (get_item json (codes "forwarding_dns"));
    address = number_or_none (get_item json (codes "forwarding_dns_enabled"));
    forwarding_dns_enabled = false;
  })

  unfoldable pub cvt_json_to_dns : Option Json → Option Dns
  cvt_json_to_dns json = dns_with json (hostnames (get_item json (codes "custom_hostname")))

  abbrev pub dhcp4_members : Dhcp4 → Members
  dhcp4_members dhcp4 =
      (codes "start_ip", string_item dhcp4.start_ip)
      ∷ (codes "pools", number_item dhcp4.pools)
      ∷ (codes "relay_enabled", bool_item dhcp4.relay_enabled)
      ∷ (codes "relay_server_address", string_item dhcp4.relay_server_address)
      ∷ (codes "relay_local_address", string_item dhcp4.relay_local_address)
      ∷ (
        codes "static_dhcp4_clients",
        some (array_of (map cvt_dhcp_info_to_json dhcp4.static_dhcp4_clients)),
      )
      ∷ []

  unfoldable pub cvt_dhcp4_to_json : Dhcp4 → Json
  cvt_dhcp4_to_json dhcp4 = object_of (dhcp4_members dhcp4)

  -- `if (item && cJSON_IsNumber(item)) dhcp4->relay_enabled = item->valueint`
  unfoldable pub nonzero_number : Option Json → Bool
  nonzero_number item = if is_number item then not (int_eq (int_or_zero item) (pos 0)) else false

  unfoldable pub cvt_json_to_dhcp4 : Option Json → Dhcp4
  cvt_json_to_dhcp4 json = record {
    start_ip = read_string json (codes "start_ip");
    pools = read_int json (codes "pools");
    relay_enabled = nonzero_number (get_item json (codes "relay_enabled"));
    relay_server_address = read_string json (codes "relay_server_address");
    relay_local_address = read_string json (codes "relay_local_address");
    static_dhcp4_clients =
        read_array cvt_json_to_dhcp_info (get_item json (codes "static_dhcp4_clients"));
  }

  -- a conversion of a pointer, with NULL for NULL
  unfoldable pub dns_item : Option Dns → Cmd (Option Json)
  dns_item none = pure none
  dns_item (some dns) = do json ← cvt_dns_to_json dns; pure (some json)

  abbrev pub dns_dhcp_members : Option Json → Option Dhcp4 → Members
  dns_dhcp_members dns dhcp4 =
      (codes "dns", dns) ∷ (codes "dhcp4", pointer_item cvt_dhcp4_to_json dhcp4) ∷ []

  unfoldable pub cvt_dns_dhcp_to_json : DnsDhcp → Cmd Json
  cvt_dns_dhcp_to_json setting = do
    dns ← dns_item setting.dns
    pure (object_of (dns_dhcp_members dns setting.dhcp4))

  unfoldable pub dns_or_null : Option Json → Option Dns
  dns_or_null none = none
  dns_or_null (some json) = cvt_json_to_dns (some json)

  unfoldable pub dhcp4_or_null : Option Json → Option Dhcp4
  dhcp4_or_null none = none
  dhcp4_or_null (some json) = some (cvt_json_to_dhcp4 (some json))

  unfoldable pub cvt_json_to_dns_dhcp : Option Json → DnsDhcp
  cvt_json_to_dns_dhcp json = record {
    dns = dns_or_null (get_item json (codes "dns"));
    dhcp4 = dhcp4_or_null (get_item json (codes "dhcp4"));
  }

  unfoldable pub cvt_dhcp4_lease_to_json : List DhcpInfo → Json
  cvt_dhcp4_lease_to_json leases = array_of (map cvt_dhcp_info_to_json leases)

  unfoldable pub cvt_json_to_dhcp4_lease : Option Json → List DhcpInfo
  cvt_json_to_dhcp4_lease json = read_array cvt_json_to_dhcp_info json
