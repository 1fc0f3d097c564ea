-- ===== src/Network/Dhcp/Reload/Parts.antt =====
-- The parts of a stored setting of the names and addresses when they are read back.
use noc_demo.Common.{
  ◌≡◌, refl, ◌∙◌, ap, ap₂, sym, or_else, or_else-none, Bool, false, Option, none, some, List, [],
  ◌∷◌, map, All,
}
use noc_demo.Common.Int.{IsInt}
use noc_demo.Common.Texts.{Text, codes}
use noc_demo.CJson.Base.{CJson}
use noc_demo.CJson.Array.{
  array_of, read_array, read_items, read_array-array_of, read_array-map, read_array-map_if,
  create_string_array_lem,
}
use noc_demo.CJson.Object.{
  object_of, read_string-member, read_int-member, string_or_null, string_or_null-create_string,
  get_item, get_item-object_of, bool_item, is_number-bool_item, find_member,
}
use noc_demo.Network.Dhcp.Codec.{
  DhcpInfo, CustomHostname, Dns, Dhcp4, all_texts, dhcp_info_members, cvt_dhcp_info_to_json,
  cvt_json_to_dhcp_info, custom_hostname_members, cvt_custom_hostname_to_json,
  cvt_json_to_custom_hostname, strings_item, dns_members, strings_of, number_or_none, dns_with,
  hostnames, non_empty_list, cvt_json_to_dns, dhcp4_members, cvt_dhcp4_to_json, nonzero_number,
  cvt_json_to_dhcp4,
}

abbrev pub InfoFits : DhcpInfo → Type 0
InfoFits info = IsInt info.timestamp

-- Every server is there, no number replaces a pointer, and the numbers are machine integers.
pub record Storable (dns : Dns) (additional forwarding : List Text) (dhcp4 : Dhcp4) : Type 0 where
  pub additional_texts : dns.additional_dns ≡ map (λ s. some s) additional
  pub forwarding_texts : dns.forwarding_dns ≡ map (λ s. some s) forwarding
  pub pointer : dns.address ≡ none
  pub pools : IsInt dhcp4.pools
  pub clients : All InfoFits dhcp4.static_dhcp4_clients

-- the names as they are read back: NULL where there is no name of a host, and never forwarding
abbrev pub reloaded_dns : Dns → List CustomHostname → Option Dns
reloaded_dns dns [] = none
reloaded_dns dns (h ∷ hosts) =
    some (record dns { custom_hostname = h ∷ hosts; forwarding_dns_enabled = false })

abbrev pub reloaded_dhcp4 : Dhcp4 → Dhcp4
reloaded_dhcp4 dhcp4 = record dhcp4 { relay_enabled = false }

all_texts-map : (ts : List Text) → all_texts (map (λ s. some s) ts) ≡ some ts
unfolding all_texts
all_texts-map [] = refl
all_texts-map (t ∷ ts) = rw (all_texts-map ts) refl

module _ ⦃cj : CJson⦄ where
  open cj use {Json, create_string, create_string_array}

  info_back :
      (info : DhcpInfo)
      → InfoFits info
      → cvt_json_to_dhcp_info (some (cvt_dhcp_info_to_json info)) ≡ info
  unfolding cvt_json_to_dhcp_info cvt_dhcp_info_to_json
  info_back info fits =
      let ms = dhcp_info_members info in
      λ i. record {
        timestamp = read_int-member ms (codes "timestamp") info.timestamp fits refl i;
        mac = read_string-member ms (codes "mac") info.mac refl i;
        ip = read_string-member ms (codes "ip") info.ip refl i;
        host_name = read_string-member ms (codes "host_name") info.host_name refl i;
      }

  hostname_back :
      (host : CustomHostname)
      → cvt_json_to_custom_hostname (some (cvt_custom_hostname_to_json host)) ≡ host
  unfolding cvt_json_to_custom_hostname cvt_custom_hostname_to_json
  hostname_back host =
      let ms = custom_hostname_members host in
      λ i. record {
        name = read_string-member ms (codes "name") host.name refl i;
        domain = read_string-member ms (codes "domain") host.domain refl i;
        ip = read_string-member ms (codes "ip") host.ip refl i;
      }

  texts_back :
      (ts : List Text)
      → map (λ j. string_or_null (some j)) (map create_string ts) ≡ map (λ s. some s) ts
  texts_back [] = refl
  texts_back (t ∷ ts) = ap₂ ◌∷◌ (string_or_null-create_string t) (texts_back ts)

  array_back : (ts : List Text) → strings_of (some (create_string_array ts)) ≡ map (λ s. some s) ts
  array_back ts =
      ap (λ a. strings_of (some a)) (create_string_array_lem ts)
      ∙ read_array-array_of string_or_null (map create_string ts)
      ∙ texts_back ts

  strings_back :
      (ts : List Text) → strings_of (strings_item (map (λ s. some s) ts)) ≡ map (λ s. some s) ts
  unfolding strings_item read_array read_items
  strings_back [] = refl
  strings_back (t ∷ ts) = rw (all_texts-map (t ∷ ts)) (array_back (t ∷ ts))

  -- Hosts that are there.
  abbrev named : List CustomHostname → Option (List CustomHostname)
  named [] = none
  named (h ∷ hosts) = some (h ∷ hosts)

  hostnames_back :
      (hosts : List CustomHostname)
      → hostnames (some (array_of (map cvt_custom_hostname_to_json hosts))) ≡ named hosts
  unfolding hostnames non_empty_list
  hostnames_back hosts =
      rw
        (read_array-map cvt_json_to_custom_hostname cvt_custom_hostname_to_json hosts hostname_back)
        (same hosts)
    where
      same : (hs : List CustomHostname) → non_empty_list hs ≡ named hs
      same [] = refl
      same (h ∷ hs) = refl

  abbrev pub dns_json : Dns → Json
  dns_json dns = object_of (dns_members dns (strings_item dns.forwarding_dns))

  -- a member as it is found
  member :
      (dns : Dns) (k : Text)
      → get_item (some (dns_json dns)) k
        ≡ find_member k (dns_members dns (strings_item dns.forwarding_dns))
  member dns k = get_item-object_of (dns_members dns (strings_item dns.forwarding_dns)) k

  texts_member :
      (ss : List (Option Text)) (ts : List Text)
      → ss ≡ map (λ s. some s) ts
      → strings_of (or_else (strings_item ss) none) ≡ ss
  texts_member ss ts e =
      ap strings_of (or_else-none (strings_item ss))
      ∙ ap (λ x. strings_of (strings_item x)) e
      ∙ strings_back ts
      ∙ sym e

  no_address : (b : Bool) → number_or_none (bool_item b) ≡ none
  unfolding number_or_none
  no_address b = rw (is_number-bool_item b)

  pub dns_back :
      (dns : Dns) (ss ts : List Text) (hosts : List CustomHostname)
      → dns.custom_hostname ≡ hosts
      → dns.additional_dns ≡ map (λ s. some s) ss
      → dns.forwarding_dns ≡ map (λ s. some s) ts
      → dns.address ≡ none
      → cvt_json_to_dns (some (dns_json dns)) ≡ reloaded_dns dns hosts
  unfolding cvt_json_to_dns dns_with
  dns_back dns ss ts hosts h a f p =
      ap (dns_with (some (dns_json dns))) (
        ap hostnames (member dns (codes "custom_hostname"))
        ∙ hostnames_back dns.custom_hostname
        ∙ ap named h)
      ∙ with_hosts hosts
    where
      with_hosts :
          (hs : List CustomHostname)
          → dns_with (some (dns_json dns)) (named hs) ≡ reloaded_dns dns hs
      with_hosts [] = refl
      with_hosts (x ∷ hs) = λ i. some (record {
        custom_hostname = x ∷ hs;
        additional_dns =
            (ap strings_of (member dns (codes "additional_dns"))
                ∙ texts_member dns.additional_dns ss a)
              i;
        forwarding_dns =
            (ap strings_of (member dns (codes "forwarding_dns"))
                ∙ texts_member dns.forwarding_dns ts f)
              i;
        address =
            (ap number_or_none (member dns (codes "forwarding_dns_enabled"))
                ∙ no_address dns.forwarding_dns_enabled
                ∙ sym p)
              i;
        forwarding_dns_enabled = false;
      })

  relay_back : (b : Bool) → nonzero_number (bool_item b) ≡ false
  unfolding nonzero_number
  relay_back b = rw (is_number-bool_item b)

  pub dhcp4_back :
      (dhcp4 : Dhcp4)
      → IsInt dhcp4.pools
      → All InfoFits dhcp4.static_dhcp4_clients
      → cvt_json_to_dhcp4 (some (cvt_dhcp4_to_json dhcp4)) ≡ reloaded_dhcp4 dhcp4
  unfolding cvt_json_to_dhcp4 cvt_dhcp4_to_json
  dhcp4_back dhcp4 pools clients =
      let ms = dhcp4_members dhcp4 in
      let server = codes "relay_server_address" in
      let local_address = codes "relay_local_address" in
      λ i. record {
        start_ip = read_string-member ms (codes "start_ip") dhcp4.start_ip refl i;
        pools = read_int-member ms (codes "pools") dhcp4.pools pools refl i;
        relay_enabled =
            (ap nonzero_number (get_item-object_of ms (codes "relay_enabled"))
                ∙ relay_back dhcp4.relay_enabled)
              i;
        relay_server_address = read_string-member ms server dhcp4.relay_server_address refl i;
        relay_local_address = read_string-member ms local_address dhcp4.relay_local_address refl i;
        static_dhcp4_clients =
            (ap (read_array cvt_json_to_dhcp_info)
                  (get_item-object_of ms (codes "static_dhcp4_clients"))
                ∙ read_array-map_if cvt_json_to_dhcp_info cvt_dhcp_info_to_json
                    dhcp4.static_dhcp4_clients info_back clients)
              i;
      }
