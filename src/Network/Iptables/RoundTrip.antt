-- ===== src/Network/Iptables/RoundTrip.antt =====
-- Port profiles and services are read back from the JSON that they are written as.
use noc_demo.Common.{
  ◌≡◌, refl, ◌∙◌, sym, ap, ap₂, false, Bool-cases, inl, inr, Option, none, some, List, [], ◌∷◌, map,
  All,
}
use noc_demo.Common.Texts.{Text, codes}
use noc_demo.CJson.Base.{CJson}
use noc_demo.CJson.Object.{
  object_of, read_string-member, read_bool, read_bool-member, bool_or_false, get_item-object_of,
  string_item,
}
use noc_demo.CJson.Array.{array_of, read_array-map, read_array-array_of}
use noc_demo.CJson.Nested.{read_list-member}
use noc_demo.Network.Iptables.Defs.{Iptable, IptableNovaService}
use noc_demo.Network.Iptables.Codec.{
  app_mem_empty, no_iptable, app_mem_empty_lem, iptable_members, cvt_iptable_to_json,
  cvt_json_to_iptable, cvt_iptable_list_to_json, cvt_json_to_iptable_list, service_members,
  cvt_iptable_nova_service_to_json, cvt_json_to_iptable_nova_service, services_json,
  cvt_iptable_nova_service_list_to_json, cvt_json_to_iptable_nova_service_list,
}

-- The service has a list of profiles.
abbrev pub HasProfiles : IptableNovaService → Type 0
HasProfiles s = (ps : List Iptable) × (s.port_profiles ≡ some ps)

module _ ⦃cj : CJson⦄ where
  open cj use {Json}

  members_back : (i : Iptable) → cvt_json_to_iptable (some (object_of (iptable_members i))) ≡ i
  unfolding cvt_json_to_iptable
  members_back x =
      let ms = iptable_members x in
      λ t. record {
        id = read_string-member ms (codes "id") x.id refl t;
        name = read_string-member ms (codes "name") x.name refl t;
        port_range = read_string-member ms (codes "port_range") x.port_range refl t;
        ip_mask = read_string-member ms (codes "ip_mask") x.ip_mask refl t;
        protocol = read_string-member ms (codes "protocol") x.protocol refl t;
        dnat_ip = read_string-member ms (codes "dnat_ip") x.dnat_ip refl t;
        dnat_port_range = read_string-member ms (codes "dnat_port_range") x.dnat_port_range refl t;
        interface = read_string-member ms (codes "interface") x.interface refl t;
        enable = read_bool-member ms (codes "enable") x.enable refl t;
      }

  absent : (k : Text) → read_bool (some (object_of [])) k ≡ false
  unfolding bool_or_false
  absent k = ap bool_or_false (get_item-object_of [] k)

  empty_back : cvt_json_to_iptable (some (object_of [])) ≡ no_iptable
  unfolding cvt_json_to_iptable no_iptable string_item
  empty_back = λ t. record {
    id = read_string-member [] (codes "id") none refl t;
    name = read_string-member [] (codes "name") none refl t;
    port_range = read_string-member [] (codes "port_range") none refl t;
    ip_mask = read_string-member [] (codes "ip_mask") none refl t;
    protocol = read_string-member [] (codes "protocol") none refl t;
    dnat_ip = read_string-member [] (codes "dnat_ip") none refl t;
    dnat_port_range = read_string-member [] (codes "dnat_port_range") none refl t;
    interface = read_string-member [] (codes "interface") none refl t;
    enable = absent (codes "enable") t;
  }

  pub iptable_round_trip : (i : Iptable) → cvt_json_to_iptable (some (cvt_iptable_to_json i)) ≡ i
  unfolding cvt_iptable_to_json
  iptable_round_trip i = elim (Bool-cases (app_mem_empty i)) [
    | inl empty ↦ rw empty (empty_back ∙ sym (app_mem_empty_lem i empty))
    | inr full ↦ rw full (members_back i)
  ]

  pub iptable_list_round_trip :
      (is : List Iptable) → cvt_json_to_iptable_list (some (cvt_iptable_list_to_json is)) ≡ is
  unfolding cvt_iptable_list_to_json cvt_json_to_iptable_list
  iptable_list_round_trip is =
      read_array-map cvt_json_to_iptable cvt_iptable_to_json is iptable_round_trip

  service_back :
      (name : Option Text) (ps : List Iptable)
      → cvt_json_to_iptable_nova_service (some (object_of (service_members name ps)))
        ≡ record { name = name; port_profiles = some ps }
  unfolding cvt_json_to_iptable_nova_service cvt_iptable_list_to_json
  service_back name ps =
      let ms = service_members name ps in
      λ t. record {
        name = read_string-member ms (codes "name") name refl t;
        port_profiles =
            read_list-member cvt_json_to_iptable ms (codes "port_profiles")
              (map cvt_iptable_to_json ps) ps refl
              (read_array-map cvt_json_to_iptable cvt_iptable_to_json ps iptable_round_trip) t;
      }

  -- the items of the array, and what reading them gives
  services_back :
      (ss : List IptableNovaService)
      → All HasProfiles ss
      → (items : List Json) × (services_json ss ≡ some items)
        × (map (λ j. cvt_json_to_iptable_nova_service (some j)) items ≡ ss)
  unfolding services_json cvt_iptable_nova_service_to_json
  services_back [] h = ([], refl, refl)
  services_back (s ∷ ss) ((ps, has), h) =
      let (items, written, back) = services_back ss h in
      (
        object_of (service_members s.name ps) ∷ items,
        rw (has, written) refl,
        ap₂ ◌∷◌
            (service_back s.name ps ∙ (λ t. record { name = s.name; port_profiles = sym has t }))
            back,
      )

  -- If every service has a list of profiles, writing the services succeeds, and reading the JSON
  -- gives them back with their profiles, an all-NULL one included.
  pub nova_list_round_trip :
      (ss : List IptableNovaService)
      → All HasProfiles ss
      → (json : Json) × (cvt_iptable_nova_service_list_to_json ss ≡ some json)
        × (cvt_json_to_iptable_nova_service_list (some json) ≡ ss)
  unfolding cvt_iptable_nova_service_list_to_json cvt_json_to_iptable_nova_service_list
  nova_list_round_trip ss h =
      let (items, written, back) = services_back ss h in
      (
        array_of items,
        rw written refl,
        read_array-array_of cvt_json_to_iptable_nova_service items ∙ back,
      )

  pub nova_list_back :
      (ss : List IptableNovaService) (json : Json)
      → All HasProfiles ss
      → cvt_iptable_nova_service_list_to_json ss ≡ some json
      → cvt_json_to_iptable_nova_service_list (some json) ≡ ss
  nova_list_back ss json h written =
      let (json', written', back) = nova_list_round_trip ss h in
      ap cvt_json_to_iptable_nova_service_list (sym written ∙ written') ∙ back
