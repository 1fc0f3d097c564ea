-- ===== src/Network/Iptables/Codec.antt =====
-- The conversions of src/core/network/iptables/iptables_struct.c.
use noc_demo.Common.{
  ◌≡◌, refl, ◌&&◌, not, Bool, true, false, if◌then◌else◌, Option, none, some, List, [], ◌∷◌, map,
  is_some,
}
use noc_demo.Common.Texts.{Text, codes}
use noc_demo.Common.Options.{◌>>=◌}
use noc_demo.CJson.Base.{CJson}
use noc_demo.CJson.Object.{Members, object_of, string_item, bool_item, read_string, read_bool}
use noc_demo.CJson.Array.{array_of, read_array}
use noc_demo.CJson.Nested.{read_list}
use noc_demo.Network.Iptables.Defs.{Iptable, IptableNovaService}

-- app_mem_empty(iptable, sizeof(iptable_t)) on a structure whose padding calloc cleared
unfoldable pub app_mem_empty : Iptable → Bool
app_mem_empty i =
    not (is_some i.id)
    && (not (is_some i.name)
        && (not (is_some i.port_range)
            && (not (is_some i.ip_mask)
                && (not (is_some i.protocol)
                    && (not (is_some i.dnat_ip)
                        && (not (is_some i.dnat_port_range)
                            && (not (is_some i.interface) && not i.enable)))))))

unfoldable pub no_iptable : Iptable
no_iptable = record {
  id = none;
  name = none;
  port_range = none;
  ip_mask = none;
  protocol = none;
  dnat_ip = none;
  dnat_port_range = none;
  interface = none;
  enable = false;
}

null_and : (v : Option Text) (b : Bool) → (not (is_some v) && b) ≡ true → (v ≡ none) × (b ≡ true)
null_and none b h = (refl, h)
null_and (some v) b h = cc

not-true : (b : Bool) → not b ≡ true → b ≡ false
not-true false h = refl
not-true true h = cc

pub app_mem_empty_lem : (i : Iptable) → app_mem_empty i ≡ true → i ≡ no_iptable
unfolding app_mem_empty no_iptable
app_mem_empty_lem i h =
    let a = null_and i.id _ h in
    let b = null_and i.name _ a.1 in
    let c = null_and i.port_range _ b.1 in
    let d = null_and i.ip_mask _ c.1 in
    let e = null_and i.protocol _ d.1 in
    let f = null_and i.dnat_ip _ e.1 in
    let g = null_and i.dnat_port_range _ f.1 in
    let k = null_and i.interface _ g.1 in
    let z = not-true i.enable k.1 in
    λ t. record {
      id = a.0 t;
      name = b.0 t;
      port_range = c.0 t;
      ip_mask = d.0 t;
      protocol = e.0 t;
      dnat_ip = f.0 t;
      dnat_port_range = g.0 t;
      interface = k.0 t;
      enable = z t;
    }

module _ ⦃cj : CJson⦄ where
  open cj use {Json}

  abbrev pub iptable_members : Iptable → Members
  iptable_members iptable =
      (codes "id", string_item iptable.id)
      ∷ (codes "name", string_item iptable.name)
      ∷ (codes "port_range", string_item iptable.port_range)
      ∷ (codes "ip_mask", string_item iptable.ip_mask)
      ∷ (codes "protocol", string_item iptable.protocol)
      ∷ (codes "dnat_ip", string_item iptable.dnat_ip)
      ∷ (codes "dnat_port_range", string_item iptable.dnat_port_range)
      ∷ (codes "interface", string_item iptable.interface)
      ∷ (codes "enable", bool_item iptable.enable)
      ∷ []

  unfoldable pub cvt_iptable_to_json : Iptable → Json
  cvt_iptable_to_json iptable =
      if app_mem_empty iptable then object_of [] else object_of (iptable_members iptable)

  unfoldable pub cvt_json_to_iptable : Option Json → Iptable
  cvt_json_to_iptable json = record {
    id = read_string json (codes "id");
    name = read_string json (codes "name");
    port_range = read_string json (codes "port_range");
    ip_mask = read_string json (codes "ip_mask");
    protocol = read_string json (codes "protocol");
    dnat_ip = read_string json (codes "dnat_ip");
    dnat_port_range = read_string json (codes "dnat_port_range");
    interface = read_string json (codes "interface");
    enable = read_bool json (codes "enable");
  }

  unfoldable pub cvt_iptable_list_to_json : List Iptable → Json
  cvt_iptable_list_to_json iptables = array_of (map cvt_iptable_to_json iptables)

  unfoldable pub cvt_json_to_iptable_list : Option Json → List Iptable
  cvt_json_to_iptable_list json = read_array cvt_json_to_iptable json

  abbrev pub service_members : Option Text → List Iptable → Members
  service_members name profiles =
      (codes "name", string_item name)
      ∷ (codes "port_profiles", some (cvt_iptable_list_to_json profiles))
      ∷ []

  -- A NULL list of profiles is dereferenced, which `none` stands for.
  unfoldable pub cvt_iptable_nova_service_to_json : IptableNovaService → Option Json
  cvt_iptable_nova_service_to_json service = elim service.port_profiles [
    | none ↦ none
    | some profiles ↦ some (object_of (service_members service.name profiles))
  ]

  unfoldable pub cvt_json_to_iptable_nova_service : Option Json → IptableNovaService
  cvt_json_to_iptable_nova_service json = record {
    name = read_string json (codes "name");
    port_profiles = read_list cvt_json_to_iptable json (codes "port_profiles");
  }

  unfoldable pub services_json : List IptableNovaService → Option (List Json)
  services_json [] = some []
  services_json (s ∷ services) = do
    json ← cvt_iptable_nova_service_to_json s
    rest ← services_json services
    some (json ∷ rest)

  unfoldable pub cvt_iptable_nova_service_list_to_json : List IptableNovaService → Option Json
  cvt_iptable_nova_service_list_to_json services = do
    items ← services_json services
    some (array_of items)

  unfoldable pub cvt_json_to_iptable_nova_service_list : Option Json → List IptableNovaService
  cvt_json_to_iptable_nova_service_list json = read_array cvt_json_to_iptable_nova_service json
