-- ===== src/Network/Iptables/Defs.antt =====
-- iptable_t and iptable_nova_service_t of src/core/network/iptables/iptables_struct.h.
use noc_demo.Common.{Bool, Option, List}
use noc_demo.Common.Texts.{Text}

pub record Iptable : Type 0 where
  pub id : Option Text
  pub name : Option Text
  pub port_range : Option Text
  pub ip_mask : Option Text
  pub protocol : Option Text
  pub dnat_ip : Option Text
  pub dnat_port_range : Option Text
  pub interface : Option Text
  pub enable : Bool

-- `port_profiles` is a pointer to a list and may be NULL.
pub record IptableNovaService : Type 0 where
  pub name : Option Text
  pub port_profiles : Option (List Iptable)
