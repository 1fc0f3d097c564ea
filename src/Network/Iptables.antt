-- ===== src/Network/Iptables.antt =====
-- src/core/network/iptables: port profiles, their settings and the rules of the firewall.
pub mod Defs
pub mod Codec
pub mod RoundTrip
pub mod Rules
pub mod Reload
pub mod Refresh
pub mod Forwarding
pub mod Services
pub mod Dmz
