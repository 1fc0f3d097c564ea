-- ===== src/Network.antt =====
-- src/core/network: the settings of the router.
pub mod Route
pub mod Iptables
pub mod Lan
pub mod Wan
pub mod Wlan
pub mod Dhcp
