-- ===== src/Network/Dhcp.antt =====
-- src/core/network/dhcp: names, addresses and leases of the local network.
pub mod Codec
pub mod Reload
pub mod Apply
pub mod Hosts
pub mod Set
pub mod Clients
pub mod Stores
pub mod Lease
