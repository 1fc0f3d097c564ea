-- ===== src/Tests.antt =====
-- Each property applied to a concrete input.
mod Base
mod Routes
mod Firewall
mod Settings
mod Commands
mod Mesh
mod Api
mod Dhcp
mod Messages
mod MeshUpdate
mod MqttBridge
