-- ===== src/Mesh.antt =====
-- src/core/mesh/topology, setting and quality: the devices, the settings and the quality of
-- the mesh.
pub mod Device
pub mod Setting
pub mod Quality
pub mod Topology
