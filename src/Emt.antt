-- ===== src/Emt.antt =====
-- src/core/mesh/core: the command line of the mesh daemon.
pub mod Actions
pub mod Tables
pub mod Command
