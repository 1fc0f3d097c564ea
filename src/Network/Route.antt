-- ===== src/Network/Route.antt =====
-- src/core/network/route: the static routes of the setting file and of the kernel.
pub mod Defs
pub mod Codec
pub mod Ops
pub mod Create
pub mod Delete
pub mod Update
