-- ===== src/Utils.antt =====
-- The helpers under src/utils that the components share.
pub mod File
pub mod Shell
pub mod Split
pub mod Uci
pub mod Uuid
