-- ===== src/Api.antt =====
-- src/api: the messages of the program.
pub mod Name
pub mod Errors
pub mod Message
pub mod Handler
pub mod Network
pub mod Dispatch
pub mod Mesh
