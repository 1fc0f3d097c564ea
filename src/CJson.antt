-- ===== src/CJson.antt =====
-- The third-party library cJSON (`cjson/cJSON.h`, not part of the repository): its interface, how
-- the program writes and reads objects and arrays through it, and one implementation of it.
pub mod Base
pub mod Object
pub mod Array
pub mod Nested
pub mod Tree
