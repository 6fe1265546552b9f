-- ===== src/Schemas.antt =====
-- The schemas of projects/cs2-dumper-cpp-standalone/src/analysis.cpp. Schemas/Blocks has the elements
-- of a hash table, Schemas/Bindings the classes and enumerations, Schemas/Scopes the type scopes and
-- the whole analysis; Schemas/Named and Schemas/Filled say what these return.
pub mod Blocks
pub mod Bindings
pub mod Scopes
pub mod Named
pub mod Filled
