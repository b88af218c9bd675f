-- ===== src/Example.antt =====
-- engine_example, the engine that the repository gives as an example: a data store that appends
-- values to files, a hash table from keys to the places of their values, and the engine on both.
pub mod Util
pub mod DoorPlate
pub mod DataStore
pub mod Engine
