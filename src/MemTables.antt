-- ===== src/MemTables.antt =====
-- engine_race/DBSystem/DBSystem.cpp, class MemTables: the skip lists that threads write to, and
-- the thread that merges full ones into a file.
pub mod Source
pub mod Dumper
pub mod Minimum
pub mod Merge
pub mod Rounds
pub mod Pointers
pub mod Current
pub mod Single
pub mod Empty
pub mod Dangling
pub mod Tables
