-- ===== src/Indexer.antt =====
-- engine_race/DBSystem/Index.cpp, class Indexer: the table behind one mutex, so that each method
-- is one step on the table.
pub mod Writing
use polardb_uncompleted.Base.{ℕ, Bool, not, Option, none, some, ◌==◌, write}
use polardb_uncompleted.Base.Run.{Run, ok, undefined}
use polardb_uncompleted.Index as Word
use polardb_uncompleted.Index.{Index}
use polardb_uncompleted.IndexHashMap as Table
use polardb_uncompleted.IndexHashMap.{IndexHashMap}

-- The table that `hashMap` points to.
abbrev pub Indexer : Type 0
Indexer = IndexHashMap

-- `Indexer()`
unfoldable pub new : Indexer
new = Table.new

unfoldable pub update : IndexHashMap → ℕ → Index → Run (IndexHashMap × ℕ)
update m key idx = Table.update m key idx

unfoldable pub get : IndexHashMap → ℕ → Option ℕ
get m key = Table.get m key

-- For a missing key `assert(tmp)` reads a pointer that was never set.
unfoldable pub set_if_writing : IndexHashMap → ℕ → Bool → Run IndexHashMap
set_if_writing m key if_writing = elim (Table.get m key) [
  | none ↦ undefined
  | some e ↦ ok (write m e (record (m e) { idx = Word.set_if_writing (m e).idx if_writing }))
]

unfoldable pub get_if_writing : IndexHashMap → ℕ → Run Bool
get_if_writing m key = elim (Table.get m key) [
  | none ↦ undefined
  | some e ↦ ok (not (Word.if_writing (m e).idx == 0))
]
