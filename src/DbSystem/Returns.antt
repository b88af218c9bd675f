-- ===== src/DbSystem/Returns.antt =====
-- `DBSystem::write` comes to its end: it neither waits nor fails.
use polardb_uncompleted.Base.{ℕ, Bool, Option, none, some}
use polardb_uncompleted.Buffer.{Buffer}
use polardb_uncompleted.Buffer.Record.{Record, new as new_record}
use polardb_uncompleted.Buffer.Slots.{IsValid as Partitioned}
use polardb_uncompleted.Index.{Index}
use polardb_uncompleted.Indexer
use polardb_uncompleted.SkipList.{SkipList}
use polardb_uncompleted.SkipList.Walk.{IsValid}

abbrev marks_of : Buffer → Option (ℕ × Buffer) → ℕ → Bool
marks_of b none = b.accessing
marks_of b (some (r, c)) = c.accessing
