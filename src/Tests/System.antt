-- ===== src/Tests/System.antt =====
-- A record in an empty system, recovered and read back.
use polardb_uncompleted.Base.{ℕ, ◌≡◌, refl, Option, some, List, [], ◌∷◌, length-replicate, write}
use polardb_uncompleted.Base.Run.{Run, ok}
use polardb_uncompleted.Buffer.{Buffer}
use polardb_uncompleted.Buffer as Slots
use polardb_uncompleted.Buffer.Record as Item
use polardb_uncompleted.DbSystem.{DbSystem, write_recover, read}
use polardb_uncompleted.DbSystem.Recover.{write_recover-read}
use polardb_uncompleted.Index.{if_valid}
use polardb_uncompleted.IndexHashMap as Table
use polardb_uncompleted.IndexHashMap.{stops, search, search_from, search_loop}
use polardb_uncompleted.IndexHashMap.Hash.{hash_key}
use polardb_uncompleted.IndexHashMap.View.{new-IsValid}
use polardb_uncompleted.Indexer
use polardb_uncompleted.MemTables.Current.{get_memtable}
use polardb_uncompleted.SkipList as Tables
use polardb_uncompleted.SkipList.Levels.{give_all, empty_level, insert_after}
use polardb_uncompleted.Utils.{get_key}

abbrev fresh : DbSystem
fresh = record { buffer = Slots.new; hash_table = Table.new; mem_tables = Tables.new 0 ∷ [] }

abbrev result : Run (Option DbSystem) → DbSystem
result (ok (some s)) = s
result _ = fresh

abbrev recovered : DbSystem
recovered = result (write_recover 1 1 fresh 3)

recover_three : write_recover 1 1 fresh 3 ≡ ok (some recovered)
unfolding write_recover get_memtable Tables.try_lock Tables.new Tables.update Tables.get
    insert_after Indexer.update Table.update search search_from search_loop stops Table.new if_valid
    hash_key Slots.new empty_level give_all write Item.new
recover_three = refl

-- The empty buffer has key 0 and a value of zeros in slot 3.
abbrev zeros : List ℕ
zeros = (Slots.new.slots 3).value_ptr

write_recover-read_example :
    (b : Buffer) × (read recovered (0 ∷ 0 ∷ 0 ∷ 0 ∷ 0 ∷ 0 ∷ 0 ∷ 0 ∷ [])
      ≡ ok (some (zeros, record recovered { buffer = b })))
unfolding get_key Slots.new Item.new
write_recover-read_example =
    write_recover-read 1 1 fresh recovered 3 (0 ∷ 0 ∷ 0 ∷ 0 ∷ 0 ∷ 0 ∷ 0 ∷ 0 ∷ []) new-IsValid
      recover_three refl refl (length-replicate {A = ℕ} 4096 0)
