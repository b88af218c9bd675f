-- ===== src/DbSystem.antt =====
-- engine_race/DBSystem/DBSystem.cpp, class DBSystem: the methods that stay in memory.
pub mod Recover
pub mod Call
pub mod Write
pub mod Stored
pub mod Dump
pub mod Dumped
pub mod SortedFile
pub mod ReadDumped
pub mod Returns
pub mod Fetch
pub mod Dumper
use polardb_uncompleted.Base.{
  ℕ, false, Option, none, some, List, ltb, if◌then◌else◌, get_elem?, set,
}
use polardb_uncompleted.Base.Run.{Run, ok, assertion_failed, undefined, ◌>>=◌}
use polardb_uncompleted.Buffer.{Buffer, record_buff_size, wait_for_access, end_access}
use polardb_uncompleted.Buffer.Record.{get_value}
use polardb_uncompleted.Index.{Index, get_idx, set_fid, set_idx, set_in_file}
use polardb_uncompleted.Index as Word
use polardb_uncompleted.IndexHashMap.{IndexHashMap}
use polardb_uncompleted.Indexer
use polardb_uncompleted.MemTables.Current.{get_memtable}
use polardb_uncompleted.SkipList.{SkipList, un_lock}
use polardb_uncompleted.SkipList as Tables
use polardb_uncompleted.Utils.{get_key}

-- `mem_tables` is `current_memtables` of the member.
pub record DbSystem : Type 0 where
  pub buffer : Buffer
  pub hash_table : IndexHashMap
  pub mem_tables : List SkipList

-- The word that stands for a buffer slot.
unfoldable pub index_to_buffer : ℕ → Index
index_to_buffer idx_buffer = set_in_file (set_idx (set_fid Word.new 0) idx_buffer) false

-- `gather` points to the record in slot `idx_buffer`; `height` is what `random()` gives to a new
-- node. `none`: no lock was free in so many tries.
unfoldable pub write_recover : ℕ → ℕ → DbSystem → ℕ → Run (Option DbSystem)
unfolding index_to_buffer
write_recover tries height s idx_buffer =
    let key : ℕ = (s.buffer.slots idx_buffer).key in
    let index : Index = index_to_buffer idx_buffer in
    if ltb idx_buffer record_buff_size
    then (elim (get_memtable tries s.mem_tables) [
      | none ↦ ok none
      | some (iter, tables) ↦ elim (get_elem? tables iter) [
        | none ↦ undefined
        | some table ↦ Tables.update table key index height >>= λ (written, place).
            Indexer.update s.hash_table key index >>= λ (hash_table, cnt). ok (
              some (record s {
                hash_table = hash_table;
                mem_tables = set tables iter (un_lock written);
              }))
      ]
    ])
    else assertion_failed

-- `read` after the key is known. A missing key is a null pointer, and an index beyond the slots is
-- outside the array. `none`: the slot is being accessed.
unfoldable pub read_at : DbSystem → ℕ → Run (Option (List ℕ × DbSystem))
read_at s key_t = elim (Indexer.get s.hash_table key_t) [
  | none ↦ undefined
  | some entry ↦
      let idx : ℕ = get_idx (s.hash_table entry).idx in
      if ltb idx record_buff_size
      then (elim (wait_for_access s.buffer idx) [
        | none ↦ ok none
        | some (slot, accessed) ↦ elim (get_value (accessed.slots slot)) [
          | ok value ↦ ok (some (value, record s { buffer = end_access accessed idx }))
          | _ ↦ undefined
        ]
      ])
      else undefined
]

unfoldable pub read : DbSystem → List ℕ → Run (Option (List ℕ × DbSystem))
unfolding read_at
read s key = get_key key >>= λ key_t. read_at s key_t
