-- ===== src/DbSystem/Write.antt =====
-- engine_race/DBSystem/DBSystem.cpp, `DBSystem::write`, with `submit_dump` of class MemTables: the log,
-- the buffer, the hash table and the skip lists, in the order of the calls.
use polardb_uncompleted.Base.{
  ℕ, Option, none, some, List, leb, map, if◌then◌else◌, get_elem?, set, replicate, write,
}
use polardb_uncompleted.Base.Run.{Run, ok, undefined}
use polardb_uncompleted.Buffer.{
  Buffer, record_buff_size, request_record_buff, wait_for_access, end_access,
}
use polardb_uncompleted.Buffer.Record.{Record, set_value, make_check, new as new_record}
use polardb_uncompleted.DbSystem.{DbSystem}
use polardb_uncompleted.DbSystem.Call.{◌>>+◌, at_once}
use polardb_uncompleted.Disk.{DiskManager, write_to_log, switch_log}
use polardb_uncompleted.Disk.Files.{FileSystem}
use polardb_uncompleted.Disk.Image.{image}
use polardb_uncompleted.Index.{Index, set_fid, set_idx}
use polardb_uncompleted.Index as Word
use polardb_uncompleted.Indexer
use polardb_uncompleted.MemTables.Current.{get_memtable, get_total_items}
use polardb_uncompleted.SkipList.{SkipList, un_lock, set_dumping}
use polardb_uncompleted.SkipList as Tables
use polardb_uncompleted.Utils.{get_key}
use polardb_uncompleted.WaitQueue.{WaitQueue, wait_and_push}

abbrev pub memtable_co_write_num : ℕ
memtable_co_write_num = 40

-- The capacity of `memtables_wait_for_dump`.
abbrev pub dump_queue_size : ℕ
dump_queue_size = 10

-- The objects that a write reaches; `dump_queue` is `memtables_wait_for_dump`.
pub record System (fs : FileSystem) : Type 0 where
  pub db : DbSystem
  pub dump_queue : WaitQueue (List SkipList)
  pub files : fs.Files
  pub disk : DiskManager

-- The word of slot `idx`, as `write` makes it.
unfoldable pub slot_index : ℕ → Index
slot_index idx = set_idx (set_fid Word.new 0) idx

-- The record is copied into a slot of its own.
unfoldable pub place_record : Buffer → Record → Run (Option (ℕ × Buffer))
unfolding ◌>>+◌
place_record buffer gather = ok (request_record_buff buffer) >>+ λ (idx_buffer, requested).
    ok (wait_for_access requested idx_buffer) >>+ λ (place, accessed). ok (
      some (
        idx_buffer,
        end_access (record accessed { slots = write accessed.slots place gather }) idx_buffer,
      ))

unfoldable pub insert_memtable : ℕ → ℕ → List SkipList → ℕ → Index → Run (Option (List SkipList))
unfolding ◌>>+◌
insert_memtable tries height tables key index = ok (get_memtable tries tables) >>+ λ (iter, locked).
    elim (get_elem? locked iter) [
      | none ↦ undefined
      | some table ↦ at_once (Tables.update table key index height) >>+ λ (written, place).
          ok (some (set locked iter (un_lock written)))
    ]

-- The lists that threads write to are replaced by new ones (the creator thread supplies
-- `new SkipList(0)`, for which the call waits), and go to the dumper.
unfoldable pub submit_dump :
    List SkipList → WaitQueue (List SkipList) → List SkipList × Option (WaitQueue (List SkipList))
submit_dump current_memtables queue = (
  replicate memtable_co_write_num (Tables.new 0),
  wait_and_push dump_queue_size queue (map (λ (t : SkipList). set_dumping t) current_memtables),
)

module _ (fs : FileSystem) where
  -- The end of `write`.
  unfoldable pub dump_if_full : System fs → Run (Option (System fs))
  unfolding ◌>>+◌ submit_dump
  dump_if_full s =
      if leb record_buff_size (get_total_items s.db.mem_tables)
      then (at_once (switch_log fs s.files s.disk) >>+ λ (through, files, disk).
          let (mem_tables, pushed) = submit_dump s.db.mem_tables s.dump_queue in
          ok (if through then pushed else none) >>+ λ queue. ok (
            some (record {
              db = record (s.db) { mem_tables = mem_tables };
              dump_queue = queue;
              files = files;
              disk = disk;
            })))
      else ok (some s)

  -- `height` is what `random()` gives to a new node of the skip list; `tries` bounds the search for
  -- a list whose lock is free.
  unfoldable pub db_write : ℕ → ℕ → System fs → List ℕ → List ℕ → Run (Option (System fs))
  unfolding ◌>>+◌ slot_index place_record insert_memtable dump_if_full
  db_write tries height s key value = at_once (get_key key) >>+ λ key_t.
      at_once (set_value (record new_record { key = key_t }) value) >>+ λ filled.
      let gather : Record = make_check filled in
      at_once (write_to_log fs s.files s.disk (image gather)) >>+ λ (full, files, disk).
      place_record s.db.buffer gather >>+ λ (idx_buffer, buffer).
      at_once (Indexer.update s.db.hash_table key_t (slot_index idx_buffer))
      >>+ λ (hash_table, cnt).
          insert_memtable tries height s.db.mem_tables key_t (slot_index idx_buffer)
          >>+ λ mem_tables. dump_if_full (record {
            db = record { buffer = buffer; hash_table = hash_table; mem_tables = mem_tables };
            dump_queue = s.dump_queue;
            files = files;
            disk = disk;
          })
