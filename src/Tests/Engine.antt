-- ===== src/Tests/Engine.antt =====
-- A write, and the dump of one record, on files in memory.
use polardb_uncompleted.Base.{
  ℕ, ◌≡◌, refl, Option, none, some, List, [], ◌∷◌, length-replicate, replicate, write, arith,
}
use polardb_uncompleted.Base.Run.{Run, ok}
use polardb_uncompleted.Buffer.{Buffer}
use polardb_uncompleted.Buffer as Slots
use polardb_uncompleted.Buffer.Record as Item
use polardb_uncompleted.Buffer.Slots.{new-IsValid as new-Partitioned, IsValid as Partitioned}
use polardb_uncompleted.DbSystem.{index_to_buffer, read}
use polardb_uncompleted.DbSystem.Dump.{Dumping, dump_record, dump_all}
use polardb_uncompleted.DbSystem.ReadDumped.{dump_record-read}
use polardb_uncompleted.DbSystem.SortedFile.{sorted_bytes, dump_all-sorted_bytes}
use polardb_uncompleted.DbSystem.Stored.{db_write-read}
use polardb_uncompleted.DbSystem.Write.{System, db_write}
use polardb_uncompleted.Disk.{
  DiskManager, append_to, write_to_log, dumpint_keys, append_dumping, end_dumping,
}
use polardb_uncompleted.Disk.Files.{FilePath, in_memory}
use polardb_uncompleted.Disk.Image.{image, take, drop}
use polardb_uncompleted.Disk.Paths.{path_in}
use polardb_uncompleted.Index.{if_valid, get_idx, set_in_file, set_idx, set_fid}
use polardb_uncompleted.IndexHashMap as Table
use polardb_uncompleted.IndexHashMap.{KeyIdxPair, stops, search, search_from, search_loop}
use polardb_uncompleted.IndexHashMap.Hash.{hash_key, bytes_of}
use polardb_uncompleted.IndexHashMap.View.{new-IsValid, IsValid}
use polardb_uncompleted.Indexer
use polardb_uncompleted.Manifest.{
  sst_name, decimal, count_level, mf_record, write_to_manifist, insert_record,
}
use polardb_uncompleted.MemTables.Current.{get_memtable, get_total_items}
use polardb_uncompleted.SkipList.{SkipList}
use polardb_uncompleted.SkipList as Tables
use polardb_uncompleted.SkipList.Levels.{give_all, empty_level, insert_after, check_and_resize}
use polardb_uncompleted.SkipList.Walk.{IsValid as Tables_IsValid, new-IsValid as empty-IsValid}
use polardb_uncompleted.Utils.{get_key, last_byte, path_join}

abbrev disk : DiskManager
disk = record {
  curr_log_fd = append_to (b'l' ∷ []);
  curr_log_len = 0;
  dumping_sstable_file_fd = none;
  basepath = b'd' ∷ [];
  sleeping = 0;
  notified = 0;
}

abbrev no_files : FilePath → Option (List ℕ)
no_files p = none

abbrev fresh : System in_memory
fresh = record {
  db = record { buffer = Slots.new; hash_table = Table.new; mem_tables = Tables.new 0 ∷ [] };
  dump_queue = [];
  files = no_files;
  disk = disk;
}

abbrev written : Run (Option (System in_memory)) → System in_memory
written (ok (some s)) = s
written _ = fresh

abbrev key_one : List ℕ
key_one = 0 ∷ 0 ∷ 0 ∷ 0 ∷ 0 ∷ 0 ∷ 0 ∷ 1 ∷ []

abbrev ones : List ℕ
ones = replicate 4096 1

abbrev after_write : System in_memory
after_write = written (db_write in_memory 1 1 fresh key_one ones)

writes_ones : db_write in_memory 1 1 fresh key_one ones ≡ ok (some after_write)
unfolding db_write get_key Item.set_value Item.make_check Item.new write_to_log image bytes_of
    Slots.request_record_buff Slots.wait_for_access Slots.end_access Slots.new get_memtable
    get_total_items Tables.try_lock Tables.new Tables.update Tables.get insert_after Indexer.update
    Table.update search search_from search_loop stops Table.new if_valid hash_key empty_level
    give_all write Slots.split_last Slots.indices Tables.cnt_ns Tables.un_lock check_and_resize
writes_ones = refl

db_write-read_example :
    IsValid after_write.db.hash_table
    × Partitioned after_write.db.buffer
    × ((b : Buffer) × (read after_write.db key_one
          ≡ ok (some (ones, record after_write.db { buffer = b }))))
db_write-read_example =
    db_write-read in_memory 1 1 fresh after_write key_one ones new-IsValid new-Partitioned
      (length-replicate {A = ℕ} 4096 1) writes_ones

abbrev locked_list : SkipList
locked_list = (Tables.try_lock (Tables.new 0)).1

-- Slot 3 is written, and its record has key 1.
abbrev in_three : KeyIdxPair
in_three = record { key = 1; idx = index_to_buffer 3 }

abbrev dumping : Dumping in_memory
dumping = record {
  buffer = record Slots.new { idxes_wrote = 3 ∷ []; wrote_mapping = 3 ∷ [] };
  hash_table = Table.new;
  files = no_files;
  disk = disk;
  manifester = record { all_records = []; record_cnt = λ lvl. 0 };
}

abbrev dumped : Run (Option (Dumping in_memory)) → Dumping in_memory
dumped (ok (some s)) = s
dumped _ = dumping

abbrev unset : List ℕ
unset = replicate 256 0

abbrev after_dump : Dumping in_memory
after_dump = dumped (dump_all in_memory unset dumping (in_three ∷ []))

dumps_one : dump_all in_memory unset dumping (in_three ∷ []) ≡ ok (some after_dump)
unfolding dump_all dumpint_keys path_join last_byte sst_name insert_record end_dumping get_idx
    index_to_buffer set_in_file set_idx set_fid Slots.wait_for_access Slots.new Slots.release_buff
    Indexer.update Table.update search search_from search_loop stops if_valid Table.new
    append_dumping Slots.end_access Slots.remove write decimal count_level write_to_manifist
    mf_record take drop
dumps_one = refl

dump_all-sorted_bytes_example :
    after_dump.files (path_in (b'd' ∷ []) b'd' (sst_name 0))
    ≡ some (sorted_bytes dumping.buffer (in_three ∷ []))
unfolding last_byte
dump_all-sorted_bytes_example =
    dump_all-sorted_bytes in_memory unset dumping after_dump (in_three ∷ []) b'd' refl dumps_one

abbrev after_record : Dumping in_memory
after_record = dumped (dump_record in_memory dumping 5 in_three)

dumps_record : dump_record in_memory dumping 5 in_three ≡ ok (some after_record)
unfolding dump_record get_idx index_to_buffer set_in_file set_idx set_fid Slots.wait_for_access
    Slots.new Slots.release_buff Indexer.update Table.update search search_from search_loop stops
    if_valid Table.new
dumps_record = refl

-- The record was in slot 3, and the value of slot 5 is read.
dump_record-read_example :
    (b : Buffer) × (read
        (record {
          buffer = after_record.buffer;
          hash_table = after_record.hash_table;
          mem_tables = [];
        })
        key_one
      ≡ ok (
          some (
            (Slots.new.slots 5).value_ptr,
            record { buffer = b; hash_table = after_record.hash_table; mem_tables = [] },
          )))
unfolding get_key Item.new dump_record get_idx index_to_buffer set_in_file set_idx set_fid
    Slots.wait_for_access Slots.new Slots.release_buff Indexer.update Table.update search
    search_from search_loop stops if_valid Table.new Slots.end_access write Slots.remove
dump_record-read_example =
    dump_record-read in_memory dumping after_record 5 in_three [] key_one new-IsValid (omega arith)
      (omega arith) dumps_record refl refl (length-replicate {A = ℕ} 4096 0)
