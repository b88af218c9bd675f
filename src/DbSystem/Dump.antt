-- ===== src/DbSystem/Dump.antt =====
-- engine_race/DBSystem/DBSystem.cpp, `MemTables::dump_all`: the dumper writes the records that it has
-- merged to a sorted file, and frees their slots.
use polardb_uncompleted.Base.{ℕ, suc, true, some, Option, List, [], ◌∷◌, ltb, length, if◌then◌else◌}
use polardb_uncompleted.Base.Run.{Run, ok, undefined}
use polardb_uncompleted.Buffer.{Buffer, record_buff_size, wait_for_access, release_buff, end_access}
use polardb_uncompleted.DbSystem.Call.{◌>>+◌, at_once}
use polardb_uncompleted.Disk.{DiskManager, dumpint_keys, append_dumping, end_dumping}
use polardb_uncompleted.Disk.Files.{FileSystem}
use polardb_uncompleted.Index.{Index, get_idx, set_fid, set_idx, set_in_file}
use polardb_uncompleted.Index as Word
use polardb_uncompleted.IndexHashMap.{IndexHashMap, KeyIdxPair}
use polardb_uncompleted.Indexer
use polardb_uncompleted.Manifest.{Manifester, sst_name, insert_record}

-- What the dumper works on.
pub record Dumping (fs : FileSystem) : Type 0 where
  pub buffer : Buffer
  pub hash_table : IndexHashMap
  pub files : fs.Files
  pub disk : DiskManager
  pub manifester : Manifester

-- The word of place `i` in sorted file number `fid`.
unfoldable pub file_index : ℕ → ℕ → Index
file_index fid i = set_in_file (set_idx (set_fid Word.new fid) i) true

abbrev pub last_of : KeyIdxPair → List KeyIdxPair → KeyIdxPair
last_of x [] = x
last_of x (y ∷ xs) = last_of y xs

module _ (fs : FileSystem) where
  -- The body of the for loop, for place `i`.
  unfoldable pub dump_record : Dumping fs → ℕ → KeyIdxPair → Run (Option (Dumping fs))
  unfolding ◌>>+◌ file_index
  dump_record s i kv =
      let idx : ℕ = get_idx kv.idx in
      if ltb idx record_buff_size
      then (ok (wait_for_access s.buffer idx) >>+ λ (place, accessed).
          at_once (release_buff accessed idx) >>+ λ released.
          at_once
            (Indexer.update s.hash_table kv.key (file_index (length s.manifester.all_records) i))
          >>+ λ (hash_table, cnt). ok (
              some (record s {
                buffer = end_access released idx;
                hash_table = hash_table;
                files = append_dumping fs s.files s.disk (accessed.slots place).value_ptr;
              })))
      else undefined

  unfoldable pub dump_records : Dumping fs → ℕ → List KeyIdxPair → Run (Option (Dumping fs))
  unfolding ◌>>+◌ dump_record
  dump_records s i [] = ok (some s)
  dump_records s i (kv ∷ kvidxes) = dump_record s i kv >>+ λ s'. dump_records s' (suc i) kvidxes

  -- `unset` is what `insert_record` finds in `file_name`. There is no first key of an empty list.
  unfoldable pub dump_all : List ℕ → Dumping fs → List KeyIdxPair → Run (Option (Dumping fs))
  unfolding ◌>>+◌ dump_records
  dump_all unset s [] = undefined
  dump_all unset s (kv ∷ kvidxes) =
      at_once
        (dumpint_keys fs s.files s.disk (sst_name (length s.manifester.all_records)) (kv ∷ kvidxes))
      >>+ λ (files, disk).
          dump_records (record s { files = files; disk = disk }) 0 (kv ∷ kvidxes) >>+ λ s1.
          at_once (
            insert_record fs unset s1.files s1.disk s1.manifester 0 kv.key (last_of kv kvidxes).key
              (length (kv ∷ kvidxes)))
          >>+ λ (listed, manifester). at_once (end_dumping fs listed s1.disk) >>+ λ (ended, closed).
              ok (some (record s1 { files = ended; disk = closed; manifester = manifester }))
