-- ===== src/DbSystem/Dumper.antt =====
-- engine_race/DBSystem/DBSystem.cpp, `MemTables::buffers_dumper`: one round of the dumper
-- thread, from the queue to the sorted file.
use polardb_uncompleted.Base.{
  ℕ, ◌<◌, ◌≡◌, refl, ap, Option, none, some, List, [], ◌∷◌, ltb, if◌then◌else◌,
}
use polardb_uncompleted.Base.Run.{Run, ok, undefined}
use polardb_uncompleted.DbSystem.Call.{◌>>+◌, at_once}
use polardb_uncompleted.DbSystem.Dump.{Dumping, dump_all}
use polardb_uncompleted.Disk.Files.{FileSystem}
use polardb_uncompleted.IndexHashMap.{KeyIdxPair}
use polardb_uncompleted.MemTables.Dumper.{int64_max, Pointer, dump_loop, dereference}
use polardb_uncompleted.MemTables.Pointers.{items_of}
use polardb_uncompleted.MemTables.Single.{OnlyHas, dump_loop-AllFrom, dereference-AllFrom}
use polardb_uncompleted.MemTables.Merge.{count, IsAscending, total, all}
use polardb_uncompleted.MemTables.Source.{Source, Front, skip_list, owned}
use polardb_uncompleted.MemTables.Tables.{Memtable, fronts, has_key, holders, dump_loop-holders}
use polardb_uncompleted.WaitQueue.{WaitQueue, wait_and_pop}

module _ (fs : FileSystem) (source : Source) where
  open source use {Table}

  -- `curr_writing`: the null pointer of `stop_working`, or lists to merge, at their addresses.
  -- `dump_all` reads through every pointer of `kvs` in its first step.
  unfoldable pub dump_taken :
      ℕ → List ℕ → Dumping fs → Option (List (ℕ × Table)) → Run (Option (Dumping fs))
  unfolding dereference ◌>>+◌
  dump_taken rounds unset s none = ok (some s)
  dump_taken rounds unset s (some curr_writing) =
      elim (dump_loop source rounds curr_writing [] []) [
        | none ↦ undefined
        | some (kvs, deleted) ↦
            at_once (dereference deleted kvs) >>+ λ records. dump_all fs unset s records
      ]

  dump_taken-dump_all :
      (rounds : ℕ) (unset : List ℕ) (s : Dumping fs) (curr_writing : List (ℕ × Table))
      (kvs : List Pointer) (deleted : List ℕ) (records : List KeyIdxPair)
      → dump_loop source rounds curr_writing [] [] ≡ some (kvs, deleted)
      → dereference deleted kvs ≡ ok records
      → dump_taken rounds unset s (some curr_writing) ≡ dump_all fs unset s records
  unfolding dump_taken ◌>>+◌
  dump_taken-dump_all rounds unset s curr_writing kvs deleted records merged safe =
      rw (dump_taken, merged) (rw safe refl)

  -- The body of `while(if_working)`, with the rounds of the inner loop.
  unfoldable pub dumper_round :
      ℕ
      → List ℕ
      → WaitQueue (Option (List (ℕ × Table)))
      → Dumping fs
      → Run (Option (WaitQueue (Option (List (ℕ × Table))) × Dumping fs))
  unfolding ◌>>+◌ wait_and_pop dump_taken
  dumper_round rounds unset queue s = ok (wait_and_pop queue) >>+ λ (curr_writing, rest).
      dump_taken rounds unset s curr_writing >>+ λ s'. ok (some (rest, s'))

-- A round of the dumper with well-formed skip lists at the front of the queue, of which only the one
-- at a given address may have records, takes them from the queue and is `dump_all` of records in
-- ascending order of their keys: for each key below INT64_MAX one record for each of the lists that
-- has it, and none for another key. The inner loop has more rounds than there are records.
pub dumper_round-dump_all :
    (fs : FileSystem) (rounds a : ℕ) (unset : List ℕ) (s : Dumping fs) (ts : List (ℕ × Memtable))
    (queue : WaitQueue (Option (List (ℕ × Front))))
    → OnlyHas skip_list a (fronts ts)
    → total (owned skip_list) all (fronts ts) < rounds
    → (records : List KeyIdxPair) × IsAscending records
      × ((k : ℕ) → count (has_key k) records ≡ (if ltb k int64_max then holders k ts else 0))
      × (dumper_round fs skip_list rounds unset (some (fronts ts) ∷ queue) s
          ≡ (dump_all fs unset s records >>+ λ s'. ok (some (queue, s'))))
unfolding dumper_round wait_and_pop ◌>>+◌
dumper_round-dump_all fs rounds a unset s ts queue only fuel =
    let (kvs, deleted, merged, ascending, counts) = dump_loop-holders rounds ts fuel in
    let (from, kept) =
      dump_loop-AllFrom skip_list rounds a (fronts ts) [] [] kvs deleted only tt refl merged in
    let safe = dereference-AllFrom a deleted kvs from kept in
    (
      items_of kvs,
      ascending,
      counts,
      ap (λ r. r >>+ λ s'. ok (some (queue, s')))
          (dump_taken-dump_all fs skip_list rounds unset s (fronts ts) kvs deleted (items_of kvs)
            merged safe),
    )
