-- ===== src/Tests/Dumper.antt =====
-- A round of the dumper on two lists, of which one has a key.
use polardb_uncompleted.Base.{
  ℕ, suc, ◌≡◌, refl, inl, none, some, List, [], ◌∷◌, ltb, if◌then◌else◌, arith,
}
use polardb_uncompleted.Base.Run.{ok}
use polardb_uncompleted.Buffer as Slots
use polardb_uncompleted.DbSystem.Call.{◌>>+◌}
use polardb_uncompleted.DbSystem.Dump.{Dumping, dump_all}
use polardb_uncompleted.DbSystem.Dumper.{dumper_round, dumper_round-dump_all}
use polardb_uncompleted.Disk as Manager
use polardb_uncompleted.Disk.Files.{in_memory}
use polardb_uncompleted.Index.{of_int}
use polardb_uncompleted.IndexHashMap as Table
use polardb_uncompleted.IndexHashMap.{KeyIdxPair}
use polardb_uncompleted.MemTables.Dumper.{int64_max}
use polardb_uncompleted.MemTables.Merge.{IsAscending, total, all, count}
use polardb_uncompleted.MemTables.Source.{skip_list, owned, level_items}
use polardb_uncompleted.MemTables.Single.{OnlyHas}
use polardb_uncompleted.MemTables.Tables.{Memtable, fronts, front_of, has_key, holders}
use polardb_uncompleted.SkipList.{SkipList, new}
use polardb_uncompleted.SkipList.Map.{update-Writes_map}
use polardb_uncompleted.SkipList.Walk.{IsValid, new-IsValid}

abbrev with_seven : (s' : SkipList) × (xs' : ℕ → List ℕ) × IsValid s' xs'
with_seven =
    let (s', xs', n, updated, valid, found, same, seen) =
      update-Writes_map (new 5) (λ i. []) 7 (of_int 3) 2 (new-IsValid 5) (omega arith)
        (omega arith) in
    (s', xs', valid)

abbrev submitted : List (ℕ × Memtable)
submitted =
    (64, record { list = with_seven.0; places = with_seven.1; valid = with_seven.2 })
    ∷ (128, record { list = new 6; places = λ i. []; valid = new-IsValid 6 })
    ∷ []

abbrev rounds : ℕ
rounds = suc (total (owned skip_list) all (fronts submitted))

abbrev before : Dumping in_memory
before = record {
  buffer = Slots.new;
  hash_table = Table.new;
  files = λ p. none;
  disk = Manager.new (b'd' ∷ []);
  manifester = record { all_records = []; record_cnt = λ lvl. 0 };
}

only_seven : OnlyHas skip_list 64 (fronts submitted)
unfolding fronts front_of level_items
only_seven = inl (refl, ((λ e. absurd (omega (arith, e))), refl, tt))

dumper_round-dump_all_example :
    (records : List KeyIdxPair) × IsAscending records
    × ((k : ℕ) → count (has_key k) records ≡ (if ltb k int64_max then holders k submitted else 0))
    × (dumper_round in_memory skip_list rounds [] (some (fronts submitted) ∷ []) before
        ≡ (dump_all in_memory [] before records >>+ λ s'. ok (some ([], s'))))
dumper_round-dump_all_example =
    dumper_round-dump_all in_memory rounds 64 [] before submitted [] only_seven (omega arith)
