-- ===== src/Example/Engine/Refine.antt =====
-- The engine of the example implements a map from keys to values.
use polardb_uncompleted.Base.{
  ℕ, ◌+◌, ◌^◌, ◌≤◌, ◌<◌, ◌≡◌, ◌≢◌, refl, ap, sym, subst, inl, inr, true, some, List, [], length,
  if◌then◌else◌, Bool-cases, arith,
}
use polardb_uncompleted.Disk.Files.{FileSystem, same_path as same_bytes}
use polardb_uncompleted.Example.DataStore.{single_file_size, read_value}
use polardb_uncompleted.Example.DataStore.Append as Store
use polardb_uncompleted.Example.DataStore.Append.{Stored, Keeps, read_stored}
use polardb_uncompleted.Example.DataStore.Written.{append_value-read_value}
use polardb_uncompleted.Example.DoorPlate.{
  Location, max_key_len, max_door_cnt, item_try_place, find,
}
use polardb_uncompleted.Example.DoorPlate.Update.{add_or_update-find_all}
use polardb_uncompleted.Example.DoorPlate.View as Plate
use polardb_uncompleted.Example.Engine.{EngineExample, write_pair, read_pair, outcome}
use polardb_uncompleted.Example.Util.{succ}

-- The table and the store are well formed, and the location of every item in use is stored.
pub record IsValid (fs : FileSystem) (files : fs.Files) (e : EngineExample) : Type 0 where
  pub plate : Plate.IsValid e.plate
  pub store : Store.IsValid fs files e.store
  pub linked : (p : ℕ) → (e.plate p).in_use ≢ 0 → Stored fs files e.store (e.plate p).location

-- What `Read` gives depends on what `Find` finds and on the bytes there.
pub read_kept :
    (fs : FileSystem) (files files' : fs.Files) (e e' : EngineExample) (q : List ℕ)
    → q ≢ []
    → IsValid fs files e
    → Keeps fs files e.store files' e'.store
    → find e'.plate q ≡ find e.plate q
    → read_pair fs files' e' q ≡ read_pair fs files e q
unfolding read_pair
read_kept fs files files' e e' q nil valid keeps same =
    elim (Plate.find_cases e.plate q valid.plate nil) [
      | inl (p, used, key, lt, at) ↦
          let bytes = keeps.same (e.plate p).location (valid.linked p used) in
          rw (same, at) (ap outcome bytes)
      | inr gone ↦ rw (same, gone) refl
    ]

read_new :
    (fs : FileSystem) (files' : fs.Files) (e' : EngineExample) (q value : List ℕ) (l : Location)
    → find e'.plate q ≡ (succ, some l)
    → read_value fs files' e'.store l ≡ some (succ, some value)
    → read_pair fs files' e' q ≡ some (succ, some value)
unfolding read_pair
read_new fs files' e' q value l at bytes = rw at (ap outcome bytes)

-- `Write` by what `Read` gives for every key.
pub write_pair-read_pair_all :
    (fs : FileSystem) (files : fs.Files) (e : EngineExample) (key value : List ℕ) (p : ℕ)
    → IsValid fs files e
    → length key ≤ max_key_len
    → length value ≤ single_file_size
    → e.store.next_location.file_no + 1 < 2 ^ 32
    → p < max_door_cnt
    → item_try_place (e.plate p) key ≡ true
    → (files' : fs.Files) × (e' : EngineExample) × (write_pair fs files e key value
        ≡ (succ, files', e'))
      × IsValid fs files' e'
      × ((q : List ℕ)
          → q ≢ []
          → read_pair fs files' e' q
            ≡ (if same_bytes q key then some (succ, some value) else read_pair fs files e q))
unfolding write_pair
write_pair-read_pair_all fs files e key value p valid short small more lt room =
    let (l, files', store', wrote, done) =
      append_value-read_value fs files e.store value valid.store small more in
    elim (add_or_update-find_all e.plate key l valid.plate) [
      | inl (long, _) ↦ absurd (omega arith)
      | inr (inl (taken, _)) ↦ absurd (cc (taken p lt, room))
      | inr (inr (_, items', placed, plate', carries, found)) ↦
          let e' : EngineExample = record { plate = items'; store = store' } in
          (
            files',
            e',
            rw (wrote, placed) refl,
            record {
              plate = plate';
              store = done.valid;
              linked = λ i used. elim (carries.from i used) [
                | inl new ↦ subst (Stored fs files' store') (sym new) done.stored
                | inr (old, same) ↦
                    subst (Stored fs files' store') (sym same)
                      (done.keeps.stored (e.plate i).location (valid.linked i old))
              ];
            },
            λ q nil. elim (Bool-cases (same_bytes q key)) [
              | inl same ↦
                  rw same (read_new fs files' e' q value l (rw same at (found q nil)) done.reads)
              | inr other ↦ rw other (
                  read_kept fs files files' e e' q nil valid done.keeps (rw other at (found q nil)))
            ],
          )
    ]

-- `Write` on a well-formed engine succeeds, when the key has 32 bytes at most, the value 100 MB at
-- most, the table has a place that is free or has the key, and the file numbers do not run out. The
-- engine stays well formed, `Read` of the key then gives the value, and `Read` of any other key
-- but the empty one gives what it gave before.
pub write_pair-read_pair :
    (fs : FileSystem) (files : fs.Files) (e : EngineExample) (key value : List ℕ) (p : ℕ)
    (q : List ℕ)
    → IsValid fs files e
    → length key ≤ max_key_len
    → length value ≤ single_file_size
    → e.store.next_location.file_no + 1 < 2 ^ 32
    → p < max_door_cnt
    → item_try_place (e.plate p) key ≡ true
    → q ≢ []
    → (files' : fs.Files) × (e' : EngineExample) × (write_pair fs files e key value
        ≡ (succ, files', e'))
      × IsValid fs files' e'
      × (read_pair fs files' e' q
          ≡ (if same_bytes q key then some (succ, some value) else read_pair fs files e q))
write_pair-read_pair fs files e key value p q valid short small more lt room nil =
    let (files', e', wrote, valid', reads) =
      write_pair-read_pair_all fs files e key value p valid short small more lt room in
    (files', e', wrote, valid', reads q nil)
