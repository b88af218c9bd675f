-- ===== src/Example/Engine/Open.antt =====
-- engine_example/engine_example.cc, `Open`: an engine that is opened on the files of another one.
use polardb_uncompleted.Base.{
  ℕ, ◌^◌, ◌≤◌, ◌<◌, ◌≡◌, ◌≢◌, refl, Bool, true, false, Option, none, some, List, [], length,
  if◌then◌else◌,
}
use polardb_uncompleted.Disk.Files.{FileSystem, FilePath}
use polardb_uncompleted.Example.DataStore.{
  DataStore, single_file_size, file_name, new_store, read_value,
}
use polardb_uncompleted.Example.DataStore.Append.{Stored, Keeps}
use polardb_uncompleted.Example.DataStore.Init.{init}
use polardb_uncompleted.Example.DataStore.Init.Restart.{Named, Listed, data_name, init-IsValid}
use polardb_uncompleted.Example.DoorPlate.{Location, DoorPlate, init_items}
use polardb_uncompleted.Example.Engine.{EngineExample, is_succ, read_pair}
use polardb_uncompleted.Example.Engine.Refine.{IsValid, read_kept}
use polardb_uncompleted.Example.Util.{RetCode, succ, io_error}
use polardb_uncompleted.Manifest.{decimal}

module _ (stoul : List ℕ → Option ℕ) (fs : FileSystem) where
  open fs use {Files}

  -- The end of `Open`, after the `Init` of the store.
  abbrev pub lock_engine :
      DoorPlate
      → Bool
      → Option (RetCode × Files × DataStore)
      → Option (RetCode × Files × Option EngineExample)
  lock_engine plate locks none = none
  lock_engine plate locks (some (ret, files, store)) = elim (is_succ ret) [
    | false ↦ some (ret, files, none)
    | true ↦
        if locks
        then some (succ, files, some (record { plate = plate; store = store }))
        else some (io_error, files, none)
  ]

  -- `meta` is what META maps, `names` what `GetDirFiles` gives, and `locks` tells whether `LockFile`
  -- succeeds. `none` throws, and an engine `none` is a null pointer.
  unfoldable pub open_engine :
      Files
      → FilePath
      → Option DoorPlate
      → Option (List (List ℕ))
      → Bool
      → Option (RetCode × Files × Option EngineExample)
  open_engine files name meta names locks =
      let (ret, plate) = init_items meta in
      elim (is_succ ret) [
        | false ↦ some (ret, files, none)
        | true ↦ lock_engine plate locks (init stoul fs files (new_store name) names)
      ]

module _ (fs : FileSystem) (files : fs.Files) (d : DataStore) where
  -- The bytes of a location depend on the directory only.
  new_store-Stored : (l : Location) → Stored fs files d l → Stored fs files (new_store d.dir) l
  new_store-Stored l z = record {
    number = z.number;
    bytes = z.bytes;
    content = z.content;
    fits = z.fits;
  }

  new_store-Keeps :
      (files' : fs.Files) (d' : DataStore)
      → Keeps fs files (new_store d.dir) files' d'
      → Keeps fs files d files' d'
  unfolding read_value
  new_store-Keeps files' d' keeps = record {
    stored = λ l z. keeps.stored l (new_store-Stored l z);
    same = λ l z. keeps.same l (new_store-Stored l z);
  }

-- `Open` of the directory of a well-formed engine, with the table that the engine left in META,
-- succeeds when the lock is free, and makes a well-formed engine on which `Read` of every key but the
-- empty one gives what it gave before. Here `std::stoul` reads what `std::to_string` writes, the
-- names of the directory that start with DATA_ are those of data files with numbers below 2 ^ 31,
-- every data file is listed, and none is longer than 100 MB.
pub open_engine-read_pair :
    (stoul : List ℕ → Option ℕ) (fs : FileSystem) (files : fs.Files) (e : EngineExample)
    (names : List (List ℕ)) (q : List ℕ)
    → ((n : ℕ) → n < 2 ^ 31 → stoul (decimal 20 n []) ≡ some n)
    → Named names
    → ((n : ℕ) (s : List ℕ)
        → n < 2 ^ 32
        → fs.content files (file_name e.store.dir n) ≡ some s
        → Listed (data_name n) names × (length s ≤ single_file_size))
    → IsValid fs files e
    → q ≢ []
    → (files' : fs.Files) × (e' : EngineExample) × (open_engine stoul fs files e.store.dir
          (some e.plate)
          (some names)
          true
        ≡ some (succ, files', some e'))
      × IsValid fs files' e'
      × (read_pair fs files' e' q ≡ read_pair fs files e q)
unfolding open_engine init_items
open_engine-read_pair stoul fs files e names q reads named listed valid nil =
    let (files', store', begun, store_valid, keeps) =
      init-IsValid stoul fs files (new_store e.store.dir) names reads named listed in
    let kept = new_store-Keeps fs files e.store files' store' keeps in
    let e' : EngineExample = record { plate = e.plate; store = store' } in
    (
      files',
      e',
      rw begun refl,
      record {
        plate = valid.plate;
        store = store_valid;
        linked = λ p used. kept.stored (e.plate p).location (valid.linked p used);
      },
      read_kept fs files files' e e' q nil valid kept refl,
    )
