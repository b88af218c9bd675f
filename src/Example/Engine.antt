-- ===== src/Example/Engine.antt =====
-- engine_example/engine_example.cc, class EngineExample: `Write`, `Read` and `Range`, each under
-- the mutex of the engine and so one step.
pub mod Refine
pub mod Range
pub mod Open
pub mod Empty
use polardb_uncompleted.Base.{Bool, true, false, Option, none, some, List, [], ◌∷◌, ℕ}
use polardb_uncompleted.Disk.Files.{FileSystem, bytes_or_nil}
use polardb_uncompleted.Example.DataStore.{DataStore, append_value, read_value}
use polardb_uncompleted.Example.DoorPlate.{Location, no_location, DoorPlate, add_or_update, find}
use polardb_uncompleted.Example.DoorPlate.Locations.{Locations, get_range_location}
use polardb_uncompleted.Example.Util.{RetCode, succ}

pub record EngineExample : Type 0 where
  pub plate : DoorPlate
  pub store : DataStore

-- `ret == kSucc`
abbrev pub is_succ : RetCode → Bool
is_succ succ = true
is_succ _ = false

-- A `Location` that was written to, or the one of the constructor.
abbrev pub location_or_none : Option Location → Location
location_or_none none = no_location
location_or_none (some l) = l

-- The value is cleared before `DataStore::Read`.
abbrev pub cleared : Option (List ℕ) → Option (List ℕ)
cleared none = some []
cleared (some value) = some value

abbrev pub outcome : Option (RetCode × Option (List ℕ)) → Option (RetCode × Option (List ℕ))
outcome none = none
outcome (some (ret, value)) = some (ret, cleared value)

module _ (fs : FileSystem) where
  open fs use {Files}

  abbrev pub place_location :
      RetCode × Option Location × Files × DataStore
      → DoorPlate
      → List ℕ
      → RetCode × Files × EngineExample
  place_location (ret, location, files, store) items k = elim (is_succ ret) [
    | true ↦
        let (ret', items') = add_or_update items k (location_or_none location) in
        (ret', files, record { plate = items'; store = store })
    | false ↦ (ret, files, record { plate = items; store = store })
  ]

  unfoldable pub write_pair :
      Files → EngineExample → List ℕ → List ℕ → RetCode × Files × EngineExample
  write_pair files e key value = place_location (append_value fs files e.store value) e.plate key

  abbrev pub read_found :
      Files → DataStore → RetCode × Option Location → Option (RetCode × Option (List ℕ))
  read_found files store (ret, location) = elim (is_succ ret) [
    | true ↦ outcome (read_value fs files store (location_or_none location))
    | false ↦ some (ret, none)
  ]

  -- The return code, and the value if it was changed; `none` does not return.
  unfoldable pub read_pair : Files → EngineExample → List ℕ → Option (RetCode × Option (List ℕ))
  read_pair files e key = read_found files e.store (find e.plate key)

  abbrev pub visit_first :
      List ℕ
      → Option (List ℕ)
      → Option (RetCode × List (List ℕ × List ℕ))
      → Option (RetCode × List (List ℕ × List ℕ))
  visit_first key value none = none
  visit_first key value (some (ret, visits)) = some (ret, (key, bytes_or_nil value) ∷ visits)

  -- The for loop of `Range`: the last return code, and the calls of `Visit`.
  unfoldable pub visit_all :
      Files → DataStore → Locations → Option (RetCode × List (List ℕ × List ℕ))
  visit_all files store [] = some (succ, [])
  visit_all files store ((key, l) ∷ locations) = elim (read_value fs files store l) [
    | none ↦ none
    | some (ret, value) ↦ elim (is_succ ret) [
      | true ↦ visit_first key value (visit_all files store locations)
      | false ↦ some (ret, [])
    ]
  ]

  abbrev pub visit_range :
      Files → DataStore → RetCode × Locations → Option (RetCode × List (List ℕ × List ℕ))
  visit_range files store (ret, locations) = elim (is_succ ret) [
    | true ↦ visit_all files store locations
    | false ↦ some (ret, [])
  ]

  unfoldable pub range_pairs :
      Files → EngineExample → List ℕ → List ℕ → Option (RetCode × List (List ℕ × List ℕ))
  range_pairs files e lower upper =
      visit_range files e.store (get_range_location lower upper e.plate)
