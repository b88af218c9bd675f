-- ===== src/Tests/Example.antt =====
-- A key and its value in an empty engine of the example, in files in memory.
use polardb_uncompleted.Base.{
  ℕ, ◌^◌, ◌≤◌, ◌<◌, ◌≡◌, ◌≢◌, refl, ap, ◌∙◌, sym, ◌⊎◌, inl, inr, true, false, Option, none, some,
  List, [], ◌∷◌, length, if◌then◌else◌, arith, ℕ_discrete,
}
use polardb_uncompleted.Disk.Files.{FilePath, in_memory, same_path}
use polardb_uncompleted.Disk.Paths.{same_path_self, other_path}
use polardb_uncompleted.Example.DataStore.{DataStore, file_name, append_value}
use polardb_uncompleted.Example.DataStore.Append as Store
use polardb_uncompleted.Example.DataStore.Init.Restart.{Listed, data_name}
use polardb_uncompleted.Example.DataStore.Name.{file_name-ne, number, number-decimal_word}
use polardb_uncompleted.Example.DataStore.Written.{Appended, append_value-read_value}
use polardb_uncompleted.Example.DoorPlate.{
  Location, no_location, DoorPlate, max_key_len, max_door_cnt, item_try_place, add_or_update, find,
  new,
}
use polardb_uncompleted.Example.DoorPlate.Locations.{in_range}
use polardb_uncompleted.Example.DoorPlate.Sorted.{Ascends, lookup}
use polardb_uncompleted.Example.DoorPlate.Update.{Carries, add_or_update-find}
use polardb_uncompleted.Example.DoorPlate.View as Plate
use polardb_uncompleted.Example.DoorPlate.View.{try_free}
use polardb_uncompleted.Example.Engine.{EngineExample, write_pair, read_pair, range_pairs}
use polardb_uncompleted.Example.Engine.Empty.{read_pair-nil}
use polardb_uncompleted.Example.Engine.Open.{open_engine, open_engine-read_pair}
use polardb_uncompleted.Example.Engine.Range.{value_of, range_pairs-read_pair}
use polardb_uncompleted.Example.Engine.Refine.{
  IsValid, write_pair-read_pair, write_pair-read_pair_all,
}
use polardb_uncompleted.Example.Util.{succ, full, invalid_argument}

abbrev dir : FilePath
dir = b'd' ∷ []

abbrev files : FilePath → Option (List ℕ)
files p = if same_path p (file_name dir 0) then some [] else none

abbrev store : DataStore
store = record { fd = some (file_name dir 0); dir = dir; next_location = no_location }

first_file : files (file_name dir 0) ≡ some []
first_file = rw (same_path_self (file_name dir 0)) refl

no_other : (n : ℕ) → n ≢ 0 → n < 2 ^ 32 → files (file_name dir n) ≡ none
no_other n ne h =
    rw (other_path (file_name dir n) (file_name dir 0) (file_name-ne dir n 0 h (omega arith) ne))
      refl

store-IsValid : Store.IsValid in_memory files store
store-IsValid = record {
  fd = refl;
  number = omega arith;
  bytes = [];
  content = first_file;
  end = refl;
  bound = omega arith;
  later = λ n above h. no_other n (λ e. omega (arith, e, above)) h;
}

abbrev engine : EngineExample
engine = record { plate = new; store = store }

engine-IsValid : IsValid in_memory files engine
unfolding new
engine-IsValid = record {
  plate = Plate.new-IsValid;
  store = store-IsValid;
  linked = λ p used. absurd (used refl);
}

abbrev key : List ℕ
key = b'k' ∷ []

abbrev value : List ℕ
value = 7 ∷ 8 ∷ []

free_place : item_try_place (new 0) key ≡ true
unfolding new
free_place = try_free (new 0) key refl

write_pair-read_pair_example :
    (files' : FilePath → Option (List ℕ)) × (e' : EngineExample) × (write_pair in_memory files
        engine key value
      ≡ (succ, files', e'))
    × IsValid in_memory files' e'
    × (read_pair in_memory files' e' key ≡ (
        if same_path key key
        then some (succ, some value)
        else read_pair in_memory files engine key))
write_pair-read_pair_example =
    write_pair-read_pair in_memory files engine key value 0 key engine-IsValid (omega arith)
      (omega arith) (omega arith) (omega arith) free_place (λ e. cc)

-- An engine that holds the key.
holds_key :
    (files' : FilePath → Option (List ℕ)) × (e' : EngineExample) × (write_pair in_memory files
        engine key value
      ≡ (succ, files', e'))
    × IsValid in_memory files' e'
holds_key =
    let (files', e', wrote, valid, reads) =
      write_pair-read_pair_all in_memory files engine key value 0 engine-IsValid (omega arith)
        (omega arith) (omega arith) (omega arith) free_place in
    (files', e', wrote, valid)

range_pairs-read_pair_example :
    (visits : List (List ℕ × List ℕ)) × (range_pairs in_memory holds_key.0 holds_key.1 key []
      ≡ some (succ, visits))
    × Ascends visits
    × (lookup key visits ≡ (
        if in_range key [] key
        then value_of (read_pair in_memory holds_key.0 holds_key.1 key)
        else none))
range_pairs-read_pair_example =
    range_pairs-read_pair in_memory holds_key.0 holds_key.1 key [] key holds_key.3 (λ e. cc)

add_or_update-find_example :
    ((max_key_len < length key) × (add_or_update new key no_location ≡ (invalid_argument, new)))
    ⊎ (((p : ℕ) → p < max_door_cnt → item_try_place (new p) key ≡ false)
        × (add_or_update new key no_location ≡ (full, new)))
    ⊎ ((length key ≤ max_key_len)
        × (items' : DoorPlate) × (add_or_update new key no_location ≡ (succ, items'))
        × Plate.IsValid items'
        × Carries new no_location items'
        × (find items' key
            ≡ (if same_path key key then (succ, some no_location) else find new key)))
add_or_update-find_example = add_or_update-find new key no_location key Plate.new-IsValid (λ e. cc)

append_value-read_value_example :
    (l : Location) × (files' : FilePath → Option (List ℕ)) × (d' : DataStore) × (append_value
        in_memory files store value
      ≡ (succ, some l, files', d'))
    × Appended in_memory files store value l files' d'
append_value-read_value_example =
    append_value-read_value in_memory files store value store-IsValid (omega arith) (omega arith)

abbrev stoul : List ℕ → Option ℕ
stoul s = some (number 0 s)

listed :
    (n : ℕ) (s : List ℕ)
    → n < 2 ^ 32
    → files (file_name dir n) ≡ some s
    → Listed (data_name n) (data_name 0 ∷ []) × (length s ≤ 104857600)
listed n s h at = elim (ℕ_discrete n 0) [
  | no ne ↦ absurd (cc (at, no_other n ne h))
  | yes e ↦
      let at0 : files (file_name dir 0) ≡ some s = ap (λ m. files (file_name dir m)) (sym e) ∙ at in
      let nil : [] ≡ s = cc (at0, first_file) in (inl (ap data_name e), rw (← nil) (omega arith))
]

open_engine-read_pair_example :
    (files' : FilePath → Option (List ℕ)) × (e' : EngineExample) × (open_engine stoul in_memory
        files dir
        (some new)
        (some (data_name 0 ∷ []))
        true
      ≡ some (succ, files', some e'))
    × IsValid in_memory files' e'
    × (read_pair in_memory files' e' key ≡ read_pair in_memory files engine key)
open_engine-read_pair_example =
    open_engine-read_pair stoul in_memory files engine (data_name 0 ∷ []) key
      (λ n h. ap some (number-decimal_word n (omega arith))) (inr (0, omega arith, refl), tt) listed
      engine-IsValid (λ e. cc)

read_pair-nil_example : read_pair in_memory files engine [] ≡ some (succ, some [])
unfolding new
read_pair-nil_example =
    read_pair-nil in_memory files engine 0 [] Plate.new-IsValid (λ j used. absurd (used refl))
      (omega arith) refl first_file
