-- ===== src/Example/DoorPlate.antt =====
-- engine_example/door_plate.cc, class DoorPlate: a hash table from keys to locations, in which a
-- conflict is dealt with by the next place. Strings are lists of bytes.
pub mod Probe
pub mod View
pub mod Update
pub mod Locations
pub mod Sorted
pub mod Ranges
use polardb_uncompleted.Base.{
  ℕ, zero, suc, ◌+◌, ◌-◌, ◌%◌, Bool, true, false, ◌&&◌, ◌||◌, not, Option, none, some, List, [],
  ◌∷◌, ◌++◌, length, replicate, ltb, leb, ◌==◌, if◌then◌else◌, write,
}
use polardb_uncompleted.Disk.Files.{same_path as same_bytes}
use polardb_uncompleted.Disk.Image.{take, drop}
use polardb_uncompleted.Example.Util.{RetCode, succ, invalid_argument, full, not_found, str_hash}

-- engine_example/data_store.h
pub record Location : Type 0 where
  pub file_no : ℕ
  pub offset : ℕ
  pub len : ℕ

-- `Location()`
abbrev pub no_location : Location
no_location = record { file_no = 0; offset = 0; len = 0 }

abbrev pub max_key_len : ℕ
max_key_len = 32

-- `key` is the array of 32 bytes.
pub record Item : Type 0 where
  pub location : Location
  pub key : List ℕ
  pub key_size : ℕ
  pub in_use : ℕ

abbrev pub max_door_cnt : ℕ
max_door_cnt = 33554432

-- `items_`
abbrev pub DoorPlate : Type 0
DoorPlate = ℕ → Item

-- A new file is filled with zeros.
unfoldable pub new : DoorPlate
new i = record { location = no_location; key = replicate max_key_len 0; key_size = 0; in_use = 0 }

-- `Init` by the items that the file META maps, `none` for a file that is made; the calls of the system
-- succeed.
unfoldable pub init_items : Option DoorPlate → RetCode × DoorPlate
init_items none = (succ, new)
init_items (some items) = (succ, items)

unfoldable pub item_key_match : Item → List ℕ → Bool
item_key_match item target =
    if not (length target == item.key_size)
    then false
    else same_bytes (take item.key_size item.key) target

unfoldable pub item_try_place : Item → List ℕ → Bool
unfolding item_key_match
item_try_place item target = if item.in_use == 0 then true else item_key_match item target

-- The loop of `CalcIndex` by the rounds left until `jcnt` is `kMaxDoorCnt`; `none` for -1.
unfoldable pub probe : (ℕ → Bool) → ℕ → ℕ → Option ℕ
probe test zero index = none
probe test (suc rounds) index = elim (test index) [
  | true ↦ some index
  | false ↦ probe test rounds ((index + 1) % max_door_cnt)
]

unfoldable pub calc_index : DoorPlate → List ℕ → Option ℕ
calc_index items key =
    probe (λ index. item_try_place (items index) key) max_door_cnt (str_hash key % max_door_cnt)

-- The item after `AddOrUpdate`.
unfoldable pub placed : Item → List ℕ → Location → Item
unfolding take drop
placed item k l =
    if item.in_use == 0
    then record {
      location = l;
      key = k ++ drop (length k) item.key;
      key_size = length k;
      in_use = 1;
    }
    else record item { location = l }

unfoldable pub add_or_update : DoorPlate → List ℕ → Location → RetCode × DoorPlate
add_or_update items key l =
    if ltb max_key_len (length key)
    then (invalid_argument, items)
    else (elim (calc_index items key) [
      | none ↦ (full, items)
      | some index ↦ (succ, write items index (placed (items index) key l))
    ])

-- The location is left as it is, `none`, when the key is not found.
unfoldable pub find : DoorPlate → List ℕ → RetCode × Option Location
find items key = elim (calc_index items key) [
  | none ↦ (not_found, none)
  | some index ↦
      if not (item_key_match (items index) key)
      then (not_found, none)
      else (succ, some (items index).location)
]
