-- ===== src/Example/DoorPlate/Locations.antt =====
-- engine_example/door_plate.cc, `GetRangeLocation`: the locations of a range of keys, in a
-- `std::map`, which is a list in ascending order of its keys here.
use polardb_uncompleted.Base.{
  ℕ, zero, suc, ◌+◌, Bool, true, false, not, ◌&&◌, ◌||◌, List, [], ◌∷◌, ltb, ◌==◌, if◌then◌else◌,
}
use polardb_uncompleted.Disk.Image.{take}
use polardb_uncompleted.Example.DoorPlate.{Location, Item, DoorPlate, max_door_cnt}
use polardb_uncompleted.Example.Util.{RetCode, succ, out_of_memory}

-- `<` on strings
unfoldable pub string_lt : List ℕ → List ℕ → Bool
string_lt a [] = false
string_lt [] (y ∷ b) = true
string_lt (x ∷ a) (y ∷ b) = if ltb x y then true else if ltb y x then false else string_lt a b

abbrev pub is_empty : List ℕ → Bool
is_empty [] = true
is_empty (x ∷ s) = false

unfoldable pub in_range : List ℕ → List ℕ → List ℕ → Bool
in_range lower upper key =
    (not (string_lt key lower) || is_empty lower) && (string_lt key upper || is_empty upper)

abbrev pub Locations : Type 0
Locations = List (List ℕ × Location)

-- `insert` leaves a key that is present as it is.
unfoldable pub insert_location : List ℕ → Location → Locations → Locations
insert_location k l [] = (k, l) ∷ []
insert_location k l ((j, w) ∷ m) =
    if string_lt k j
    then (k, l) ∷ (j, w) ∷ m
    else if string_lt j k
    then (j, w) ∷ insert_location k l m
    else (j, w) ∷ m

abbrev pub max_range_buf_count : ℕ
max_range_buf_count = max_door_cnt

module _ (lower upper : List ℕ) (items : DoorPlate) where
  -- The items that are not passed over.
  unfoldable pub wanted : Item → Bool
  wanted item =
      if item.in_use == 0 then false else in_range lower upper (take item.key_size item.key)

  -- The for loop from the last item down, by the items left.
  unfoldable pub range_loop : ℕ → ℕ → Locations → RetCode × Locations
  range_loop zero count locations = (succ, locations)
  range_loop (suc p) count locations = elim (wanted (items p)) [
    | false ↦ range_loop p count locations
    | true ↦
        let more : Locations =
          insert_location (take (items p).key_size (items p).key) (items p).location locations in
        elim (ltb max_range_buf_count (count + 1)) [
          | true ↦ (out_of_memory, more)
          | false ↦ range_loop p (count + 1) more
        ]
  ]

  unfoldable pub get_range_location : RetCode × Locations
  get_range_location = range_loop max_door_cnt 0 []
