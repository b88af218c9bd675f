-- ===== src/Tests/Table.antt =====
-- The hash table at concrete keys.
use polardb_uncompleted.Base.{
  ℕ, ◌≤◌, ◌≡◌, refl, true, some, arith, ◌==◌, ◌<◌, ◌&&◌, ltb, false, if◌then◌else◌, write,
}
use polardb_uncompleted.Base.Run.{ok, assertion_failed}
use polardb_uncompleted.Index.{Index, set_in_hash, of_int, if_valid}
use polardb_uncompleted.Index.Fields.{Fields, encode}
use polardb_uncompleted.IndexHashMap.Hash.{hash_table_size, hash_key}
use polardb_uncompleted.IndexHashMap.Search.{IsFirst, visit}
use polardb_uncompleted.IndexHashMap.View.{view, IsValid, new-IsValid, search-IsFirst}
use polardb_uncompleted.IndexHashMap.Refine.{update-Writes}
use polardb_uncompleted.IndexHashMap.Capacity.{reachable, update-total, update-full}
use polardb_uncompleted.IndexHashMap.{
  IndexHashMap, new, stored, update, search, search_from, search_loop, stops,
}
use polardb_uncompleted.Indexer.{set_if_writing, get_if_writing}
use polardb_uncompleted.Indexer.Writing.{set_if_writing-Writes}

-- Agrees with the C++ function.
hash_one : hash_key 1 ≡ 51007571
unfolding hash_key
hash_one = refl

abbrev one_entry : IndexHashMap
one_entry = write new 51007571 (stored (new 51007571) 1 (of_int 5))

update_one : update new 1 (of_int 5) ≡ ok (one_entry, 0)
unfolding update search search_from search_loop stops hash_key new if_valid
update_one = refl

abbrev written : Index
written = set_in_hash (of_int 5) true

update-Writes_example :
    IsValid one_entry × ((q : ℕ) → view one_entry q ≡ (if q == 1 then some written else view new q))
update-Writes_example = update-Writes new 1 (of_int 5) new-IsValid one_entry 0 update_one

one_entry-IsValid : IsValid one_entry
one_entry-IsValid = (update-Writes new 1 (of_int 5) new-IsValid one_entry 0 update_one).0

view_one : view one_entry 1 ≡ some written
unfolding view new if_valid
view_one = (update-Writes new 1 (of_int 5) new-IsValid one_entry 0 update_one).1 1

search-IsFirst_example :
    IsFirst (stops one_entry 1) (hash_key 1) 0 hash_table_size (search one_entry 1)
search-IsFirst_example = search-IsFirst one_entry 1

home_free : stops new 1 (visit (hash_key 1) 0) ≡ true
unfolding stops new if_valid
home_free = refl

update-total_example :
    (m' : IndexHashMap) × (cnt : ℕ) × (update new 1 (of_int 5) ≡ ok (m', cnt)) × (cnt ≤ 0)
update-total_example = update-total new 1 (of_int 5) 0 (omega arith) home_free

-- Every slot of the table that key 1 can reach holds key 2; two slots of five are free.
abbrev crowded : IndexHashMap
crowded p =
    if ltb p hash_table_size && reachable 51007571 p
    then record { key = 2; idx = record { status = 0x200 } }
    else new p

crowded-taken :
    (p : ℕ) → p < hash_table_size → reachable (hash_key 1) p ≡ true → stops crowded 1 p ≡ false
unfolding stops if_valid
crowded-taken p lt r =
    let r' : reachable 51007571 p ≡ true = rw hash_one at r in
    let inside : ltb p hash_table_size ≡ true = ground arith in rw (inside, r') refl

update-full_example : update crowded 1 (of_int 5) ≡ assertion_failed
update-full_example = update-full crowded 1 (of_int 5) crowded-taken

-- The word of a dumped record, in place 5 of a sorted file.
abbrev in_sorted_file : Fields
in_sorted_file = record {
  idx = 5;
  reserved = false;
  writing = false;
  in_hash = true;
  in_file = true;
  fid = 0;
}

abbrev dumped_entry : IndexHashMap
dumped_entry = write new 51007571 (record { key = 1; idx = encode in_sorted_file })

update_dumped : update new 1 (record { status = 0x5100 }) ≡ ok (dumped_entry, 0)
unfolding update search search_from search_loop stops hash_key new if_valid encode set_in_hash
    stored
update_dumped = refl

view_dumped : view dumped_entry 1 ≡ some (encode in_sorted_file)
unfolding view new if_valid encode set_in_hash
view_dumped =
    (update-Writes new 1 (record { status = 0x5100 }) new-IsValid dumped_entry 0 update_dumped).1 1

set_if_writing-Writes_example :
    (m' : IndexHashMap) × (set_if_writing dumped_entry 1 false ≡ ok m')
    × IsValid m'
    × ((q : ℕ)
        → view m' q ≡ (
            if q == 1
            then some (encode (record in_sorted_file { in_file = false }))
            else view dumped_entry q))
    × (get_if_writing m' 1 ≡ ok false)
set_if_writing-Writes_example =
    set_if_writing-Writes dumped_entry 1 false in_sorted_file
      (update-Writes new 1 (record { status = 0x5100 }) new-IsValid dumped_entry 0 update_dumped).0
      (record { idx = omega arith; fid = omega arith }) view_dumped
