-- ===== src/Tests/Lists.antt =====
-- Levels of skip lists, and the dumper on two of them, at concrete contents.
use polardb_uncompleted.Base.{
  none, some, ℕ, ◌<◌, ◌≡◌, refl, List, [], ◌∷◌, ◌==◌, if◌then◌else◌, arith, write, inl,
}
use polardb_uncompleted.Base.Run.{ok}
use polardb_uncompleted.Index.{of_int}
use polardb_uncompleted.SkipList.Levels.{Level, new_node, check_and_resize, insert_after}
use polardb_uncompleted.SkipList.Chains.{IsSplit}
use polardb_uncompleted.SkipList.Resize.{IsReady, check_and_resize-IsReady}
use polardb_uncompleted.SkipList.Insert.{Inserts, insert_after-Inserts}
use polardb_uncompleted.SkipList.Pop.{Pops, pop-Pops}
use polardb_uncompleted.SkipList.Height.{IsHeight, get_insert_height-IsHeight}
use polardb_uncompleted.SkipList.{skip_list_max_height, get_insert_height}
use polardb_uncompleted.MemTables.Source.{Front, skip_list, owned, level_items}
use polardb_uncompleted.MemTables.Merge.{AllAscending, total, all, count}
use polardb_uncompleted.Buffer as Slots
use polardb_uncompleted.Disk as Manager
use polardb_uncompleted.Disk.Files.{in_memory}
use polardb_uncompleted.IndexHashMap as Table
use polardb_uncompleted.DbSystem.Dump.{Dumping}
use polardb_uncompleted.MemTables.Dumper.{Pointer, dump_loop}
use polardb_uncompleted.MemTables.Pointers.{items_of, dump_loop-Merges}
use polardb_uncompleted.MemTables.Rounds.{Merged}

-- One unused node.
abbrev one_left : Level
one_left = record {
  nodes = write (λ i. new_node) 0 (record new_node { bottom = 1 });
  size = 2;
  capacity = 1;
}

one_left-IsReady : IsReady one_left [] (1 ∷ [])
unfolding write
one_left-IsReady = record {
  split = record {
    used = refl;
    unused = (refl, omega arith, omega arith, refl, refl);
    apart = λ a m. cc;
  };
  counted = refl;
  total = refl;
  room = omega arith;
}

-- The insertion takes the last unused node, and the level grows.
insert_after-Inserts_example :
    (l' : Level) × (n : ℕ) × (insert_after 7 (of_int 3) one_left 0 ≡ ok (l', n))
    × Inserts one_left [] 0 (record { key = 7; idx = of_int 3 }) l' n
insert_after-Inserts_example =
    insert_after-Inserts 7 (of_int 3) one_left 0 [] (1 ∷ []) one_left-IsReady (inl refl)

-- One element and no unused node.
abbrev single : ℕ → Level
single key = record {
  nodes =
      write (write (λ i. new_node) 0 (record new_node { next = 1 })) 1
        (record new_node { item = record { key = key; idx = of_int 3 } });
  size = 2;
  capacity = 0;
}

single-IsSplit : (key : ℕ) → IsSplit (single key) (1 ∷ []) []
unfolding write
single-IsSplit key = record {
  used = (refl, omega arith, omega arith, refl, refl);
  unused = refl;
  apart = λ a m. refl;
}

check_and_resize-IsReady_example :
    (free' : List ℕ) × IsReady (check_and_resize (single 7)) (1 ∷ []) free'
    × ((a : ℕ) → a < 2 → ((check_and_resize (single 7)).nodes a).item ≡ ((single 7).nodes a).item)
check_and_resize-IsReady_example =
    check_and_resize-IsReady (single 7) (1 ∷ []) [] (single-IsSplit 7) refl refl

pop-Pops_example : Pops (single 7) (1 ∷ []) []
pop-Pops_example = pop-Pops (single 7) (1 ∷ []) [] (single-IsSplit 7)

-- Calls of `random()` that return 4, 4 and then 5.
abbrev random : ℕ → ℕ
random i = if i == 2 then 5 else 4

get_insert_height-IsHeight_example :
    IsHeight random 1 skip_list_max_height (get_insert_height random)
get_insert_height-IsHeight_example = get_insert_height-IsHeight random

height_three : get_insert_height random ≡ 3
unfolding get_insert_height
height_three = refl

abbrev table : ℕ → Front
table key = record { level = single key; xs = 1 ∷ []; free = []; split = single-IsSplit key }

-- Two lists at their addresses.
abbrev two_tables : List (ℕ × Front)
two_tables = (64, table 4) ∷ (128, table 3) ∷ []

ascending : AllAscending (owned skip_list) two_tables
unfolding level_items count
ascending = ((refl, tt), ((refl, tt), tt))

fuel : total (owned skip_list) all two_tables < 3
unfolding level_items count total
fuel = omega arith

dump_loop-Merges_example :
    (kvs : List Pointer) × (deleted : List ℕ) × (dump_loop skip_list 3 two_tables [] []
      ≡ some (kvs, deleted))
    × Merged (owned skip_list) two_tables (items_of kvs)
dump_loop-Merges_example = dump_loop-Merges skip_list 3 two_tables ascending fuel

abbrev before : Dumping in_memory
before = record {
  buffer = Slots.new;
  hash_table = Table.new;
  files = λ p. none;
  disk = Manager.new (b'd' ∷ []);
  manifester = record { all_records = []; record_cnt = λ lvl. 0 };
}
