-- ===== src/Tests/Maps.antt =====
-- A skip list that gets a key.
use polardb_uncompleted.Base.{ℕ, ◌≡◌, some, List, [], ◌==◌, if◌then◌else◌, arith}
use polardb_uncompleted.Base.Run.{ok}
use polardb_uncompleted.Index.{of_int}
use polardb_uncompleted.SkipList.{SkipList, new, update, get}
use polardb_uncompleted.SkipList.Map.{written, update-Writes_map}
use polardb_uncompleted.SkipList.Refine.{view}
use polardb_uncompleted.SkipList.Walk.{IsValid, new-IsValid}

abbrev nowhere : ℕ → List ℕ
nowhere i = []

update-Writes_map_example :
    (s' : SkipList) × (xs' : ℕ → List ℕ) × (n : ℕ) × (update (new 5) 7 (of_int 3) 2 ≡ ok (s', n))
    × IsValid s' xs'
    × ((get s' 7).0 ≡ some n)
    × (s'.id ≡ 5)
    × ((q : ℕ)
        → view s' q
          ≡ (if q == 7 then some (written (view (new 5) 7) (of_int 3) 5) else view (new 5) q))
unfolding new
update-Writes_map_example =
    update-Writes_map (new 5) nowhere 7 (of_int 3) 2 (new-IsValid 5) (omega arith) (omega arith)
