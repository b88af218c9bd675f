-- ===== src/MemTables/Current.antt =====
-- `get_memtable` and `get_total_items` of class MemTables: the skip lists that threads write to.
use polardb_uncompleted.Base.{
  ℕ, zero, suc, ◌+◌, Option, none, some, List, [], ◌∷◌, ◌==◌, if◌then◌else◌, length, get_elem?, set,
}
use polardb_uncompleted.SkipList.{SkipList, try_lock, cnt_ns}

-- The loop of `get_memtable` from a position on, for so many tries; `none` when no try took a lock.
-- The list must not be empty.
unfoldable pub spin : ℕ → ℕ → List SkipList → Option (ℕ × List SkipList)
spin zero iter tables = none
spin (suc tries) iter tables = elim (get_elem? tables iter) [
  | none ↦ none
  | some table ↦
      let (locked, tried) = try_lock table in
      let after = set tables iter tried in
      let next : ℕ = if iter + 1 == length tables then 0 else iter + 1 in
      let rest = spin tries next after in if locked then some (iter, after) else rest
]

unfoldable pub get_memtable : ℕ → List SkipList → Option (ℕ × List SkipList)
unfolding spin
get_memtable tries tables = spin tries 0 tables

unfoldable pub get_total_items : List SkipList → ℕ
get_total_items [] = 0
get_total_items (t ∷ tables) = cnt_ns t + get_total_items tables
