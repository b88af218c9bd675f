-- ===== src/MemTables/Tables.antt =====
-- The dump of well-formed skip lists.
use polardb_uncompleted.Base.{
  ℕ, ◌+◌, ◌<◌, ◌≡◌, ◌≢◌, refl, ◌∙◌, inl, inr, Bool, true, ◌&&◌, Option, none, some, List, [], ◌∷◌,
  map, arith, ◌==◌, ltb, if◌then◌else◌, ℕ_discrete,
}
use polardb_uncompleted.Index.{Index}
use polardb_uncompleted.IndexHashMap.{KeyIdxPair}
use polardb_uncompleted.MemTables.Dumper.{int64_max, Pointer, dump_loop}
use polardb_uncompleted.MemTables.Merge.{count, below, IsAscending, total, AllAscending, all}
use polardb_uncompleted.MemTables.Pointers.{items_of as pointed, dump_loop-Merges}
use polardb_uncompleted.MemTables.Source.{Front, level_items, skip_list, owned}
use polardb_uncompleted.SkipList.{SkipList}
use polardb_uncompleted.SkipList.Chains.{has}
use polardb_uncompleted.SkipList.Levels.{Level}
use polardb_uncompleted.SkipList.Order.{Over, Ascends, Over-has}
use polardb_uncompleted.SkipList.Refine.{view, view-found, view-Missing, place_cases}
use polardb_uncompleted.SkipList.Walk.{key_at, IsValid}

-- A skip list that is well formed.
pub record Memtable : Type 0 where
  pub list : SkipList
  pub places : ℕ → List ℕ
  pub valid : IsValid list places

unfoldable pub front_of : Memtable → Front
front_of t = record {
  level = t.list.levels 0;
  xs = t.places 0;
  free = (t.valid.levels 0).free;
  split = (t.valid.levels 0).ready.split;
}

items_of : Level → List ℕ → List KeyIdxPair
items_of l xs = map (λ a. (l.nodes a).item) xs

none_below :
    (l : Level) (k : ℕ) (xs : List ℕ) → Over (key_at l) k xs → count (below k) (items_of l xs) ≡ 0
unfolding count items_of
none_below l k [] o = refl
none_below l k (x ∷ xs) o = ground (arith, none_below l k xs o.1, o.0)

items-IsAscending : (l : Level) (xs : List ℕ) → Ascends (key_at l) xs → IsAscending (items_of l xs)
unfolding items_of
items-IsAscending l [] s = tt
items-IsAscending l (x ∷ xs) s = (none_below l (key_at l x) xs s.0, items-IsAscending l xs s.1)

front_of-IsAscending : (t : Memtable) → IsAscending (level_items (front_of t))
unfolding front_of level_items items_of
front_of-IsAscending t = items-IsAscending (t.list.levels 0) (t.places 0) (t.valid.levels 0).ascends

abbrev pub has_key : ℕ → KeyIdxPair → Bool
has_key k x = x.key == k

key-never :
    (l : Level) (k : ℕ) (xs : List ℕ)
    → ((a : ℕ) → has a xs ≡ true → key_at l a ≢ k)
    → count (has_key k) (items_of l xs) ≡ 0
unfolding count items_of
key-never l k [] gone = refl
key-never l k (x ∷ xs) gone =
    ground (arith, key-never l k xs (λ a m. gone a (ground arith)), gone x (ground arith))

key-once :
    (l : Level) (k a : ℕ) (xs : List ℕ)
    → Ascends (key_at l) xs
    → has a xs ≡ true
    → key_at l a ≡ k
    → count (has_key k) (items_of l xs) ≡ 1
unfolding count items_of
key-once l k a [] s m e = cc
key-once l k a (x ∷ xs) s m e = elim (ℕ_discrete a x) [
  | yes at ↦
      let kx : key_at l x ≡ k = rw at at e in
      let rest =
        key-never l k xs (λ b mb eb. omega (arith, Over-has (key_at l) (key_at l x) b xs s.0 mb)) in
      ground (arith, rest)
  | no ne ↦
      let m' : has a xs ≡ true = ground arith in
      let lt = Over-has (key_at l) (key_at l x) a xs s.0 m' in
      ground (arith, key-once l k a xs s.1 m' e)
]

abbrev pub one_if : Option Index → ℕ
one_if none = 0
one_if (some i) = 1

-- How many of the lists have a word under a key.
unfoldable pub holders : ℕ → List (ℕ × Memtable) → ℕ
holders k [] = 0
holders k (t ∷ ts) = one_if (view t.1.list k) + holders k ts

count-view :
    (k : ℕ) (t : Memtable) → count (has_key k) (level_items (front_of t)) ≡ one_if (view t.list k)
unfolding front_of level_items
count-view k t = elim (place_cases t.list t.places k t.valid) [
  | inl (a, m, e) ↦ rw (view-found t.list t.places k t.valid a m e) (
      unfold items_of in key-once (t.list.levels 0) k a (t.places 0) (t.valid.levels 0).ascends m e)
  | inr gone ↦
      rw (view-Missing t.list t.places k t.valid gone)
        (unfold items_of in key-never (t.list.levels 0) k (t.places 0) gone)
]

-- Level 0 of the lists, with their addresses.
unfoldable pub fronts : List (ℕ × Memtable) → List (ℕ × Front)
fronts = map (λ (t : ℕ × Memtable). (t.0, front_of t.1))

fronts-AllAscending : (ts : List (ℕ × Memtable)) → AllAscending (owned skip_list) (fronts ts)
unfolding fronts
fronts-AllAscending [] = tt
fronts-AllAscending (t ∷ ts) = (front_of-IsAscending t.1, fronts-AllAscending ts)

count-below :
    (k m : ℕ) (xs : List KeyIdxPair)
    → count (λ x. below m x && has_key k x) xs ≡ (if ltb k m then count (has_key k) xs else 0)
unfolding count
count-below k m [] = ground arith
count-below k m (x ∷ xs) = ground (arith, count-below k m xs)

total-holders :
    (k : ℕ) (ts : List (ℕ × Memtable))
    → total (owned skip_list) (λ x. below int64_max x && has_key k x) (fronts ts)
      ≡ (if ltb k int64_max then holders k ts else 0)
unfolding total fronts holders
total-holders k [] = ground arith
total-holders k (t ∷ ts) = ground (
  arith,
  count-below k int64_max (level_items (front_of t.1)),
  count-view k t.1,
  total-holders k ts,
)

-- The while loop of the dumper on well-formed skip lists, with more rounds than they have records,
-- ends with pointers to records in ascending order of their keys: for each key below INT64_MAX as
-- many as there are lists in which `get` finds the key, and none for another key. Some of the
-- pointers may dangle then.
pub dump_loop-holders :
    (rounds : ℕ) (ts : List (ℕ × Memtable))
    → total (owned skip_list) all (fronts ts) < rounds
    → (kvs : List Pointer) × (deleted : List ℕ) × (dump_loop skip_list rounds (fronts ts) [] []
        ≡ some (kvs, deleted))
      × IsAscending (pointed kvs)
      × ((k : ℕ) → count (has_key k) (pointed kvs) ≡ (if ltb k int64_max then holders k ts else 0))
dump_loop-holders rounds ts fuel =
    let (kvs, deleted, result, merged) =
      dump_loop-Merges skip_list rounds (fronts ts) (fronts-AllAscending ts) fuel in
    (kvs, deleted, result, merged.ascending, λ k. merged.exact (has_key k) ∙ total-holders k ts)
