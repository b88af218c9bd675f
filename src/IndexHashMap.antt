-- ===== src/IndexHashMap.antt =====
-- engine_race/DBSystem/Index.cpp, class IndexHashMap: an open-addressing table from keys to
-- status words. Entries are never removed.
pub mod Hash
pub mod Search
pub mod View
pub mod Refine
pub mod Capacity
pub mod Room
use Hash.{hash_table_size, hash_key}
use polardb_uncompleted.Base.{
  ℕ, zero, suc, ◌+◌, ◌%◌, ◌^◌, Bool, true, false, not, ◌||◌, Option, none, some, ltb, leb, ◌==◌,
  if◌then◌else◌, write,
}
use polardb_uncompleted.Base.Run.{Run, ok, assertion_failed}
use polardb_uncompleted.Index.{Index, new as new_index, if_valid, set_in_hash}

pub record KeyIdxPair : Type 0 where
  pub key : ℕ
  pub idx : Index

-- `KeyIdxPair data[HASH_TABLE_SIZE]`
abbrev pub IndexHashMap : Type 0
IndexHashMap = ℕ → KeyIdxPair

-- the constructor: `memset(data,0,…)`
unfoldable pub new : IndexHashMap
new entry = record { key = 0; idx = new_index }

abbrev pub is_free : KeyIdxPair → Bool
is_free p = if_valid p.idx == 0

-- The test that ends the search loop.
unfoldable pub stops : IndexHashMap → ℕ → ℕ → Bool
stops m key entry = is_free (m entry) || ((m entry).key == key)

-- `entry` and `search_cnt` after the loop
pub record Probe : Type 0 where
  pub entry : ℕ
  pub search_cnt : ℕ

-- The while loop that `update` and `get` share, by the rounds left until `search_cnt` is
-- `hash_table_size`.
unfoldable pub search_loop : (ℕ → Bool) → ℕ → ℕ → ℕ → Probe
search_loop test zero entry search_cnt = record { entry = entry; search_cnt = search_cnt }
search_loop test (suc rounds) entry search_cnt =
    let next : ℕ = (entry + search_cnt) % 2 ^ 32 % hash_table_size in
    elim (test next) [
      | true ↦ record { entry = next; search_cnt = search_cnt }
      | false ↦ search_loop test rounds next (suc search_cnt)
    ]

unfoldable pub search_from : ℕ → (ℕ → Bool) → Probe
search_from start test = search_loop test hash_table_size start 0

unfoldable pub search : IndexHashMap → ℕ → Probe
search m key = search_from (hash_key key) (stops m key)

-- the entry after `update` has stopped at it
unfoldable pub stored : KeyIdxPair → ℕ → Index → KeyIdxPair
stored old key index = record {
  key = if is_free old then key else old.key;
  idx = set_in_hash index true;
}

unfoldable pub update : IndexHashMap → ℕ → Index → Run (IndexHashMap × ℕ)
update m key index =
    let r = search m key in
    if ltb r.search_cnt hash_table_size
    then ok (write m r.entry (stored (m r.entry) key index), r.search_cnt)
    else assertion_failed

-- The entry that `*arg` points into, and `none` for -1.
unfoldable pub get : IndexHashMap → ℕ → Option ℕ
get m key =
    let r = search m key in
    if is_free (m r.entry) || leb hash_table_size r.search_cnt then none else some r.entry
