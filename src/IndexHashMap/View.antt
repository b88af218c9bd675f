-- ===== src/IndexHashMap/View.antt =====
-- What a table of class IndexHashMap holds, and when it is well formed.
use polardb_uncompleted.Base.{ℕ, ◌<◌, ◌≡◌, ◌⊎◌, inl, inr, true, false, Option, none, some, arith}
use polardb_uncompleted.Index.{Index, if_valid, if_in_hash}
use polardb_uncompleted.IndexHashMap.Hash.{hash_table_size, hash_key, hash_key-lt}
use polardb_uncompleted.IndexHashMap.Search.{IsFirst, search_from-IsFirst}
use polardb_uncompleted.IndexHashMap.{IndexHashMap, new, is_free, stops, search, get}

-- What a reader of the table finds under a key.
unfoldable pub view : IndexHashMap → ℕ → Option Index
view m key = elim (get m key) [ none ↦ none | some entry ↦ some (m entry).idx ]

-- Every entry in use is found by the search for its key, and has its `in_hash` bit set.
pub record IsValid (m : IndexHashMap) : Type 0 where
  pub placed :
      (p : ℕ)
      → is_free (m p) ≡ false
      → ((search m (m p).key).entry ≡ p) × ((search m (m p).key).search_cnt < hash_table_size)
  pub hashed : (p : ℕ) → is_free (m p) ≡ false → if_in_hash (m p).idx ≡ 0x200

module _ (m : IndexHashMap) (q : ℕ) where
  -- The search for a key ends at the first slot of its probe sequence that is free or holds the key,
  -- or after as many rounds as the table has slots.
  pub search-IsFirst : IsFirst (stops m q) (hash_key q) 0 hash_table_size (search m q)
  unfolding search
  search-IsFirst = search_from-IsFirst (stops m q) (hash_key q) (hash_key-lt q)

  -- The search has stopped at a slot, or it is out of rounds.
  pub search_cases :
      ((stops m q (search m q).entry ≡ true) × ((search m q).search_cnt < hash_table_size))
      ⊎ ((search m q).search_cnt ≡ hash_table_size)
  search_cases = elim search-IsFirst.ends [ inl (lt, at, t) ↦ inl (t, lt) | inr out ↦ inr out ]

  pub view_out : (search m q).search_cnt ≡ hash_table_size → view m q ≡ none
  unfolding view get
  view_out h = ground arith

  pub view_free : is_free (m (search m q).entry) ≡ true → view m q ≡ none
  unfolding view get
  view_free h = ground arith

  pub view_found :
      (search m q).search_cnt < hash_table_size
      → is_free (m (search m q).entry) ≡ false
      → view m q ≡ some (m (search m q).entry).idx
  unfolding view get
  view_found lt h = ground arith

pub new-IsValid : IsValid new
unfolding new if_valid
new-IsValid = record { placed = λ p h. cc; hashed = λ p h. cc }
