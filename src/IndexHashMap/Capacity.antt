-- ===== src/IndexHashMap/Capacity.antt =====
-- When `update` finds room. The offsets of the visited slots are triangular numbers, which do not
-- reach every slot of a table of 68000000 slots.
use polardb_uncompleted.Base.{
  ℕ, zero, suc, ◌+◌, ◌%◌, ◌≤◌, ◌<◌, ◌≡◌, ◌⊎◌, inl, inr, Bool, true, false, arith, ◌==◌, ◌||◌,
  dec_lt, write,
}
use polardb_uncompleted.Base.Run.{ok, assertion_failed}
use polardb_uncompleted.Index.{Index}
use polardb_uncompleted.IndexHashMap.Hash.{hash_table_size, hash_key}
use polardb_uncompleted.IndexHashMap.Search.{triangle, visit}
use polardb_uncompleted.IndexHashMap.View.{search-IsFirst}
use polardb_uncompleted.IndexHashMap.{IndexHashMap, stops, search, stored, update}

module _ (m : IndexHashMap) (key : ℕ) (index : Index) where
  search-le : (c : ℕ) → stops m key (visit (hash_key key) c) ≡ true → (search m key).search_cnt ≤ c
  search-le c t = elim (dec_lt c (search m key).search_cnt) [
    | yes late ↦ cc (t, (search-IsFirst m key).passed c (omega arith) late)
    | no early ↦ omega arith
  ]

  -- If one of the slots that the probe sequence visits is free or holds the key, `update` returns,
  -- after no more conflicts than there are slots before it.
  pub update-total :
      (c : ℕ)
      → c < hash_table_size
      → stops m key (visit (hash_key key) c) ≡ true
      → (m' : IndexHashMap) × (cnt : ℕ) × (update m key index ≡ ok (m', cnt)) × (cnt ≤ c)
  unfolding update
  update-total c lt t =
      let r = search m key in
      let early = search-le c t in
      (write m r.entry (stored (m r.entry) key index), r.search_cnt, ground arith, early)

  update-out : (search m key).search_cnt ≡ hash_table_size → update m key index ≡ assertion_failed
  unfolding update
  update-out h = ground arith

-- Triangular numbers leave the remainders 0, 1 and 3 by 5.
triangle-mod : (c : ℕ) → (triangle c % 5 ≡ 0) ⊎ (triangle c % 5 ≡ 1) ⊎ (triangle c % 5 ≡ 3)
unfolding triangle
triangle-mod zero = omega arith
triangle-mod (suc zero) = omega arith
triangle-mod (suc (suc zero)) = omega arith
triangle-mod (suc (suc (suc zero))) = omega arith
triangle-mod (suc (suc (suc (suc zero)))) = omega arith
triangle-mod (suc (suc (suc (suc (suc c))))) = omega (arith, triangle-mod c)

-- The slots that the search for a key with the given home slot can visit.
abbrev pub reachable : ℕ → ℕ → Bool
reachable home p = (p % 5 == home % 5) || (p % 5 == (home + 1) % 5) || (p % 5 == (home + 3) % 5)

visit-reachable : (home c : ℕ) → reachable home (visit home c) ≡ true
unfolding visit
visit-reachable home c = ground (arith, triangle-mod c)

visit-lt : (home c : ℕ) → visit home c < hash_table_size
unfolding visit
visit-lt home c = omega arith

-- `update` fails its assertion as soon as the reachable slots of the table hold other keys, however
-- many of its other slots are free.
pub update-full :
    (m : IndexHashMap) (key : ℕ) (index : Index)
    → ((p : ℕ) → p < hash_table_size → reachable (hash_key key) p ≡ true → stops m key p ≡ false)
    → update m key index ≡ assertion_failed
update-full m key index taken = elim (search-IsFirst m key).ends [
  | inl (lt, at, t) ↦
      let miss =
        taken _ (visit-lt (hash_key key) (search m key).search_cnt)
          (visit-reachable (hash_key key) (search m key).search_cnt) in
      cc (t, miss, at)
  | inr out ↦ update-out m key index out
]
