-- ===== src/MemTables/Pointers.antt =====
-- The while loop of the dumper with its pointers.
use polardb_uncompleted.Base.{
  ℕ, zero, suc, ◌<◌, ◌≡◌, refl, ap, inl, inr, Option, none, some, List, [], ◌∷◌, ◌++◌, map,
  Option-cases,
}
use polardb_uncompleted.IndexHashMap.{KeyIdxPair}
use polardb_uncompleted.MemTables.Dumper.{
  start, scan, pop_at, Pointer, owner_at, erase_if, dump_loop,
}
use polardb_uncompleted.MemTables.Merge.{total, AllAscending, all}
use polardb_uncompleted.MemTables.Rounds.{without, merge_loop, Merged, merge_loop-Merges}
use polardb_uncompleted.MemTables.Source.{Source, owned}

abbrev pub items_of : List Pointer → List KeyIdxPair
items_of = map (λ (p : Pointer). p.item)

items_of-append :
    (kvs : List Pointer) (p : Pointer) → items_of (kvs ++ p ∷ []) ≡ items_of kvs ++ p.item ∷ []
items_of-append [] p = refl
items_of-append (q ∷ kvs) p = ap (λ xs. q.item ∷ xs) (items_of-append kvs p)

module _ (source : Source) where
  open source use {Table}

  erase_if-without :
      (e : Option ℕ) (ts : List (ℕ × Table)) (deleted : List ℕ)
      → (erase_if source e ts deleted).0 ≡ without (owned source) e ts
  unfolding erase_if without
  erase_if-without none ts deleted = refl
  erase_if-without (some i) ts deleted = refl

  -- What the pointers lead to is what the loop gathers without pointers.
  dump_loop-merge_loop :
      (rounds : ℕ) (ts : List (ℕ × Table)) (kvs : List Pointer) (deleted : List ℕ)
      (out : List KeyIdxPair)
      → merge_loop (owned source) rounds ts (items_of kvs) ≡ some out
      → (ps : List Pointer) × (deleted' : List ℕ) × (dump_loop source rounds ts kvs deleted
          ≡ some (ps, deleted'))
        × (items_of ps ≡ out)
  unfolding dump_loop merge_loop
  dump_loop-merge_loop zero ts kvs deleted out h = absurd cc
  dump_loop-merge_loop (suc rounds) ts kvs deleted out h =
      let st = scan (owned source) 0 ts start in
      elim (Option-cases st.min_iter) [
        | inl ended ↦
            let h' = rw (merge_loop, ended) at h in
            let e : items_of kvs ≡ out = cc in (kvs, deleted, rw (ended, dump_loop) refl, e)
        | inr (i, at) ↦ elim (Option-cases (pop_at (owned source) i ts).0) [
          | inl null ↦ let h' = rw (merge_loop, at, null) at h in absurd cc
          | inr (x, popping) ↦
              let popped = (pop_at (owned source) i ts).1 in
              let p : Pointer = record { owner = owner_at source i ts; item = x } in
              let h' = rw (merge_loop, at, popping) at h in
              let same = erase_if-without st.erase popped deleted in
              let (ps, deleted', done, e) =
                dump_loop-merge_loop rounds (erase_if source st.erase popped deleted).0
                  (kvs ++ p ∷ []) (erase_if source st.erase popped deleted).1 out
                  (rw (same, items_of-append kvs p) h') in
              (ps, deleted', rw (dump_loop, at, popping) done, e)
        ]
      ]

  -- From lists in ascending order, and with more rounds than there are records, the loop ends with
  -- pointers to records in ascending order of their keys, which are exactly the lists' records with a
  -- key below INT64_MAX, each as often as they hold it; some of the pointers may dangle then.
  pub dump_loop-Merges :
      (rounds : ℕ) (ts : List (ℕ × Table))
      → AllAscending (owned source) ts
      → total (owned source) all ts < rounds
      → (kvs : List Pointer) × (deleted : List ℕ) × (dump_loop source rounds ts [] []
          ≡ some (kvs, deleted))
        × Merged (owned source) ts (items_of kvs)
  dump_loop-Merges rounds ts s fuel =
      let (out, done, merged) = merge_loop-Merges (owned source) rounds ts [] s fuel in
      let (kvs, deleted, gathered, same) = dump_loop-merge_loop rounds ts [] [] out done in
      (kvs, deleted, gathered, rw same merged)
