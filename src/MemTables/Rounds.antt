-- ===== src/MemTables/Rounds.antt =====
-- The while loop of the dumper on lists that are never deleted: the merge of lists in ascending
-- order.
use polardb_uncompleted.Base.{
  ℕ, zero, suc, ◌+◌, ◌<◌, ◌≡◌, sym, ap, ◌∙◌, inl, inr, Bool, ◌&&◌, Option, none, some, List, [],
  ◌∷◌, ◌++◌, arith, if◌then◌else◌, get_elem?,
}
use mathlib.Core.List.{append-nil, append_assoc}
use polardb_uncompleted.IndexHashMap.{KeyIdxPair}
use polardb_uncompleted.MemTables.Dumper.{int64_max, Scan, start, scan, scan_step, pop_at, erase_at}
use polardb_uncompleted.MemTables.Minimum.{scan-Scans}
use polardb_uncompleted.MemTables.Merge.{
  count, below, IsAscending, total, AllAscending, above-total, pop_at-lem, erase_at-lem,
  pop_at-other, total-zero, all,
}
use polardb_uncompleted.MemTables.Source.{Source, head?}

module _ (source : Source) where
  open source use {Table, front, pop, items, front_lem, pop_lem}

  -- The tables without an empty one.
  unfoldable pub without : Option ℕ → List Table → List Table
  unfolding erase_at
  without none ts = ts
  without (some i) ts = erase_at source i ts

  -- The loop with the records themselves: `none` when the rounds run out or a null record is used.
  unfoldable pub merge_loop : ℕ → List Table → List KeyIdxPair → Option (List KeyIdxPair)
  unfolding scan scan_step pop_at without
  merge_loop zero ts kvs = none
  merge_loop (suc rounds) ts kvs =
      let st = scan source 0 ts start in
      elim st.min_iter [
        | none ↦ some kvs
        | some i ↦
            let (r, popped) = pop_at source i ts in
            elim r [
              | none ↦ none
              | some x ↦ merge_loop rounds (without st.erase popped) (kvs ++ x ∷ [])
            ]
      ]

  -- What the loop has written when it ends: in ascending order exactly the records of the tables
  -- with a key below INT64_MAX.
  pub record Merged (ts : List Table) (out : List KeyIdxPair) : Type 0 where
    pub ascending : IsAscending out
    pub exact :
        (p : KeyIdxPair → Bool) → count p out ≡ total source (λ x. below int64_max x && p x) ts

  abbrev pub Dumps : ℕ → List Table → List KeyIdxPair → Type 0
  Dumps rounds ts kvs =
      (out : List KeyIdxPair) × (merge_loop rounds ts kvs ≡ some (kvs ++ out)) × Merged ts out

  module _ (rounds : ℕ) (ts : List Table) (kvs : List KeyIdxPair) (s : AllAscending source ts) where
    abbrev st : Scan
    st = scan source 0 ts start

    above : total source (below st.min_k) ts ≡ 0
    above = above-total source st.min_k ts s (scan-Scans source 0 ts start).above

    nothing :
        st.min_k ≡ int64_max
        → (p : KeyIdxPair → Bool) → count p [] ≡ total source (λ x. below int64_max x && p x) ts
    unfolding count
    nothing k p =
        sym (total-zero source _ (below int64_max) ts (λ x h. ground arith) (rw k at above))

    -- No first key is below INT64_MAX: the loop ends.
    ends : st.min_iter ≡ none → st.min_k ≡ int64_max → Dumps (suc rounds) ts kvs
    unfolding merge_loop
    ends it k = ([], rw (it, merge_loop, append-nil), record { ascending = tt; exact = nothing k })

    module _ (j : ℕ) (t : Table) (x : KeyIdxPair) (at : get_elem? ts j ≡ some t)
        (hd : head? (items t) ≡ some x) where
      abbrev popped : List Table
      popped = (pop_at source j ts).1

      abbrev next : List Table
      next = without st.erase popped

      -- A round takes `x` away and no other record.
      next-lem :
          AllAscending source next
          × ((p : KeyIdxPair → Bool)
              → total source p ts ≡ (if p x then 1 else 0) + total source p next)
      unfolding without
      next-lem =
          let (r, asc, tot) = pop_at-lem source j ts t x at hd s in
          elim (scan-Scans source 0 ts start).empty [
            | inl same ↦ rw same (asc, tot)
            | inr (e, u, same, there, nil) ↦
                let (asc', tot') =
                  erase_at-lem source e popped u (pop_at-other source j e ts t u x at hd there nil)
                    nil asc in
                let zero_e : 0 + e ≡ e = omega arith in
                rw (same, zero_e)
                  (asc', λ p. tot p ∙ ap (λ n. (if p x then 1 else 0) + n) (sym (tot' p)))
          ]

      none_smaller : x.key ≡ st.min_k → total source (below x.key) next ≡ 0
      none_smaller key =
          let z : total source (below x.key) ts ≡ 0 = rw key above in
          omega (arith, next-lem.1 (below x.key))

      writes :
          (out : List KeyIdxPair)
          → x.key ≡ st.min_k
          → x.key < int64_max
          → Merged next out
          → Merged ts (x ∷ out)
      unfolding count
      writes out key lt merged = record {
        ascending = (
          merged.exact (below x.key)
              ∙ total-zero source _ (below x.key) next (λ y h. ground arith) (none_smaller key),
          merged.ascending,
        );
        exact = λ p.
            let later = merged.exact p in
            let here = next-lem.1 (λ y. below int64_max y && p y) in ground (arith, later, here);
      }

      -- The round that writes `x`, followed by the rest of the loop.
      round :
          st.min_iter ≡ some j
          → x.key ≡ st.min_k
          → x.key < int64_max
          → Dumps rounds next (kvs ++ x ∷ [])
          → Dumps (suc rounds) ts kvs
      unfolding merge_loop
      round it key lt (out, result, merged) =
          let popping = (pop_at-lem source j ts t x at hd s).0 in
          (
            x ∷ out,
            rw (it, popping, merge_loop, result) (ap some (append_assoc kvs (x ∷ []) out)),
            writes out key lt merged,
          )

  -- From tables in ascending order, and with more rounds than there are records, the loop ends with
  -- new records behind those in `kvs`: in ascending order of the keys, and exactly the tables'
  -- records with a key below INT64_MAX, each as often as they hold it.
  pub merge_loop-Merges :
      (rounds : ℕ) (ts : List Table) (kvs : List KeyIdxPair)
      → AllAscending source ts
      → total source all ts < rounds
      → Dumps rounds ts kvs
  merge_loop-Merges zero ts kvs s fuel = let no : ⊥ = omega arith in elim no [ ]
  merge_loop-Merges (suc rounds) ts kvs s fuel = elim (scan-Scans source 0 ts start).least [
    | inl (it, k) ↦ ends rounds ts kvs s it k
    | inr (j, t, x, it, at, hd, key, lt) ↦
        let zero_j : 0 + j ≡ j = omega arith in
        let it' : (scan source 0 ts start).min_iter ≡ some j = rw zero_j at it in
        let rest = next-lem rounds ts kvs s j t x at hd in
        round rounds ts kvs s j t x at hd it' key lt (
          merge_loop-Merges rounds (next rounds ts kvs s j t x at hd) (kvs ++ x ∷ []) rest.0
            (omega (arith, rest.1 all)))
  ]
