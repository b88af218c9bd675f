-- ===== src/MemTables/Minimum.antt =====
-- The for loop of the dumper finds the least first key below INT64_MAX.
use polardb_uncompleted.Base.{
  ℕ, suc, ◌+◌, ◌≤◌, ◌<◌, ◌≡◌, refl, sym, ap, ◌∙◌, ◌⊎◌, inl, inr, Option, none, some, List, [], ◌∷◌,
  arith, get_elem?, dec_lt,
}
use polardb_uncompleted.IndexHashMap.{KeyIdxPair}
use polardb_uncompleted.MemTables.Dumper.{Scan, scan_step, scan}
use polardb_uncompleted.MemTables.Source.{Source, head?}

-- The first key, if there is one, is at least `k`.
abbrev pub FirstAbove : ℕ → List KeyIdxPair → Type 0
FirstAbove k [] = Unit
FirstAbove k (x ∷ xs) = k ≤ x.key

module _ (source : Source) where
  open source use {Table, front, items, front_lem}

  abbrev pub AllAbove : ℕ → List Table → Type 0
  AllAbove k [] = Unit
  AllAbove k (t ∷ ts) = FirstAbove k (items t) × AllAbove k ts

  AllAbove-mono : (j k : ℕ) (ts : List Table) → j ≤ k → AllAbove k ts → AllAbove j ts
  AllAbove-mono j k [] le h = tt
  AllAbove-mono j k (t ∷ ts) le h = (first (items t) h.0, AllAbove-mono j k ts le h.1)
    where
      first : (xs : List KeyIdxPair) → FirstAbove k xs → FirstAbove j xs
      first [] f = tt
      first (x ∷ xs) f = omega arith

  -- The result `r` of the loop over `ts` from position `i` and state `st`.
  pub record Scans (i : ℕ) (ts : List Table) (st r : Scan) : Type 0 where
    pub above : AllAbove r.min_k ts
    pub less : r.min_k ≤ st.min_k
    pub least :
        ((r.min_iter ≡ st.min_iter) × (r.min_k ≡ st.min_k))
        ⊎ ((j : ℕ) × (t : Table) × (x : KeyIdxPair) × (r.min_iter ≡ some (i + j))
            × (get_elem? ts j ≡ some t)
            × (head? (items t) ≡ some x)
            × (x.key ≡ r.min_k)
            × (x.key < st.min_k))
    pub empty :
        (r.erase ≡ st.erase)
        ⊎ ((j : ℕ) × (t : Table) × (r.erase ≡ some (i + j))
            × (get_elem? ts j ≡ some t)
            × (items t ≡ []))

  scan-cons :
      (i : ℕ) (t : Table) (ts : List Table) (st : Scan)
      → scan source i (t ∷ ts) st ≡ scan source (suc i) ts (scan_step source i t st)
  unfolding scan
  scan-cons i t ts st = refl

  List-cases :
      (xs : List KeyIdxPair)
      → (xs ≡ []) ⊎ ((x : KeyIdxPair) × (ys : List KeyIdxPair) × (xs ≡ x ∷ ys))
  List-cases [] = inl refl
  List-cases (x ∷ ys) = inr (x, ys, refl)

  module _ (i : ℕ) (t : Table) (ts : List Table) (st : Scan) where
    shift : (j : ℕ) → some (suc i + j) ≡ some (i + suc j)
    shift j = ap some (omega arith)

    here : some i ≡ some (i + 0)
    here = ap some (omega arith)

    step_empty : items t ≡ [] → scan_step source i t st ≡ record st { erase = some i }
    unfolding scan_step
    step_empty e = let f : front t ≡ none = rw e at (front_lem t) in rw (f, scan_step)

    scan_empty :
        (r : Scan)
        → items t ≡ []
        → Scans (suc i) ts (record st { erase = some i }) r
        → Scans i (t ∷ ts) st r
    scan_empty r nil h = record {
      above = (rw nil tt, h.above);
      less = h.less;
      least = elim h.least [
        | inl same ↦ inl same
        | inr (j, u, x, at, elem, hd, key, lt) ↦ inr (suc j, u, x, at ∙ shift j, elem, hd, key, lt)
      ];
      empty = elim h.empty [
        | inl same ↦ inr (0, t, same ∙ here, refl, nil)
        | inr (j, u, at, elem, none_left) ↦ inr (suc j, u, at ∙ shift j, elem, none_left)
      ];
    }

    later_empty :
        (r : Scan) (e : Option ℕ)
        → (r.erase ≡ e)
          ⊎ ((j : ℕ) × (u : Table) × (r.erase ≡ some (suc i + j))
              × (get_elem? ts j ≡ some u)
              × (items u ≡ []))
        → (r.erase ≡ e)
          ⊎ ((j : ℕ) × (u : Table) × (r.erase ≡ some (i + j))
              × (get_elem? (t ∷ ts) j ≡ some u)
              × (items u ≡ []))
    later_empty r e (inl same) = inl same
    later_empty r e (inr (j, u, at, elem, nil)) = inr (suc j, u, at ∙ shift j, elem, nil)

    module _ (x : KeyIdxPair) (xs : List KeyIdxPair) (e : items t ≡ x ∷ xs) where
      first : front t ≡ some x
      first = rw e at (front_lem t)

      step_less :
          x.key < st.min_k
          → scan_step source i t st ≡ record st { min_k = x.key; min_iter = some i }
      unfolding scan_step
      step_less lt = rw (first, scan_step) (ground arith)

      step_other : st.min_k ≤ x.key → scan_step source i t st ≡ st
      unfolding scan_step
      step_other le = rw (first, scan_step) (ground arith)

      scan_less :
          (r : Scan)
          → x.key < st.min_k
          → Scans (suc i) ts (record st { min_k = x.key; min_iter = some i }) r
          → Scans i (t ∷ ts) st r
      scan_less r lt h = record {
        above = (rw e h.less, h.above);
        less = omega (arith, h.less);
        least = elim h.least [
          | inl (it, k) ↦ inr (0, t, x, it ∙ here, refl, rw e refl, sym k, lt)
          | inr (j, u, y, at, elem, hd, key, below) ↦
              inr (suc j, u, y, at ∙ shift j, elem, hd, key, omega arith)
        ];
        empty = later_empty r st.erase h.empty;
      }

      scan_other : (r : Scan) → st.min_k ≤ x.key → Scans (suc i) ts st r → Scans i (t ∷ ts) st r
      scan_other r le h = record {
        above = (rw e (omega (arith, h.less)), h.above);
        less = h.less;
        least = elim h.least [
          | inl same ↦ inl same
          | inr (j, u, y, at, elem, hd, key, below) ↦
              inr (suc j, u, y, at ∙ shift j, elem, hd, key, below)
        ];
        empty = later_empty r st.erase h.empty;
      }

  pub scan-Scans : (i : ℕ) (ts : List Table) (st : Scan) → Scans i ts st (scan source i ts st)
  scan-Scans i [] st =
      unfold scan in
      (record { above = tt; less = omega arith; least = inl (refl, refl); empty = inl refl })
  scan-Scans i (t ∷ ts) st = rw (scan-cons i t ts st) (elim (List-cases (items t)) [
    | inl nil ↦
        rw (step_empty i t ts st nil)
          (scan_empty i t ts st _ nil (scan-Scans (suc i) ts (record st { erase = some i })))
    | inr (x, xs, e) ↦ elim (dec_lt x.key st.min_k) [
      | yes lt ↦ rw (step_less i t ts st x xs e lt) (
          scan_less i t ts st x xs e _ lt
            (scan-Scans (suc i) ts (record st { min_k = x.key; min_iter = some i })))
      | no ge ↦
          rw (step_other i t ts st x xs e (omega arith))
            (scan_other i t ts st x xs e _ (omega arith) (scan-Scans (suc i) ts st))
    ]
  ])
