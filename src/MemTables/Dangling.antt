-- ===== src/MemTables/Dangling.antt =====
-- The while loop of the dumper with two lists or more that have records: a list is deleted while the
-- pointers into it are kept.
use polardb_uncompleted.Base.{
  ℕ, zero, suc, ◌+◌, ◌≤◌, ◌≡◌, refl, inl, inr, true, Option, none, some, List, [], ◌∷◌, ◌++◌,
  length, Option-cases, arith,
}
use polardb_uncompleted.Base.Run.{undefined}
use polardb_uncompleted.Buffer.{member}
use polardb_uncompleted.MemTables.Dumper.{
  start, scan, pop_at, Pointer, owner_at, erase_at, erase_if, dump_loop, dereference,
}
use polardb_uncompleted.MemTables.Minimum.{scan-Scans}
use polardb_uncompleted.MemTables.Source.{Source, head?, owned}
use polardb_uncompleted.MemTables.Empty.{
  pointed, pointed_more, dereference-pointed, AllSmall, AllFilled, Left, EmptyPointed, small_above,
  scan_filled, pop_at-Left, pop_at-AllSmall, pop_at-EmptyPointed, owner-pointed,
}

module _ (source : Source) where
  open source use {Table, front, items, front_lem, pop_lem}

  -- A deleted list that a pointer leads into stays so.
  dump_loop-keeps :
      (rounds o : ℕ) (ts : List (ℕ × Table)) (kvs : List Pointer) (deleted : List ℕ)
      (ps : List Pointer) (deleted' : List ℕ)
      → pointed o kvs ≡ true
      → member o deleted ≡ true
      → dump_loop source rounds ts kvs deleted ≡ some (ps, deleted')
      → (pointed o ps ≡ true) × (member o deleted' ≡ true)
  unfolding dump_loop
  dump_loop-keeps zero o ts kvs deleted ps deleted' h gone done = absurd cc
  dump_loop-keeps (suc rounds) o ts kvs deleted ps deleted' h gone done =
      let st = scan (owned source) 0 ts start in
      elim (Option-cases st.min_iter) [
        | inl ended ↦
            let done' = rw (dump_loop, ended) at done in
            let same : (kvs ≡ ps) × (deleted ≡ deleted') = (cc, cc) in
            rw (← same.0, ← same.1) (h, gone)
        | inr (i, at) ↦ elim (Option-cases (pop_at (owned source) i ts).0) [
          | inl null ↦ let done' = rw (dump_loop, at, null) at done in absurd cc
          | inr (x, popping) ↦
              let popped = (pop_at (owned source) i ts).1 in
              let p : Pointer = record { owner = owner_at source i ts; item = x } in
              let done' = rw (dump_loop, at, popping) at done in
              dump_loop-keeps rounds o (erase_if source st.erase popped deleted).0 (kvs ++ p ∷ [])
                (erase_if source st.erase popped deleted).1 ps deleted' (pointed_more o kvs p h)
                (still st.erase popped) done'
        ]
      ]
    where
      still :
          (e : Option ℕ) (us : List (ℕ × Table)) → member o (erase_if source e us deleted).1 ≡ true
      still none us = unfold erase_if in gone
      still (some i) us = unfold erase_if in ground (arith, gone)

  -- What the loop leaves behind has a pointer that dangles.
  abbrev pub Dangles : List Pointer → List ℕ → Type 0
  Dangles ps deleted = (o : ℕ) × (pointed o ps ≡ true) × (member o deleted ≡ true)

  dump_loop-Dangles :
      (rounds : ℕ) (ts : List (ℕ × Table)) (kvs : List Pointer) (deleted : List ℕ)
      (ps : List Pointer) (deleted' : List ℕ)
      → AllSmall source ts
      → Left source ts
      → 2 ≤ length ts
      → EmptyPointed source kvs ts
      → dump_loop source rounds ts kvs deleted ≡ some (ps, deleted')
      → Dangles ps deleted'
  unfolding dump_loop erase_if
  dump_loop-Dangles zero ts kvs deleted ps deleted' small left two empty done = absurd cc
  dump_loop-Dangles (suc rounds) ts kvs deleted ps deleted' small left two empty done =
      let st = scan (owned source) 0 ts start in
      let z = scan-Scans (owned source) 0 ts start in
      elim z.least [
        | inl (ended, k) ↦ absurd (
            small_above source left.place ts left.list left.first small (rw k at z.above) left.at
              left.is)
        | inr (j, t, x, it, at, hd, key, lt) ↦
            let zero_j : 0 + j ≡ j = omega arith in
            let it' : st.min_iter ≡ some j = rw zero_j at it in
            elim (Option-cases (pop_at (owned source) j ts).0) [
              | inl null ↦ let done' = rw (dump_loop, it', null) at done in absurd cc
              | inr (y, popping) ↦
                  let popped = (pop_at (owned source) j ts).1 in
                  let p : Pointer = record { owner = owner_at source j ts; item = y } in
                  let done' = rw (dump_loop, it', popping) at done in
                  elim z.empty [
                    | inl none_empty ↦
                        let (more, left') =
                          pop_at-Left source j ts (scan_filled source 0 ts start none_empty).1
                            two in
                        let done'' = rw (none_empty, erase_if) at done' in
                        dump_loop-Dangles rounds popped (kvs ++ p ∷ []) deleted ps deleted'
                          (pop_at-AllSmall source j ts small) left' more
                          (pop_at-EmptyPointed source j ts kvs y empty) done''
                    | inr (e, u, same, there, nil) ↦
                        let zero_e : 0 + e ≡ e = omega arith in
                        let same' : st.erase ≡ some e = rw zero_e at same in
                        let o = owner_at source e popped in
                        let done'' = rw (same', erase_if) at done' in
                        let (led, gone) =
                          dump_loop-keeps rounds o (erase_at (owned source) e popped)
                            (kvs ++ p ∷ []) (o ∷ deleted) ps deleted'
                            (pointed_more o kvs p
                              (owner-pointed source j e ts u kvs empty there nil))
                            (ground arith) done'' in
                        (o, led, gone)
                  ]
            ]
      ]

  -- No list is empty at the start.
  AllFilled-Left :
      (ts : List (ℕ × Table))
      → AllFilled source ts
      → 2 ≤ length ts
      → Left source ts × EmptyPointed source [] ts
  AllFilled-Left [] f two = absurd (omega (arith, two))
  AllFilled-Left (t ∷ ts) f two =
      (record { place = 0; list = t; first = f.0.0; at = refl; is = f.0.1 }, none_empty (t ∷ ts) f)
    where
      none_empty : (us : List (ℕ × Table)) → AllFilled source us → EmptyPointed source [] us
      none_empty [] g = tt
      none_empty (v ∷ us) g =
          (λ nil. let hd : head? [] ≡ some g.0.0 = rw nil at g.0.1 in absurd cc, none_empty us g.1)

  -- Of two lists or more that all have records, with keys below INT64_MAX, the loop deletes one that
  -- it keeps a pointer into.
  pub dump_loop-dereference :
      (rounds : ℕ) (ts : List (ℕ × Table)) (ps : List Pointer) (deleted : List ℕ)
      → AllSmall source ts
      → AllFilled source ts
      → 2 ≤ length ts
      → dump_loop source rounds ts [] [] ≡ some (ps, deleted)
      → dereference deleted ps ≡ undefined
  dump_loop-dereference rounds ts ps deleted small filled two done =
      let (left, empty) = AllFilled-Left ts filled two in
      let (o, led, gone) = dump_loop-Dangles rounds ts [] [] ps deleted small left two empty done in
      dereference-pointed o deleted ps gone led
