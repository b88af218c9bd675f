-- ===== src/MemTables/Single.antt =====
-- The while loop of the dumper when only one list has records: no pointer dangles.
use polardb_uncompleted.Base.{
  ℕ, zero, suc, ◌+◌, ◌≡◌, ◌≢◌, refl, sym, ap, ◌∙◌, ◌⊎◌, inl, inr, some, List, [], ◌∷◌, ◌++◌,
  Option-cases, arith, get_elem?, false,
}
use polardb_uncompleted.Base.Run.{ok}
use polardb_uncompleted.Buffer.{member}
use polardb_uncompleted.IndexHashMap.{KeyIdxPair}
use polardb_uncompleted.MemTables.Dumper.{
  start, scan, pop_at, Pointer, owner_at, erase_at, erase_if, dump_loop, dereference,
}
use polardb_uncompleted.MemTables.Minimum.{scan-Scans}
use polardb_uncompleted.MemTables.Pointers.{items_of}
use polardb_uncompleted.MemTables.Source.{Source, head?, owned}

-- The pointers lead into the list at `a`.
abbrev pub AllFrom : ℕ → List Pointer → Type 0
AllFrom a [] = Unit
AllFrom a (p ∷ kvs) = (p.owner ≡ a) × AllFrom a kvs

append-AllFrom :
    (a : ℕ) (kvs : List Pointer) (p : Pointer)
    → AllFrom a kvs
    → p.owner ≡ a
    → AllFrom a (kvs ++ p ∷ [])
append-AllFrom a [] p h e = (e, tt)
append-AllFrom a (q ∷ kvs) p h e = (h.0, append-AllFrom a kvs p h.1 e)

-- The pointers can be followed when the list was not deleted.
pub dereference-AllFrom :
    (a : ℕ) (deleted : List ℕ) (kvs : List Pointer)
    → AllFrom a kvs
    → member a deleted ≡ false
    → dereference deleted kvs ≡ ok (items_of kvs)
unfolding dereference
dereference-AllFrom a deleted [] h kept = refl
dereference-AllFrom a deleted (p ∷ kvs) h kept =
    rw (h.0, kept, dereference-AllFrom a deleted kvs h.1 kept) refl

module _ (source : Source) where
  open source use {Table, items}

  -- The lists at other addresses than `a`, which has one place at most, are empty.
  abbrev pub NoneHas : ℕ → List (ℕ × Table) → Type 0
  NoneHas a [] = Unit
  NoneHas a (t ∷ ts) = (t.0 ≢ a) × (items t.1 ≡ []) × NoneHas a ts

  abbrev pub OnlyHas : ℕ → List (ℕ × Table) → Type 0
  OnlyHas a [] = Unit
  OnlyHas a (t ∷ ts) = ((t.0 ≡ a) × NoneHas a ts) ⊎ ((t.0 ≢ a) × (items t.1 ≡ []) × OnlyHas a ts)

  NoneHas-empty :
      (a j : ℕ) (ts : List (ℕ × Table)) (t : ℕ × Table) (x : KeyIdxPair)
      → NoneHas a ts
      → get_elem? ts j ≡ some t
      → head? (items t.1) ≡ some x
      → ⊥
  NoneHas-empty a j [] t x h at hd = cc
  NoneHas-empty a zero (u ∷ ts) t x h at hd =
      let e : u ≡ t = cc in
      let nil : items t.1 ≡ [] = ap (λ (v : ℕ × Table). items v.1) (sym e) ∙ h.1 in
      let hd' : head? [] ≡ some x = rw nil at hd in cc
  NoneHas-empty a (suc j) (u ∷ ts) t x h at hd = NoneHas-empty a j ts t x h.2 at hd

  -- The list with a first record is the one at `a`, and popping it changes no other.
  pop_at-OnlyHas :
      (a j : ℕ) (ts : List (ℕ × Table)) (t : ℕ × Table) (x : KeyIdxPair)
      → OnlyHas a ts
      → get_elem? ts j ≡ some t
      → head? (items t.1) ≡ some x
      → (owner_at source j ts ≡ a) × OnlyHas a (pop_at (owned source) j ts).1
  unfolding pop_at owner_at
  pop_at-OnlyHas a j [] t x h at hd = absurd cc
  pop_at-OnlyHas a zero (u ∷ ts) t x (inl (here, rest)) at hd = (here, inl (here, rest))
  pop_at-OnlyHas a zero (u ∷ ts) t x (inr (away, nil, rest)) at hd =
      let e : u ≡ t = cc in
      let nil' : items t.1 ≡ [] = ap (λ (v : ℕ × Table). items v.1) (sym e) ∙ nil in
      let hd' : head? [] ≡ some x = rw nil' at hd in absurd cc
  pop_at-OnlyHas a (suc j) (u ∷ ts) t x (inl (here, rest)) at hd =
      absurd (NoneHas-empty a j ts t x rest at hd)
  pop_at-OnlyHas a (suc j) (u ∷ ts) t x (inr (away, nil, rest)) at hd =
      let (owner, rest') = pop_at-OnlyHas a j ts t x rest at hd in (owner, inr (away, nil, rest'))

  NoneHas-owner :
      (a e : ℕ) (ts : List (ℕ × Table)) (u : ℕ × Table)
      → NoneHas a ts
      → get_elem? ts e ≡ some u
      → (owner_at source e ts ≢ a) × NoneHas a (erase_at (owned source) e ts)
  unfolding owner_at erase_at
  NoneHas-owner a e [] u h at = absurd cc
  NoneHas-owner a zero (v ∷ ts) u h at = (h.0, h.2)
  NoneHas-owner a (suc e) (v ∷ ts) u h at =
      let (other, rest) = NoneHas-owner a e ts u h.2 at in (other, (h.0, h.1, rest))

  -- An empty list beside the one that is popped is not the one at `a`.
  erase_at-OnlyHas :
      (a j e : ℕ) (ts : List (ℕ × Table)) (t u : ℕ × Table) (x : KeyIdxPair)
      → OnlyHas a ts
      → get_elem? ts j ≡ some t
      → head? (items t.1) ≡ some x
      → get_elem? ts e ≡ some u
      → items u.1 ≡ []
      → (owner_at source e (pop_at (owned source) j ts).1 ≢ a)
        × OnlyHas a (erase_at (owned source) e (pop_at (owned source) j ts).1)
  unfolding pop_at owner_at erase_at
  erase_at-OnlyHas a j e [] t u x h at hd there nil = absurd cc
  erase_at-OnlyHas a zero zero (v ∷ ts) t u x h at hd there nil =
      let p : v ≡ t = cc in
      let q : v ≡ u = cc in
      let nil' : items t.1 ≡ [] = ap (λ (w : ℕ × Table). items w.1) (sym p ∙ q) ∙ nil in
      let hd' : head? [] ≡ some x = rw nil' at hd in absurd cc
  erase_at-OnlyHas a zero (suc e) (v ∷ ts) t u x (inl (here, rest)) at hd there nil =
      let (other, rest') = NoneHas-owner a e ts u rest there in (other, inl (here, rest'))
  erase_at-OnlyHas a zero (suc e) (v ∷ ts) t u x (inr (away, none_left, rest)) at hd there nil =
      let p : v ≡ t = cc in
      let nil' : items t.1 ≡ [] = ap (λ (w : ℕ × Table). items w.1) (sym p) ∙ none_left in
      let hd' : head? [] ≡ some x = rw nil' at hd in absurd cc
  erase_at-OnlyHas a (suc j) e (v ∷ ts) t u x (inl (here, rest)) at hd there nil =
      absurd (NoneHas-empty a j ts t x rest at hd)
  erase_at-OnlyHas a (suc j) zero (v ∷ ts) t u x (inr (away, none_left, rest)) at hd there nil =
      (away, (pop_at-OnlyHas a j ts t x rest at hd).1)
  erase_at-OnlyHas a (suc j) (suc e) (v ∷ ts) t u x (inr (away, none_left, rest)) at hd there nil =
      let (other, rest') = erase_at-OnlyHas a j e ts t u x rest at hd there nil in
      (other, inr (away, none_left, rest'))

  not_deleted :
      (a o : ℕ) (deleted : List ℕ)
      → o ≢ a
      → member a deleted ≡ false
      → member a (o ∷ deleted) ≡ false
  not_deleted a o deleted ne kept = ground (arith, kept, ne)

  pub dump_loop-AllFrom :
      (rounds a : ℕ) (ts : List (ℕ × Table)) (kvs : List Pointer) (deleted : List ℕ)
      (ps : List Pointer) (deleted' : List ℕ)
      → OnlyHas a ts
      → AllFrom a kvs
      → member a deleted ≡ false
      → dump_loop source rounds ts kvs deleted ≡ some (ps, deleted')
      → AllFrom a ps × (member a deleted' ≡ false)
  unfolding dump_loop erase_if
  dump_loop-AllFrom zero a ts kvs deleted ps deleted' h from kept done = absurd cc
  dump_loop-AllFrom (suc rounds) a ts kvs deleted ps deleted' h from kept done =
      let st = scan (owned source) 0 ts start in
      let z = scan-Scans (owned source) 0 ts start in
      elim z.least [
        | inl (ended, k) ↦
            let done' = rw (dump_loop, ended) at done in
            let same : (kvs ≡ ps) × (deleted ≡ deleted') = (cc, cc) in
            rw (← same.0, ← same.1) (from, kept)
        | inr (j, t, x, it, at, hd, key, lt) ↦
            let zero_j : 0 + j ≡ j = omega arith in
            let it' : st.min_iter ≡ some j = rw zero_j at it in
            elim (Option-cases (pop_at (owned source) j ts).0) [
              | inl null ↦ let done' = rw (dump_loop, it', null) at done in absurd cc
              | inr (y, popping) ↦
                  let popped = (pop_at (owned source) j ts).1 in
                  let (owner, h') = pop_at-OnlyHas a j ts t x h at hd in
                  let p : Pointer = record { owner = owner_at source j ts; item = y } in
                  let done' = rw (dump_loop, it', popping) at done in
                  let left : OnlyHas a (erase_if source st.erase popped deleted).0
                      × (member a (erase_if source st.erase popped deleted).1 ≡ false) =
                    elim z.empty [
                      | inl none_empty ↦ rw none_empty (h', kept)
                      | inr (e, u, same, there, nil) ↦
                          let zero_e : 0 + e ≡ e = omega arith in
                          let (other, h'') = erase_at-OnlyHas a j e ts t u x h at hd there nil in
                          rw (same, zero_e) (h'', not_deleted a _ deleted other kept)
                    ] in
                  dump_loop-AllFrom rounds a (erase_if source st.erase popped deleted).0
                    (kvs ++ p ∷ []) (erase_if source st.erase popped deleted).1 ps deleted' left.0
                    (append-AllFrom a kvs p from owner) left.1 done'
            ]
      ]
