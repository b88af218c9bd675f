-- ===== src/MemTables/Empty.antt =====
-- Lists that have records, and the pointers into those that are empty, through a round of the
-- dumper.
use polardb_uncompleted.Base.{
  ℕ, zero, suc, ◌<◌, ◌≤◌, ◌≡◌, refl, sym, ap, ◌∙◌, inl, inr, Bool, true, false, none, some, List,
  [], ◌∷◌, ◌++◌, ltb, length, Option-cases, Bool-cases, arith, get_elem?, ◌==◌, ==_refl,
  if◌then◌else◌,
}
use polardb_uncompleted.Base.Run.{undefined}
use polardb_uncompleted.Buffer.{member}
use polardb_uncompleted.IndexHashMap.{KeyIdxPair}
use polardb_uncompleted.MemTables.Dumper.{
  int64_max, Scan, scan, scan_step, pop_at, Pointer, owner_at, dereference,
}
use polardb_uncompleted.MemTables.Minimum.{FirstAbove, AllAbove}
use polardb_uncompleted.MemTables.Source.{Source, head?, tail, owned}

-- A pointer leads into the list at `o`.
abbrev pub pointed : ℕ → List Pointer → Bool
pointed o [] = false
pointed o (p ∷ kvs) = if p.owner == o then true else pointed o kvs

pub pointed_more :
    (o : ℕ) (kvs : List Pointer) (p : Pointer)
    → pointed o kvs ≡ true
    → pointed o (kvs ++ p ∷ []) ≡ true
pointed_more o [] p h = absurd cc
pointed_more o (q ∷ kvs) p h = elim (Bool-cases (q.owner == o)) [
  | inl e ↦ rw e refl
  | inr e ↦ let h' = rw e at h in rw e (pointed_more o kvs p h')
]

pub pointed_last : (kvs : List Pointer) (p : Pointer) → pointed p.owner (kvs ++ p ∷ []) ≡ true
pointed_last [] p = rw (==_refl p.owner) refl
pointed_last (q ∷ kvs) p = elim (Bool-cases (q.owner == p.owner)) [
  | inl e ↦ rw e refl
  | inr e ↦ rw e (pointed_last kvs p)
]

-- A pointer into a deleted list cannot be followed.
pub dereference-pointed :
    (o : ℕ) (deleted : List ℕ) (kvs : List Pointer)
    → member o deleted ≡ true
    → pointed o kvs ≡ true
    → dereference deleted kvs ≡ undefined
unfolding dereference
dereference-pointed o deleted [] gone h = absurd cc
dereference-pointed o deleted (p ∷ kvs) gone h = elim (Bool-cases (p.owner == o)) [
  | inl e ↦ let same : p.owner ≡ o = ground (arith, e) in rw (same, gone) refl
  | inr e ↦
      let h' = rw e at h in
      let rest = dereference-pointed o deleted kvs gone h' in
      elim (Bool-cases (member p.owner deleted)) [
        | inl lost ↦ rw lost refl
        | inr kept ↦ rw (kept, rest) refl
      ]
]

abbrev pub KeysBelow : List KeyIdxPair → Type 0
KeysBelow [] = Unit
KeysBelow (x ∷ xs) = (x.key < int64_max) × KeysBelow xs

pub tail-KeysBelow : (xs : List KeyIdxPair) → KeysBelow xs → KeysBelow (tail xs)
tail-KeysBelow [] h = tt
tail-KeysBelow (x ∷ xs) h = h.1

module _ (source : Source) where
  open source use {Table, front, items, front_lem, pop_lem}

  -- Every key is below INT64_MAX.
  abbrev pub AllSmall : List (ℕ × Table) → Type 0
  AllSmall [] = Unit
  AllSmall (t ∷ ts) = KeysBelow (items t.1) × AllSmall ts

  -- Every list has a record.
  abbrev pub AllFilled : List (ℕ × Table) → Type 0
  AllFilled [] = Unit
  AllFilled (t ∷ ts) = ((x : KeyIdxPair) × (head? (items t.1) ≡ some x)) × AllFilled ts

  -- Some list has a record.
  pub record Left (ts : List (ℕ × Table)) : Type 0 where
    pub place : ℕ
    pub list : ℕ × Table
    pub first : KeyIdxPair
    pub at : get_elem? ts place ≡ some list
    pub is : head? (items list.1) ≡ some first

  -- Pointers lead into each empty list.
  abbrev pub EmptyPointed : List Pointer → List (ℕ × Table) → Type 0
  EmptyPointed kvs [] = Unit
  EmptyPointed kvs (t ∷ ts) = (items t.1 ≡ [] → pointed t.0 kvs ≡ true) × EmptyPointed kvs ts

  first_small :
      (xs : List KeyIdxPair) (x : KeyIdxPair)
      → KeysBelow xs
      → FirstAbove int64_max xs
      → head? xs ≡ some x
      → ⊥
  first_small [] x k f e = cc
  first_small (y ∷ xs) x k f e = omega (arith, k.0, f)

  pub small_above :
      (i : ℕ) (ts : List (ℕ × Table)) (t : ℕ × Table) (x : KeyIdxPair)
      → AllSmall ts
      → AllAbove (owned source) int64_max ts
      → get_elem? ts i ≡ some t
      → head? (items t.1) ≡ some x
      → ⊥
  small_above i [] t x s a at hd = cc
  small_above zero (u ∷ ts) t x s a at hd =
      let e : u ≡ t = cc in
      first_small (items u.1) x s.0 a.0 (ap (λ (v : ℕ × Table). head? (items v.1)) e ∙ hd)
  small_above (suc i) (u ∷ ts) t x s a at hd = small_above i ts t x s.1 a.1 at hd

  -- A scan that finds no empty list has seen records in all lists.
  pub scan_filled :
      (i : ℕ) (ts : List (ℕ × Table)) (st : Scan)
      → (scan (owned source) i ts st).erase ≡ none
      → (st.erase ≡ none) × AllFilled ts
  unfolding scan scan_step
  scan_filled i [] st h = (h, tt)
  scan_filled i (t ∷ ts) st h =
      let (before, rest) = scan_filled (suc i) ts (scan_step (owned source) i t st) h in
      elim (Option-cases (front t.1)) [
        | inl gone ↦ let before' = rw (scan_step, gone) at before in absurd cc
        | inr (x, there) ↦
            let hd : head? (items t.1) ≡ some x = sym (front_lem t.1) ∙ there in
            elim (Bool-cases (ltb x.key st.min_k)) [
              | inl less ↦
                  let before' = rw (scan_step, there, less) at before in (before', ((x, hd), rest))
              | inr more ↦
                  let before' = rw (scan_step, there, more) at before in (before', ((x, hd), rest))
            ]
      ]

  pub pop_at-Left :
      (j : ℕ) (ts : List (ℕ × Table))
      → AllFilled ts
      → 2 ≤ length ts
      → (2 ≤ length (pop_at (owned source) j ts).1) × Left (pop_at (owned source) j ts).1
  unfolding pop_at
  pop_at-Left j [] f two = absurd (omega (arith, two))
  pop_at-Left j (t ∷ []) f two = absurd (omega (arith, two))
  pop_at-Left zero (t ∷ u ∷ ts) f two =
      (two, record { place = 1; list = u; first = f.1.0.0; at = refl; is = f.1.0.1 })
  pop_at-Left (suc j) (t ∷ u ∷ ts) f two = (
    omega (arith, two, length-pop_at j (u ∷ ts)),
    record { place = 0; list = t; first = f.0.0; at = refl; is = f.0.1 },
  )
    where
      length-pop_at :
          (i : ℕ) (us : List (ℕ × Table)) → length (pop_at (owned source) i us).1 ≡ length us
      length-pop_at i [] = refl
      length-pop_at zero (v ∷ us) = refl
      length-pop_at (suc i) (v ∷ us) = ap suc (length-pop_at i us)

  pub pop_at-AllSmall :
      (j : ℕ) (ts : List (ℕ × Table)) → AllSmall ts → AllSmall (pop_at (owned source) j ts).1
  unfolding pop_at
  pop_at-AllSmall j [] s = tt
  pop_at-AllSmall zero (t ∷ ts) s = (rw ((pop_lem t.1).1) (tail-KeysBelow (items t.1) s.0), s.1)
  pop_at-AllSmall (suc j) (t ∷ ts) s = (s.0, pop_at-AllSmall j ts s.1)

  EmptyPointed-more :
      (kvs : List Pointer) (p : Pointer) (ts : List (ℕ × Table))
      → EmptyPointed kvs ts
      → EmptyPointed (kvs ++ p ∷ []) ts
  EmptyPointed-more kvs p [] h = tt
  EmptyPointed-more kvs p (t ∷ ts) h =
      (λ nil. pointed_more t.0 kvs p (h.0 nil), EmptyPointed-more kvs p ts h.1)

  pub pop_at-EmptyPointed :
      (j : ℕ) (ts : List (ℕ × Table)) (kvs : List Pointer) (x : KeyIdxPair)
      → EmptyPointed kvs ts
      → EmptyPointed
          (kvs ++ record { owner = owner_at source j ts; item = x } ∷ [])
          (pop_at (owned source) j ts).1
  unfolding pop_at owner_at
  pop_at-EmptyPointed j [] kvs x h = tt
  pop_at-EmptyPointed zero (t ∷ ts) kvs x h =
      let p : Pointer = record { owner = t.0; item = x } in
      (λ nil. pointed_last kvs p, EmptyPointed-more kvs p ts h.1)
  pop_at-EmptyPointed (suc j) (t ∷ ts) kvs x h =
      let p : Pointer = record { owner = owner_at source j ts; item = x } in
      (λ nil. pointed_more t.0 kvs p (h.0 nil), pop_at-EmptyPointed j ts kvs x h.1)

  pub owner-pointed :
      (j e : ℕ) (ts : List (ℕ × Table)) (u : ℕ × Table) (kvs : List Pointer)
      → EmptyPointed kvs ts
      → get_elem? ts e ≡ some u
      → items u.1 ≡ []
      → pointed (owner_at source e (pop_at (owned source) j ts).1) kvs ≡ true
  unfolding pop_at owner_at
  owner-pointed j e [] u kvs h at nil = absurd cc
  owner-pointed zero zero (t ∷ ts) u kvs h at nil =
      let same : t ≡ u = cc in h.0 (ap (λ (v : ℕ × Table). items v.1) same ∙ nil)
  owner-pointed (suc j) zero (t ∷ ts) u kvs h at nil =
      let same : t ≡ u = cc in h.0 (ap (λ (v : ℕ × Table). items v.1) same ∙ nil)
  owner-pointed zero (suc e) (t ∷ ts) u kvs h at nil = beside e ts h.1 at
    where
      beside :
          (i : ℕ) (us : List (ℕ × Table))
          → EmptyPointed kvs us
          → get_elem? us i ≡ some u
          → pointed (owner_at source i us) kvs ≡ true
      beside i [] f there = absurd cc
      beside zero (v ∷ us) f there =
          let same : v ≡ u = cc in f.0 (ap (λ (w : ℕ × Table). items w.1) same ∙ nil)
      beside (suc i) (v ∷ us) f there = beside i us f.1 there
  owner-pointed (suc j) (suc e) (t ∷ ts) u kvs h at nil = owner-pointed j e ts u kvs h.1 at nil
