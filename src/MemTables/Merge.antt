-- ===== src/MemTables/Merge.antt =====
-- The while loop of the dumper: what it writes, and in which order.
use polardb_uncompleted.Base.{
  ℕ, zero, suc, ◌+◌, ◌≤◌, ◌≡◌, refl, sym, ap, ◌∙◌, Bool, true, some, List, [], ◌∷◌, ◌++◌, arith,
  ltb, if◌then◌else◌, get_elem?,
}
use polardb_uncompleted.IndexHashMap.{KeyIdxPair}
use polardb_uncompleted.MemTables.Dumper.{pop_at, erase_at}
use polardb_uncompleted.MemTables.Minimum.{FirstAbove, AllAbove}
use polardb_uncompleted.MemTables.Source.{Source, head?, tail}

-- How many records satisfy a test. Two lists have the same records, each as often, if they agree
-- for every test.
unfoldable pub count : (KeyIdxPair → Bool) → List KeyIdxPair → ℕ
count p [] = 0
count p (x ∷ xs) = (if p x then 1 else 0) + count p xs

pub count-append :
    (p : KeyIdxPair → Bool) (xs ys : List KeyIdxPair) → count p (xs ++ ys) ≡ count p xs + count p ys
unfolding count
count-append p [] ys = omega arith
count-append p (x ∷ xs) ys = omega (arith, count-append p xs ys)

abbrev pub below : ℕ → KeyIdxPair → Bool
below k x = ltb x.key k

-- In ascending order of the keys.
abbrev pub IsAscending : List KeyIdxPair → Type 0
IsAscending [] = Unit
IsAscending (x ∷ xs) = (count (below x.key) xs ≡ 0) × IsAscending xs

count_mono :
    (p q : KeyIdxPair → Bool) (xs : List KeyIdxPair)
    → ((x : KeyIdxPair) → p x ≡ true → q x ≡ true)
    → count p xs ≤ count q xs
unfolding count
count_mono p q [] h = omega arith
count_mono p q (x ∷ xs) h = ground (arith, count_mono p q xs h, h x)

-- An ascending list whose first key is at least `k` has no smaller key.
above-count :
    (k : ℕ) (xs : List KeyIdxPair) → IsAscending xs → FirstAbove k xs → count (below k) xs ≡ 0
unfolding count
above-count k [] s f = refl
above-count k (x ∷ xs) s f =
    ground (arith, s.0, count_mono (below k) (below x.key) xs (λ y h. ground arith))

tail-lem :
    (xs : List KeyIdxPair) (x : KeyIdxPair)
    → head? xs ≡ some x
    → (IsAscending xs → IsAscending (tail xs))
      × ((p : KeyIdxPair → Bool) → count p xs ≡ (if p x then 1 else 0) + count p (tail xs))
unfolding count
tail-lem [] x h = cc
tail-lem (y ∷ ys) x h = (λ s. s.1, λ p. let e : y ≡ x = cc in rw e)

abbrev pub all : KeyIdxPair → Bool
all x = true

module _ (source : Source) where
  open source use {Table, front, pop, items, front_lem, pop_lem}

  unfoldable pub total : (KeyIdxPair → Bool) → List Table → ℕ
  total p [] = 0
  total p (t ∷ ts) = count p (items t) + total p ts

  abbrev pub AllAscending : List Table → Type 0
  AllAscending [] = Unit
  AllAscending (t ∷ ts) = IsAscending (items t) × AllAscending ts

  -- No table that a scan has passed has a key below its least first key.
  pub above-total :
      (k : ℕ) (ts : List Table) → AllAscending ts → AllAbove source k ts → total (below k) ts ≡ 0
  unfolding total
  above-total k [] s a = refl
  above-total k (t ∷ ts) s a =
      omega (arith, above-count k (items t) s.0 a.0, above-total k ts s.1 a.1)

  pub total_mono :
      (p q : KeyIdxPair → Bool) (ts : List Table)
      → ((x : KeyIdxPair) → p x ≡ true → q x ≡ true)
      → total p ts ≤ total q ts
  unfolding total
  total_mono p q [] h = omega arith
  total_mono p q (t ∷ ts) h = omega (arith, count_mono p q (items t) h, total_mono p q ts h)

  -- Popping the table at position `j` takes its first record away.
  pub pop_at-lem :
      (j : ℕ) (ts : List Table) (t : Table) (x : KeyIdxPair)
      → get_elem? ts j ≡ some t
      → head? (items t) ≡ some x
      → AllAscending ts
      → ((pop_at source j ts).0 ≡ some x)
        × AllAscending (pop_at source j ts).1
        × ((p : KeyIdxPair → Bool)
            → total p ts ≡ (if p x then 1 else 0) + total p (pop_at source j ts).1)
  unfolding pop_at total
  pop_at-lem j [] t x at hd s = cc
  pop_at-lem zero (u ∷ ts) t x at hd s =
      let e : u ≡ t = cc in
      let hd' : head? (items u) ≡ some x = rw e hd in
      let (asc, cnt) = tail-lem (items u) x hd' in
      let (r, rest) = pop_lem u in
      (r ∙ hd', (rw rest (asc s.0), s.1), λ p. rw rest (omega (arith, cnt p)))
  pop_at-lem (suc j) (u ∷ ts) t x at hd s =
      let (r, asc, tot) = pop_at-lem j ts t x at hd s.1 in
      (r, (s.0, asc), λ p. omega (arith, tot p))

  -- Erasing an empty table changes no record.
  pub erase_at-lem :
      (j : ℕ) (ts : List Table) (t : Table)
      → get_elem? ts j ≡ some t
      → items t ≡ []
      → AllAscending ts
      → AllAscending (erase_at source j ts)
        × ((p : KeyIdxPair → Bool) → total p (erase_at source j ts) ≡ total p ts)
  unfolding erase_at total count
  erase_at-lem j [] t at nil s = cc
  erase_at-lem zero (u ∷ ts) t at nil s =
      let e : u ≡ t = cc in
      (s.1, λ p. omega (arith, ap (λ (v : Table). count p (items v)) e, ap (count p) nil))
  erase_at-lem (suc j) (u ∷ ts) t at nil s =
      let (asc, tot) = erase_at-lem j ts t at nil s.1 in ((s.0, asc), λ p. omega (arith, tot p))

  pub total-zero :
      (p q : KeyIdxPair → Bool) (ts : List Table)
      → ((x : KeyIdxPair) → p x ≡ true → q x ≡ true)
      → total q ts ≡ 0
      → total p ts ≡ 0
  total-zero p q ts h z = omega (arith, total_mono p q ts h)

  pub pop_at-other :
      (j e : ℕ) (ts : List Table) (t u : Table) (x : KeyIdxPair)
      → get_elem? ts j ≡ some t
      → head? (items t) ≡ some x
      → get_elem? ts e ≡ some u
      → items u ≡ []
      → get_elem? (pop_at source j ts).1 e ≡ some u
  unfolding pop_at
  pop_at-other j e [] t u x at hd there nil = cc
  pop_at-other zero zero (v ∷ ts) t u x at hd there nil =
      let p : v ≡ t = cc in
      let q : v ≡ u = cc in
      let r : items t ≡ [] = ap items (sym p ∙ q) ∙ nil in
      let h : head? [] ≡ some x = rw r at hd in cc
  pop_at-other zero (suc e) (v ∷ ts) t u x at hd there nil = there
  pop_at-other (suc j) zero (v ∷ ts) t u x at hd there nil = there
  pop_at-other (suc j) (suc e) (v ∷ ts) t u x at hd there nil =
      pop_at-other j e ts t u x at hd there nil
