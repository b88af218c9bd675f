-- ===== src/SkipList/Refine.antt =====
-- Class SkipList implements a map from keys to status words.
use polardb_uncompleted.Base.{
  ℕ, zero, suc, ◌≤◌, ◌<◌, ◌≡◌, ◌≢◌, refl, sym, ◌∙◌, ap, ◌⊎◌, inl, inr, true, false, Option, none,
  some, List, [], ◌∷◌, arith, ◌==◌, if◌then◌else◌, ℕ_discrete, ==_refl,
}
use polardb_uncompleted.Index.{Index}
use polardb_uncompleted.IndexHashMap.{KeyIdxPair}
use polardb_uncompleted.SkipList.{SkipList, heighest_from, get}
use polardb_uncompleted.SkipList.Chains.{has}
use polardb_uncompleted.SkipList.Get.{get-Outcome, get-found, get-Missing}
use polardb_uncompleted.SkipList.Levels.{Level}
use polardb_uncompleted.SkipList.Walk.{key_at, IsLevel, IsValid, Missing}

-- What a reader finds under a key.
unfoldable pub view : SkipList → ℕ → Option Index
view s key = elim (get s key).0 [ none ↦ none | some a ↦ some ((s.levels 0).nodes a).item.idx ]

module _ (s : SkipList) (xs : ℕ → List ℕ) (key : ℕ) (valid : IsValid s xs) where
  pub view-found :
      (a : ℕ)
      → has a (xs 0) ≡ true
      → key_at (s.levels 0) a ≡ key
      → view s key ≡ some ((s.levels 0).nodes a).item.idx
  unfolding view
  view-found a m e = rw (get-found s xs key valid a m e, view) refl

  pub view-Missing : Missing s xs key 0 → view s key ≡ none
  unfolding view
  view-Missing gone = rw (get-Missing s xs key valid gone, view) refl

  -- A key stands on level 0 or it does not.
  pub place_cases :
      ((a : ℕ) × (has a (xs 0) ≡ true) × (key_at (s.levels 0) a ≡ key)) ⊎ Missing s xs key 0
  place_cases = elim (get-Outcome s xs key valid) [
    | inl (a, r, m, e) ↦ inl (a, m, e)
    | inr (r, gone) ↦ inr (gone 0 (omega arith))
  ]

-- The levels above the highest one in use are empty.
pub heighest_from-empty :
    (s : SkipList) (top i : ℕ) → heighest_from s top < i → i ≤ top → ((s.levels i).nodes 0).next ≡ 0
unfolding heighest_from
heighest_from-empty s zero i lt le = absurd (omega arith)
heighest_from-empty s (suc top) i lt le = elim (ℕ_discrete i (suc top)) [
  | yes e ↦ rw e (ground arith)
  | no ne ↦ ground (arith, heighest_from-empty s top i)
]

pub empty_of : (l : Level) (xs : List ℕ) → IsLevel l xs → (l.nodes 0).next ≡ 0 → xs ≡ []
empty_of l [] h z = refl
empty_of l (x ∷ xs) h z = let used = h.ready.split.used in absurd (omega (arith, used.0, used.1))

-- The key `key` has the word `word` on level 0, at the place `n`, and every other place has what it
-- had.
pub record Writes (s : SkipList) (xs : ℕ → List ℕ) (key : ℕ) (word : Index) (s' : SkipList)
    (xs' : ℕ → List ℕ) (n : ℕ) : Type 0 where
  pub valid : IsValid s xs
  pub valid' : IsValid s' xs'
  pub there : has n (xs' 0) ≡ true
  pub item : ((s'.levels 0).nodes n).item ≡ record { key = key; idx = word }
  pub old :
      (a : ℕ)
      → has a (xs 0) ≡ true
      → a ≢ n
      → (has a (xs' 0) ≡ true) × (((s'.levels 0).nodes a).item ≡ ((s.levels 0).nodes a).item)
  pub no_more : (a : ℕ) → has a (xs' 0) ≡ true → a ≢ n → has a (xs 0) ≡ true
  pub same_key : has n (xs 0) ≡ true → key_at (s.levels 0) n ≡ key

pub Writes-view :
    (s : SkipList) (xs : ℕ → List ℕ) (key : ℕ) (word : Index) (s' : SkipList) (xs' : ℕ → List ℕ)
    (n : ℕ)
    → Writes s xs key word s' xs' n
    → (q : ℕ) → view s' q ≡ (if q == key then some word else view s q)
Writes-view s xs key word s' xs' n w q = elim (ℕ_discrete q key) [
  | yes e ↦
      rw (e, ==_refl)
        (view-found s' xs' key w.valid' n w.there (ap (λ (i : KeyIdxPair). i.key) w.item)
          ∙ ap (λ (i : KeyIdxPair). some i.idx) w.item)
  | no ne ↦
      let f : (q == key) ≡ false = ground arith in
      rw f (elim (place_cases s xs q w.valid) [
        | inl (a, m, k) ↦
            let off : a ≢ n =
              λ e. ne (sym k ∙ ap (key_at (s.levels 0)) e ∙ w.same_key (rw e at m)) in
            let (m', same) = w.old a m off in
            view-found s' xs' q w.valid' a m' (ap (λ (i : KeyIdxPair). i.key) same ∙ k)
            ∙ ap (λ (i : KeyIdxPair). some i.idx) same
            ∙ sym (view-found s xs q w.valid a m k)
        | inr gone ↦
            view-Missing s' xs' q w.valid' (λ a m k. elim (ℕ_discrete a n) [
              | yes e ↦
                  ne (sym k ∙ ap (key_at (s'.levels 0)) e ∙ ap (λ (i : KeyIdxPair). i.key) w.item)
              | no off ↦
                  let m' = w.no_more a m off in
                  gone a m' (sym (ap (λ (i : KeyIdxPair). i.key) (w.old a m' off).1) ∙ k)
            ])
            ∙ sym (view-Missing s xs q w.valid gone)
      ])
]
