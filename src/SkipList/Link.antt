-- ===== src/SkipList/Link.antt =====
-- The four assignments of `insert_after`, and what they make of the two chains of a level.
use polardb_uncompleted.Base.{
  ℕ, suc, ◌-◌, ◌<◌, ◌≡◌, ◌≢◌, refl, ◌∙◌, ◌⊎◌, inl, inr, true, false, ◌||◌, List, [], ◌∷◌, arith,
  ◌==◌, if◌then◌else◌, write, length, ℕ_discrete, ==_refl,
}
use polardb_uncompleted.Base.Run.{ok}
use polardb_uncompleted.Index.{Index}
use polardb_uncompleted.SkipList.Chains.{has, Chain, Chain-frame}
use polardb_uncompleted.SkipList.Levels.{
  SkipListNode, Level, set_next, set_bottom, set_data, check_and_resize, insert_after,
}

-- `n` behind `p` in a list.
unfoldable pub insert_in : ℕ → ℕ → List ℕ → List ℕ
insert_in p n [] = []
insert_in p n (x ∷ xs) = let rest = insert_in p n xs in if x == p then x ∷ n ∷ xs else x ∷ rest

-- `n` behind the node `p`, where node 0 stands before all elements.
unfoldable pub place_after : ℕ → ℕ → List ℕ → List ℕ
unfolding insert_in
place_after p n xs = if p == 0 then n ∷ xs else insert_in p n xs

length-insert_in :
    (p n : ℕ) (xs : List ℕ) → has p xs ≡ true → length (insert_in p n xs) ≡ suc (length xs)
unfolding insert_in
length-insert_in p n [] h = cc
length-insert_in p n (x ∷ xs) h = ground (arith, length-insert_in p n xs)

has-insert_in :
    (p n a : ℕ) (xs : List ℕ) → has p xs ≡ true → has a (insert_in p n xs) ≡ ((a == n) || has a xs)
unfolding insert_in
has-insert_in p n a [] h = cc
has-insert_in p n a (x ∷ xs) h = ground (arith, has-insert_in p n a xs)

-- The level before `check_and_resize`, as four assignments leave it.
module _ (key : ℕ) (index : Index) (l : Level) (p : ℕ) where
  unfoldable pub place : ℕ
  place = (l.nodes 0).bottom

  unfoldable pub linked : Level
  unfolding place set_next set_bottom set_data
  linked =
      let l₁ = set_bottom l 0 (l.nodes place).next in
      let l₂ = set_next l₁ place (l₁.nodes p).next in
      let l₃ = set_next l₂ p place in
      let l₄ = set_data l₃ place (record { key = key; idx = index }) in
      record l₄ { capacity = l₄.capacity - 1 }

  pub insert_after-linked :
      0 < l.capacity → insert_after key index l p ≡ ok (check_and_resize linked, place)
  unfolding insert_after linked
  insert_after-linked h = ground arith

  pub linked-size : (linked.size ≡ l.size) × (linked.capacity ≡ l.capacity - 1)
  unfolding linked
  linked-size = (refl, refl)

  module _ (pos : 0 < place) (ne : p ≢ place) where
    pub linked-next :
        (a : ℕ)
        → (linked.nodes a).next
          ≡ (if a == p then place else if a == place then (l.nodes p).next else (l.nodes a).next)
    unfolding linked write
    linked-next a = ground arith

    pub linked-bottom : (linked.nodes 0).bottom ≡ (l.nodes place).next
    unfolding linked write
    linked-bottom = ground arith

    pub linked-item :
        (a : ℕ)
        → (linked.nodes a).item
          ≡ (if a == place then record { key = key; idx = index } else (l.nodes a).item)
    unfolding linked write
    linked-item a = ground arith

-- What a change of the `next` fields as in `linked` makes of a chain.
module _ (f g : ℕ → SkipListNode) (size p n : ℕ) (pos : 0 < n) (lt : n < size) (ne : p ≢ n)
    (g-next : (a : ℕ)
      → (g a).next ≡ (if a == p then n else if a == n then (f p).next else (f a).next)) where
  pub g-at : (g p).next ≡ n
  g-at = rw (g-next p) (ground arith)

  pub g-new : (g n).next ≡ (f p).next
  g-new = rw (g-next n) (ground arith)

  pub g-off : (a : ℕ) → a ≢ p → a ≢ n → (g a).next ≡ (f a).next
  g-off a hp hn = rw (g-next a) (ground arith)

  pub kept :
      (q : ℕ) (xs : List ℕ)
      → has p xs ≡ false
      → has n xs ≡ false
      → Chain f size q xs
      → Chain g size q xs
  kept q xs hp hn h =
      Chain-frame f g size size q xs (omega arith)
        (λ a m. g-off a (apart_of a m p hp) (apart_of a m n hn)) h
    where
      apart_of : (a : ℕ) → has a xs ≡ true → (b : ℕ) → has b xs ≡ false → a ≢ b
      apart_of a m b out e = cc (m, rw (← e) at out)

  -- Behind an element `p`.
  pub insert_in-Chain :
      (q : ℕ) (xs : List ℕ)
      → has p xs ≡ true
      → has n xs ≡ false
      → Chain f size q xs
      → Chain g size q (insert_in p n xs)
  unfolding insert_in
  insert_in-Chain q [] hp hn h = cc
  insert_in-Chain q (x ∷ xs) hp hn (e, xpos, xlt, once, rest) = elim (ℕ_discrete x p) [
    | yes at ↦
        let hn' : has n xs ≡ false = ground arith in
        let hp' : has p xs ≡ false = rw at at once in
        rw (at, ==_refl)
          (
            e ∙ at,
            rw at at xpos,
            rw at at xlt,
            ground arith,
            (g-at, pos, lt, hn', rw g-new (kept (f p).next xs hp' hn' (rw at at rest))),
          )
    | no other ↦
        let hn' : has n xs ≡ false = ground arith in
        let hp' : has p xs ≡ true = ground arith in
        let past : (x == p) ≡ false = ground arith in
        let new : x ≢ n = ground arith in
        rw past (
          e,
          xpos,
          xlt,
          rw (has-insert_in p n x xs hp') (ground arith),
          rw (g-off x other new) (insert_in-Chain (f x).next xs hp' hn' rest),
        )
  ]

-- Where an element may be put: in front, or behind another one.
abbrev pub IsPoint : ℕ → List ℕ → Type 0
IsPoint p xs = (p ≡ 0) ⊎ (has p xs ≡ true)

pub has-place_after :
    (p n a : ℕ) (xs : List ℕ)
    → IsPoint p xs
    → (has a (place_after p n xs) ≡ ((a == n) || has a xs))
      × (length (place_after p n xs) ≡ suc (length xs))
unfolding place_after
has-place_after p n a xs (inl e) = rw e (refl, refl)
has-place_after p n a xs (inr m) = elim (ℕ_discrete p 0) [
  | yes e ↦ rw e (refl, refl)
  | no ne ↦ ground (arith, has-insert_in p n a xs m, length-insert_in p n xs m)
]
