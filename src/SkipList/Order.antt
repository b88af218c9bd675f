-- ===== src/SkipList/Order.antt =====
-- Lists of places in ascending order of their keys, and the last place with a key up to a given
-- one. `f` gives the key of a place.
use polardb_uncompleted.Base.{
  ℕ, ◌≤◌, ◌<◌, ◌≡◌, ◌≢◌, refl, ◌⊎◌, inl, true, false, ◌||◌, List, [], ◌∷◌, arith, ◌==◌, leb,
  if◌then◌else◌, length, ℕ_discrete, dec_lt, ==_refl,
}
use polardb_uncompleted.SkipList.Chains.{has, Chain}
use polardb_uncompleted.SkipList.Levels.{SkipListNode}
use polardb_uncompleted.SkipList.Link.{insert_in, place_after}

-- Every key is above `k`.
abbrev pub Over : (ℕ → ℕ) → ℕ → List ℕ → Type 0
Over f k [] = Unit
Over f k (x ∷ xs) = (k < f x) × Over f k xs

abbrev pub Ascends : (ℕ → ℕ) → List ℕ → Type 0
Ascends f [] = Unit
Ascends f (x ∷ xs) = Over f (f x) xs × Ascends f xs

abbrev pub Once : List ℕ → Type 0
Once [] = Unit
Once (x ∷ xs) = (has x xs ≡ false) × Once xs

-- The last place whose key is at most `key`, and `p` if there is none.
unfoldable pub last_le : (ℕ → ℕ) → ℕ → ℕ → List ℕ → ℕ
last_le f key p [] = p
last_le f key p (x ∷ xs) = let rest = last_le f key x xs in if leb (f x) key then rest else p

-- The places behind `c`.
unfoldable pub after : ℕ → List ℕ → List ℕ
after c [] = []
after c (x ∷ xs) = let rest = after c xs in if x == c then xs else rest

pub Chain-Once : (f : ℕ → SkipListNode) (size q : ℕ) (xs : List ℕ) → Chain f size q xs → Once xs
Chain-Once f size q [] h = tt
Chain-Once f size q (x ∷ xs) (e, pos, lt, once, rest) = (once, Chain-Once f size _ xs rest)

pub Chain-after :
    (f : ℕ → SkipListNode) (size q c : ℕ) (xs : List ℕ)
    → Chain f size q xs
    → has c xs ≡ true
    → Chain f size (f c).next (after c xs) × (length (after c xs) < length xs)
unfolding after
Chain-after f size q c [] h m = cc
Chain-after f size q c (x ∷ xs) (e, pos, lt, once, rest) m = elim (ℕ_discrete x c) [
  | yes at ↦ rw (at, ==_refl) (rw at at rest, omega arith)
  | no ne ↦
      let past : (x == c) ≡ false = ground arith in
      let (chain, less) = Chain-after f size (f x).next c xs rest (ground arith) in
      rw past (chain, omega (arith, less))
]

module _ (f : ℕ → ℕ) where
  pub Over-has : (k a : ℕ) (xs : List ℕ) → Over f k xs → has a xs ≡ true → k < f a
  Over-has k a [] h m = cc
  Over-has k a (x ∷ xs) h m = elim (ℕ_discrete a x) [
    | yes e ↦ rw e h.0
    | no ne ↦ Over-has k a xs h.1 (ground arith)
  ]

  Over-of : (k : ℕ) (xs : List ℕ) → ((a : ℕ) → has a xs ≡ true → k < f a) → Over f k xs
  Over-of k [] h = tt
  Over-of k (x ∷ xs) h = (h x (ground arith), Over-of k xs (λ a m. h a (ground arith)))

  Over-mono : (j k : ℕ) (xs : List ℕ) → j ≤ k → Over f k xs → Over f j xs
  Over-mono j k [] le h = tt
  Over-mono j k (x ∷ xs) le h = (omega (arith, h.0), Over-mono j k xs le h.1)

  last_le-Over : (key p : ℕ) (xs : List ℕ) → Over f key xs → last_le f key p xs ≡ p
  unfolding last_le
  last_le-Over key p [] h = refl
  last_le-Over key p (x ∷ xs) h = ground (arith, h.0)

  -- A place with a key up to `key` may be passed over.
  pub last_le-after :
      (key p c : ℕ) (xs : List ℕ)
      → Ascends f xs
      → has c xs ≡ true
      → f c ≤ key
      → last_le f key p xs ≡ last_le f key c (after c xs)
  unfolding last_le after
  last_le-after key p c [] s m le = cc
  last_le-after key p c (x ∷ xs) s m le = elim (ℕ_discrete x c) [
    | yes e ↦ rw (e, ==_refl) (ground arith)
    | no ne ↦
        let m' : has c xs ≡ true = ground arith in
        let lt = Over-has (f x) c xs s.0 m' in
        let ih = last_le-after key x c xs s.1 m' le in ground (arith, ih, lt)
  ]

  pub last_le-has :
      (key p : ℕ) (xs : List ℕ)
      → (last_le f key p xs ≡ p)
        ⊎ ((has (last_le f key p xs) xs ≡ true) × (f (last_le f key p xs) ≤ key))
  unfolding last_le
  last_le-has key p [] = inl refl
  last_le-has key p (x ∷ xs) = ground (arith, last_le-has key x xs)

  -- A key that is there is found.
  pub last_le-found :
      (key p a : ℕ) (xs : List ℕ)
      → Ascends f xs
      → has a xs ≡ true
      → f a ≡ key
      → last_le f key p xs ≡ a
  unfolding last_le
  last_le-found key p a [] s m e = cc
  last_le-found key p a (x ∷ xs) s m e = elim (ℕ_discrete a x) [
    | yes at ↦
        let over : Over f key xs = rw (← e, at) s.0 in ground (arith, last_le-Over key x xs over)
    | no ne ↦
        let m' : has a xs ≡ true = ground arith in
        let lt = Over-has (f x) a xs s.0 m' in ground (arith, last_le-found key x a xs s.1 m' e, lt)
  ]

  -- The place `n` in front of the first key above `key`.
  unfoldable pub insert_key : ℕ → ℕ → List ℕ → List ℕ
  insert_key key n [] = n ∷ []
  insert_key key n (x ∷ xs) =
      let rest = insert_key key n xs in if leb (f x) key then x ∷ rest else n ∷ x ∷ xs

  place_key :
      (key n p : ℕ) (xs : List ℕ)
      → has p xs ≡ false
      → Once xs
      → (if last_le f key p xs == p then n ∷ xs else insert_in (last_le f key p xs) n xs)
        ≡ insert_key key n xs
  unfolding last_le insert_in insert_key
  place_key key n p [] out once = ground arith
  place_key key n p (x ∷ xs) out once =
      ground (arith, place_key key n x xs once.0 once.1, last_le-has key x xs)

  pub place_after-insert_key :
      (key n : ℕ) (xs : List ℕ)
      → has 0 xs ≡ false
      → Once xs
      → place_after (last_le f key 0 xs) n xs ≡ insert_key key n xs
  unfolding place_after
  place_after-insert_key key n xs out once = place_key key n 0 xs out once

  has-insert_key :
      (key n a : ℕ) (xs : List ℕ) → has a (insert_key key n xs) ≡ ((a == n) || has a xs)
  unfolding insert_key
  has-insert_key key n a [] = refl
  has-insert_key key n a (x ∷ xs) = ground (arith, has-insert_key key n a xs)

Ascends-of :
    (f g : ℕ → ℕ) (xs : List ℕ)
    → ((a : ℕ) → has a xs ≡ true → g a ≡ f a)
    → Ascends f xs
    → Ascends g xs
Ascends-of f g [] same s = tt
Ascends-of f g (x ∷ xs) same s = (
  Over-of g (g x) xs (λ a m.
      omega (arith, Over-has f (f x) a xs s.0 m, same a (ground arith), same x (ground arith))),
  Ascends-of f g xs (λ a m. same a (ground arith)) s.1,
)

-- A place with a new key keeps the order.
pub insert_key-Ascends :
    (f g : ℕ → ℕ) (key n : ℕ) (xs : List ℕ)
    → ((a : ℕ) → has a xs ≡ true → g a ≡ f a)
    → g n ≡ key
    → ((a : ℕ) → has a xs ≡ true → f a ≢ key)
    → Ascends f xs
    → Ascends g (insert_key f key n xs)
unfolding insert_key
insert_key-Ascends f g key n [] same new absent s = (tt, tt)
insert_key-Ascends f g key n (x ∷ xs) same new absent s = elim (dec_lt key (f x)) [
  | yes lt ↦
      let t : leb (f x) key ≡ false = ground arith in
      let old = Ascends-of f g (x ∷ xs) same s in
      let head = same x (ground arith) in
      rw t ((omega arith, Over-mono g (g n) (g x) xs (omega arith) old.0), old)
  | no ge ↦
      let t : leb (f x) key ≡ true = ground arith in
      let ne = absent x (ground arith) in
      let head = same x (ground arith) in
      let rest =
        insert_key-Ascends f g key n xs (λ a m. same a (ground arith)) new
          (λ a m. absent a (ground arith)) s.1 in
      rw t (
        Over-of g (g x) (insert_key f key n xs) (λ a m. elim (ℕ_discrete a n) [
          | yes e ↦ rw e (omega arith)
          | no off ↦
              let m' : has a xs ≡ true = ground (arith, has-insert_key f key n a xs) in
              omega (arith, Over-has f (f x) a xs s.0 m', same a (ground arith))
        ]),
        rest,
      )
]
