-- ===== src/SkipList/Chains.antt =====
-- The two linked lists of a level.
use polardb_uncompleted.Base.{
  ℕ, ◌≤◌, ◌<◌, ◌≡◌, refl, Bool, true, false, ◌||◌, List, [], ◌∷◌, arith, ◌==◌,
}
use polardb_uncompleted.SkipList.Levels.{SkipListNode, Level}

abbrev pub has : ℕ → List ℕ → Bool
has a [] = false
has a (x ∷ xs) = (a == x) || has a xs

-- From `p` the `next` fields lead through the nodes `xs`, which are nodes of the vector other than
-- node 0 and each stand once, to 0.
abbrev pub Chain : (ℕ → SkipListNode) → ℕ → ℕ → List ℕ → Type 0
Chain nodes size p [] = p ≡ 0
Chain nodes size p (x ∷ xs) =
    (p ≡ x) × (0 < x) × (x < size) × (has x xs ≡ false) × Chain nodes size (nodes x).next xs

abbrev pub Apart : List ℕ → List ℕ → Type 0
Apart xs ys = (a : ℕ) → has a xs ≡ true → has a ys ≡ false

-- `xs` are the places of the elements in order, `free` the unused nodes.
pub record IsSplit (l : Level) (xs free : List ℕ) : Type 0 where
  pub used : Chain l.nodes l.size (l.nodes 0).next xs
  pub unused : Chain l.nodes l.size (l.nodes 0).bottom free
  pub apart : Apart xs free

-- A chain is the same where the `next` fields of its nodes are.
pub Chain-frame :
    (f g : ℕ → SkipListNode) (m n p : ℕ) (xs : List ℕ)
    → m ≤ n
    → ((a : ℕ) → has a xs ≡ true → (g a).next ≡ (f a).next)
    → Chain f m p xs
    → Chain g n p xs
Chain-frame f g m n p [] le same h = h
Chain-frame f g m n p (x ∷ xs) le same (e, pos, lt, once, rest) = (
  e,
  pos,
  omega arith,
  once,
  rw (same x (ground arith))
      (Chain-frame f g m n (f x).next xs le (λ a h. same a (ground arith)) rest),
)

-- Node 0 is in no chain.
pub has-zero : (f : ℕ → SkipListNode) (n p : ℕ) (xs : List ℕ) → Chain f n p xs → has 0 xs ≡ false
has-zero f n p [] h = refl
has-zero f n p (x ∷ xs) (e, pos, lt, once, rest) = ground (arith, has-zero f n _ xs rest)

-- The nodes of a chain are nodes of the vector.
pub mem-lt :
    (f : ℕ → SkipListNode) (n p : ℕ) (xs : List ℕ)
    → Chain f n p xs
    → (a : ℕ) → has a xs ≡ true
    → a < n
mem-lt f n p [] h a m = cc
mem-lt f n p (x ∷ xs) (e, pos, lt, once, rest) a m = ground (arith, mem-lt f n _ xs rest a)

pub Chain-pos :
    (f : ℕ → SkipListNode) (n p : ℕ) (xs : List ℕ)
    → Chain f n p xs
    → (a : ℕ) → has a xs ≡ true
    → 0 < a
Chain-pos f n p [] h a m = cc
Chain-pos f n p (x ∷ xs) (e, pos, lt, once, rest) a m = ground (arith, Chain-pos f n _ xs rest a)
