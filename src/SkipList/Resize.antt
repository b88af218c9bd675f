-- ===== src/SkipList/Resize.antt =====
-- Unused nodes: the constructor and `check_and_resize`.
use polardb_uncompleted.Base.{
  ℕ, zero, suc, ◌+◌, ◌-◌, ◌*◌, ◌≤◌, ◌<◌, ◌≡◌, ◌≢◌, refl, ap, ◌∙◌, false, List, [], ◌∷◌, arith, ltb,
  if◌then◌else◌, write, length, ℕ_discrete,
}
use polardb_uncompleted.SkipList.Chains.{has, Chain, IsSplit, Chain-frame}
use polardb_uncompleted.SkipList.Levels.{
  SkipListNode, Level, new_node, give_back, give_all, empty_level, check_and_resize,
}

module _ (l : Level) (n : ℕ) (pos : 0 < n) where
  give_back-head : ((give_back l n).nodes 0).next ≡ (l.nodes 0).next
  unfolding give_back write
  give_back-head = ground arith

  give_back-node : ((give_back l n).nodes n).next ≡ (l.nodes 0).bottom
  unfolding give_back write
  give_back-node = ground arith

  give_back-next : (a : ℕ) → a ≢ n → ((give_back l n).nodes a).next ≡ (l.nodes a).next
  unfolding give_back write
  give_back-next a ne = ground arith

  give_back-bottom : ((give_back l n).nodes 0).bottom ≡ n
  unfolding give_back write
  give_back-bottom = ground arith

  pub give_back-item : (a : ℕ) → ((give_back l n).nodes a).item ≡ (l.nodes a).item
  unfolding give_back write
  give_back-item a = ground arith

  give_back-size : ((give_back l n).size ≡ l.size) × ((give_back l n).capacity ≡ l.capacity)
  unfolding give_back
  give_back-size = (refl, refl)

  give_back-IsSplit :
      (xs free : List ℕ)
      → n < l.size
      → has n xs ≡ false
      → has n free ≡ false
      → IsSplit l xs free
      → IsSplit (give_back l n) xs (n ∷ free)
  give_back-IsSplit xs free lt out new h =
      let wide : l.size ≤ (give_back l n).size = omega (arith, give_back-size.0) in
      record {
        used = rw give_back-head (
            Chain-frame l.nodes (give_back l n).nodes l.size (give_back l n).size _ xs wide
              (λ a m. give_back-next a (λ e. cc (m, rw (← e) at out))) h.used);
        unused = (
          give_back-bottom,
          pos,
          omega arith,
          new,
          rw give_back-node (
              Chain-frame l.nodes (give_back l n).nodes l.size (give_back l n).size _ free wide
                (λ a m. give_back-next a (λ e. cc (m, rw (← e) at new))) h.unused),
        );
        apart = λ a m. ground (arith, h.apart a);
      }

-- The unused nodes after `count` more from `n` on.
pub countdown : ℕ → ℕ → List ℕ → List ℕ
countdown n zero free = free
countdown n (suc count) free = countdown (suc n) count (n ∷ free)

pub length-countdown :
    (n count : ℕ) (free : List ℕ) → length (countdown n count free) ≡ count + length free
unfolding countdown
length-countdown n zero free = omega arith
length-countdown n (suc count) free = omega (arith, length-countdown (suc n) count (n ∷ free))

abbrev Below : ℕ → List ℕ → Type 0
Below n xs = (a : ℕ) → n ≤ a → has a xs ≡ false

give_all-lem :
    (l : Level) (n count : ℕ) (xs free : List ℕ)
    → 0 < n
    → n + count ≤ l.size
    → Below n xs
    → Below n free
    → IsSplit l xs free
    → IsSplit (give_all l n count) xs (countdown n count free)
      × ((give_all l n count).size ≡ l.size)
      × ((give_all l n count).capacity ≡ l.capacity)
      × ((a : ℕ) → ((give_all l n count).nodes a).item ≡ (l.nodes a).item)
unfolding give_all countdown
give_all-lem l n zero xs free pos fits bx bf h = (h, refl, refl, λ a. refl)
give_all-lem l n (suc count) xs free pos fits bx bf h =
    let h' =
      give_back-IsSplit l n pos xs free (omega arith) (bx n (omega arith)) (bf n (omega arith)) h in
    let (size, capacity) = give_back-size l n pos in
    let (split, s, c, same) =
      give_all-lem (give_back l n) (suc n) count xs (n ∷ free) (omega arith) (omega arith)
        (λ a le. bx a (omega arith)) (λ a le. ground (arith, bf a)) h' in
    (split, s ∙ size, c ∙ capacity, λ a. same a ∙ give_back-item l n pos a)

-- A level that is ready for an insertion: its nodes but node 0 are elements or unused, and
-- `capacity` counts the unused ones, of which there is at least one.
pub record IsReady (l : Level) (xs free : List ℕ) : Type 0 where
  pub split : IsSplit l xs free
  pub counted : l.capacity ≡ length free
  pub total : length xs + length free + 1 ≡ l.size
  pub room : 0 < l.capacity

-- The constructor makes every level empty and ready.
pub empty_level-IsReady : (free : List ℕ) × IsReady empty_level [] free
unfolding empty_level
empty_level-IsReady =
    let blank : Level = record { nodes = λ i. new_node; size = 10; capacity = 9 } in
    let none_yet : IsSplit blank [] [] = record {
      used = refl;
      unused = refl;
      apart = λ a m. refl;
    } in
    let (split, size, capacity, same) =
      give_all-lem blank 1 9 [] [] (omega arith) (omega arith) (λ a le. refl) (λ a le. refl)
        none_yet in
    let count = length-countdown 1 9 [] in
    (
      countdown 1 9 [],
      record { split = split; counted = omega arith; total = omega arith; room = omega arith },
    )

-- The vector after `resize`, before its new nodes are made unused.
unfoldable pub grown : Level → Level
grown l = record {
  nodes = λ i. if ltb i l.size then l.nodes i else new_node;
  size = l.size * 2;
  capacity = l.size * 2 - l.size;
}

Chain-Below : (f : ℕ → SkipListNode) (n p : ℕ) (xs : List ℕ) → Chain f n p xs → Below n xs
Chain-Below f n p [] h a le = refl
Chain-Below f n p (x ∷ xs) (e, pos, lt, once, rest) a le =
    ground (arith, Chain-Below f n _ xs rest a)

grown-Chain :
    (l : Level) (p : ℕ) (xs : List ℕ)
    → Chain l.nodes l.size p xs
    → Chain (grown l).nodes (grown l).size p xs
unfolding grown
grown-Chain l p xs h =
    Chain-frame l.nodes (grown l).nodes l.size (grown l).size p xs (omega arith)
      (λ a m. ground (arith, Chain-Below l.nodes l.size p xs h a)) h

pub grown-old : (l : Level) (a : ℕ) → a < l.size → (grown l).nodes a ≡ l.nodes a
unfolding grown
grown-old l a lt = ground arith

grown-IsSplit :
    (l : Level) (xs free : List ℕ) → 0 < l.size → IsSplit l xs free → IsSplit (grown l) xs free
grown-IsSplit l xs free pos h = record {
  used = rw (grown-old l 0 pos) (grown-Chain l _ xs h.used);
  unused = rw (grown-old l 0 pos) (grown-Chain l _ free h.unused);
  apart = h.apart;
}

grown-size : (l : Level) → ((grown l).size ≡ l.size * 2) × ((grown l).capacity ≡ l.size)
unfolding grown
grown-size l = (refl, omega arith)

pub check_and_resize_full :
    (l : Level) → l.capacity ≡ 0 → check_and_resize l ≡ give_all (grown l) l.size l.size
unfolding check_and_resize grown
check_and_resize_full l h = rw h

pub check_and_resize_room : (l : Level) → 0 < l.capacity → check_and_resize l ≡ l
unfolding check_and_resize
check_and_resize_room l h = ground arith

-- Whatever the number of unused nodes, `check_and_resize` leaves a level that is ready, with the
-- same elements.
pub check_and_resize-IsReady :
    (l : Level) (xs free : List ℕ)
    → IsSplit l xs free
    → l.capacity ≡ length free
    → length xs + length free + 1 ≡ l.size
    → (free' : List ℕ) × IsReady (check_and_resize l) xs free'
      × ((a : ℕ) → a < l.size → ((check_and_resize l).nodes a).item ≡ (l.nodes a).item)
check_and_resize-IsReady l xs free h counted total = elim (ℕ_discrete l.capacity 0) [
  | no n ↦ rw (check_and_resize_room l (omega arith)) (
    free,
    record { split = h; counted = counted; total = total; room = omega arith },
    λ a lt. refl,
  )
  | yes e ↦
      let (size, capacity) = grown-size l in
      let (split, s, c, same) =
        give_all-lem (grown l) l.size l.size xs free (omega arith) (omega arith)
          (Chain-Below l.nodes l.size _ xs h.used) (Chain-Below l.nodes l.size _ free h.unused)
          (grown-IsSplit l xs free (omega arith) h) in
      let count = length-countdown l.size l.size free in
      rw (check_and_resize_full l e) (
        countdown l.size l.size free,
        record { split = split; counted = omega arith; total = omega arith; room = omega arith },
        λ a lt. same a ∙ ap (λ (n : SkipListNode). n.item) (grown-old l a lt),
      )
]
