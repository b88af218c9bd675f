-- ===== src/SkipList/Keep.antt =====
-- What an insertion into a level leaves alone: the item of node 0 and the `bottom` fields of the
-- elements, which lead to the level below.
use polardb_uncompleted.Base.{
  ℕ, zero, suc, ◌<◌, ◌≡◌, refl, ap, ◌∙◌, true, List, [], ◌∷◌, arith, write, ℕ_discrete,
}
use polardb_uncompleted.Base.Run.{ok}
use polardb_uncompleted.Index.{Index}
use polardb_uncompleted.SkipList.Chains.{has, mem-lt, Chain-pos}
use polardb_uncompleted.SkipList.Resize.{
  IsReady, give_back-item, grown, grown-old, check_and_resize_full, check_and_resize_room,
}
use polardb_uncompleted.SkipList.Link.{place, linked, insert_after-linked, linked-size}
use polardb_uncompleted.SkipList.Levels.{
  Level, SkipListNode, give_back, give_all, check_and_resize, insert_after,
}

-- The item of node 0 and of each node below `size`, and their `bottom` but that of node 0.
abbrev Same : ℕ → Level → Level → Type 0
Same size l l' =
    ((l'.nodes 0).item ≡ (l.nodes 0).item)
    × ((a : ℕ) → a < size → 0 < a → (l'.nodes a).bottom ≡ (l.nodes a).bottom)

give_back-bottoms :
    (l : Level) (n a : ℕ) → 0 < a → ((give_back l n).nodes a).bottom ≡ (l.nodes a).bottom
unfolding give_back write
give_back-bottoms l n a p = ground arith

give_all-Same : (size : ℕ) (l : Level) (n count : ℕ) → 0 < n → Same size l (give_all l n count)
unfolding give_all
give_all-Same size l n zero pos = (refl, λ a lt p. refl)
give_all-Same size l n (suc count) pos =
    let (item, bottom) = give_all-Same size (give_back l n) (suc n) count (omega arith) in
    (item ∙ give_back-item l n pos 0, λ a lt p. bottom a lt p ∙ give_back-bottoms l n a p)

check_and_resize-Same : (l : Level) → 0 < l.size → Same l.size l (check_and_resize l)
check_and_resize-Same l pos = elim (ℕ_discrete l.capacity 0) [
  | no n ↦ rw (check_and_resize_room l (omega arith)) (refl, λ a lt p. refl)
  | yes e ↦
      let (item, bottom) = give_all-Same l.size (grown l) l.size l.size pos in
      rw (check_and_resize_full l e) (
        item ∙ ap (λ (n : SkipListNode). n.item) (grown-old l 0 pos),
        λ a lt p. bottom a lt p ∙ ap (λ (n : SkipListNode). n.bottom) (grown-old l a lt),
      )
]

linked-Same :
    (key : ℕ) (index : Index) (l : Level) (p : ℕ)
    → 0 < place key index l p
    → Same l.size l (linked key index l p)
unfolding linked write
linked-Same key index l p pos = (ground arith, λ a lt q. ground arith)

pub insert_after-keeps :
    (key : ℕ) (index : Index) (l : Level) (p : ℕ) (xs free : List ℕ)
    → IsReady l xs free
    → (l' : Level) (n : ℕ) → insert_after key index l p ≡ ok (l', n)
    → ((l'.nodes 0).item ≡ (l.nodes 0).item)
      × ((a : ℕ) → has a xs ≡ true → (l'.nodes a).bottom ≡ (l.nodes a).bottom)
insert_after-keeps key index l p xs [] h l' n e = absurd (omega (arith, h.counted, h.room))
insert_after-keeps key index l p xs (m ∷ free) h l' n e =
    let first : place key index l p ≡ m = unfold place in h.split.unused.0 in
    let pos : 0 < place key index l p = omega (arith, h.split.unused.1) in
    let l₁ = linked key index l p in
    let (size, capacity) = linked-size key index l p in
    let (item, bottom) = linked-Same key index l p pos in
    let (item', bottom') = check_and_resize-Same l₁ (omega (arith, h.total)) in
    let same : check_and_resize l₁ ≡ l' = cc (insert_after-linked key index l p h.room) in
    rw (← same) (
      item' ∙ item,
      λ a mem.
          let lt = mem-lt l.nodes l.size (l.nodes 0).next xs h.split.used a mem in
          let q = Chain-pos l.nodes l.size (l.nodes 0).next xs h.split.used a mem in
          bottom' a (omega arith) q ∙ bottom a lt q,
    )
