-- ===== src/SkipList/Insert.antt =====
-- `insert_after` puts one element behind a given one and keeps the others.
use polardb_uncompleted.Base.{
  ℕ, ◌<◌, ◌≡◌, ◌≢◌, sym, subst, ◌∙◌, inl, inr, true, false, List, [], ◌∷◌, arith, ◌==◌,
  if◌then◌else◌, ℕ_discrete, Bool-cases, ==_refl,
}
use polardb_uncompleted.Base.Run.{ok}
use polardb_uncompleted.Index.{Index}
use polardb_uncompleted.IndexHashMap.{KeyIdxPair}
use polardb_uncompleted.SkipList.Chains.{has, Chain, IsSplit, has-zero, mem-lt}
use polardb_uncompleted.SkipList.Resize.{IsReady, check_and_resize-IsReady}
use polardb_uncompleted.SkipList.Link.{
  insert_in, place_after, place, linked, insert_after-linked, linked-size, linked-next,
  linked-bottom, linked-item, kept, g-at, g-new, g-off, insert_in-Chain, has-place_after, IsPoint,
}
use polardb_uncompleted.SkipList.Levels.{SkipListNode, Level, check_and_resize, insert_after}

module _ (key : ℕ) (index : Index) (l : Level) (p n : ℕ) (xs free : List ℕ)
    (h : IsSplit l xs (n ∷ free)) (point : IsPoint p xs) where
  is_place : place key index l p ≡ n
  unfolding place
  is_place = h.unused.0

  g : ℕ → SkipListNode
  g = (linked key index l p).nodes

  new_pos : 0 < n
  new_pos = h.unused.1

  new_lt : n < l.size
  new_lt = h.unused.2

  new_apart : has n xs ≡ false
  new_apart = elim (Bool-cases (has n xs)) [
    | inl m ↦ let out = h.apart n m in ground arith
    | inr out ↦ out
  ]

  point_ne : p ≢ n
  point_ne e = elim point [ inl z ↦ omega (arith, new_pos) | inr m ↦ cc (m, rw (← e) at new_apart) ]

  place_ne : p ≢ place key index l p
  place_ne = rw is_place point_ne

  place_pos : 0 < place key index l p
  place_pos = rw is_place new_pos

  g-next :
      (a : ℕ)
      → (g a).next ≡ (if a == p then n else if a == n then (l.nodes p).next else (l.nodes a).next)
  unfolding g
  g-next a = rw is_place at (linked-next key index l p place_pos place_ne a)

  size_same : (linked key index l p).size ≡ l.size
  size_same = (linked-size key index l p).0

  kept_after :
      (q : ℕ) (ys : List ℕ)
      → has p ys ≡ false
      → has n ys ≡ false
      → Chain l.nodes l.size q ys
      → Chain g l.size q ys
  kept_after = kept l.nodes g l.size p n new_pos new_lt point_ne g-next

  front_after : p ≡ 0 → Chain g l.size (g 0).next (n ∷ xs)
  front_after z =
      let out : has p xs ≡ false =
        subst (λ t. has t xs ≡ false) (sym z) (has-zero l.nodes l.size _ xs h.used) in
      let head : (g 0).next ≡ n =
        subst (λ t. (g t).next ≡ n) z (g-at l.nodes g l.size p n new_pos new_lt point_ne g-next) in
      (
        head,
        new_pos,
        new_lt,
        new_apart,
        rw (g-new l.nodes g l.size p n new_pos new_lt point_ne g-next) (
            kept_after (l.nodes p).next xs out new_apart
              (subst (λ t. Chain l.nodes l.size (l.nodes t).next xs) (sym z) h.used)),
      )

  behind_after : p ≢ 0 → has p xs ≡ true → Chain g l.size (g 0).next (insert_in p n xs)
  behind_after nz m =
      let head : (g 0).next ≡ (l.nodes 0).next =
        g-off l.nodes g l.size p n new_pos new_lt point_ne g-next 0 (λ e. nz (sym e))
          (λ e. omega (arith, new_pos)) in
      rw head (
        insert_in-Chain l.nodes g l.size p n new_pos new_lt point_ne g-next _ xs m new_apart h.used)

  used_after : Chain g l.size (g 0).next (place_after p n xs)
  unfolding place_after
  used_after = elim (ℕ_discrete p 0) [
    | yes z ↦ let t : (p == 0) ≡ true = ground arith in rw t (front_after z)
    | no nz ↦
        let t : (p == 0) ≡ false = ground arith in
        rw t (behind_after nz (elim point [ inl z ↦ absurd (nz z) | inr m ↦ m ]))
  ]

  point_unused : has p free ≡ false
  point_unused = elim point [
    | inl z ↦ subst (λ t. has t free ≡ false) (sym z) (has-zero l.nodes l.size _ free h.unused.4)
    | inr m ↦ let out = h.apart p m in ground arith
  ]

  unused_after : Chain g l.size (g 0).bottom free
  unfolding g
  unused_after =
      let head = linked-bottom key index l p place_pos place_ne in
      rw (head, is_place) (kept_after (l.nodes n).next free point_unused h.unused.3 h.unused.4)

  linked-IsSplit : IsSplit (linked key index l p) (place_after p n xs) free
  unfolding g
  linked-IsSplit = record {
    used = rw size_same used_after;
    unused = rw size_same unused_after;
    apart = λ a m. ground (arith, has-place_after p n a xs point, h.apart a, new_apart);
  }

  item_after :
      (a : ℕ)
      → ((linked key index l p).nodes a).item
        ≡ (if a == n then record { key = key; idx = index } else (l.nodes a).item)
  item_after a = rw is_place at (linked-item key index l p place_pos place_ne a)

-- The outcome of an insertion of `item` behind `p`: at the place `n` that the call returns, the
-- element stands in the order of the level behind `p`; the others keep their order and content.
pub record Inserts (l : Level) (xs : List ℕ) (p : ℕ) (item : KeyIdxPair) (l' : Level) (n : ℕ)
    : Type 0 where
  pub free : List ℕ
  pub ready : IsReady l' (place_after p n xs) free
  pub fresh : has n xs ≡ false
  pub new_item : (l'.nodes n).item ≡ item
  pub old_items : (a : ℕ) → has a xs ≡ true → (l'.nodes a).item ≡ (l.nodes a).item

-- On a level that is ready, `insert_after` behind node 0 or an element does not fail, inserts the
-- element there, and leaves the level ready.
pub insert_after-Inserts :
    (key : ℕ) (index : Index) (l : Level) (p : ℕ) (xs free : List ℕ)
    → IsReady l xs free
    → IsPoint p xs
    → (l' : Level) × (n : ℕ) × (insert_after key index l p ≡ ok (l', n))
      × Inserts l xs p (record { key = key; idx = index }) l' n
insert_after-Inserts key index l p xs [] h point = absurd (omega (arith, h.counted, h.room))
insert_after-Inserts key index l p xs (n ∷ free) h point =
    let l₁ = linked key index l p in
    let (size, capacity) = linked-size key index l p in
    let (few, many) = has-place_after p n n xs point in
    let split = linked-IsSplit key index l p n xs free h.split point in
    let (free', ready, same) =
      check_and_resize-IsReady l₁ (place_after p n xs) free split (omega (arith, h.counted))
        (omega (arith, h.total)) in
    let at = is_place key index l p n xs free h.split point in
    (
      check_and_resize l₁,
      n,
      insert_after-linked key index l p h.room ∙ rw at,
      record {
        free = free';
        ready = ready;
        fresh = new_apart key index l p n xs free h.split point;
        new_item =
            same n (omega (arith, h.split.unused.2))
            ∙ item_after key index l p n xs free h.split point n
            ∙ rw ==_refl;
        old_items = λ a m.
            let out : a ≢ n =
              λ e. cc (m, rw (← e) at (new_apart key index l p n xs free h.split point)) in
            same a (omega (arith, mem-lt l.nodes l.size _ xs h.split.used a m))
            ∙ item_after key index l p n xs free h.split point a
            ∙ ground arith;
      },
    )
