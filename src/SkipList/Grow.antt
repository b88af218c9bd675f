-- ===== src/SkipList/Grow.antt =====
-- One level under `update`: a new element on it, and the `bottom` field of the element above.
use polardb_uncompleted.Base.{
  ℕ, ◌<◌, ◌≡◌, ◌≢◌, refl, sym, ◌∙◌, ap, inl, inr, true, false, ◌||◌, List, arith, ◌==◌,
  if◌then◌else◌, write, fun_ext,
}
use polardb_uncompleted.Base.Run.{ok}
use polardb_uncompleted.Index.{Index}
use polardb_uncompleted.IndexHashMap.{KeyIdxPair}
use polardb_uncompleted.SkipList.Chains.{has, Chain, Chain-frame, Chain-pos, has-zero}
use polardb_uncompleted.SkipList.Insert.{insert_after-Inserts}
use polardb_uncompleted.SkipList.Keep.{insert_after-keeps}
use polardb_uncompleted.SkipList.Levels.{Level, insert_after, set_bottom}
use polardb_uncompleted.SkipList.Link.{IsPoint, place_after, has-place_after}
use polardb_uncompleted.SkipList.Order.{
  last_le-has, place_after-insert_key, insert_key-Ascends, Chain-Once,
}
use polardb_uncompleted.SkipList.Walk.{key_at, IsLevel, point}

-- The level `l'` has the elements of `l` and one more at the place `n`.
pub record Adds (l : Level) (xs : List ℕ) (item : KeyIdxPair) (l' : Level) (n : ℕ) (xs' : List ℕ)
    : Type 0 where
  pub level : IsLevel l' xs'
  pub pos : 0 < n
  pub fresh : has n xs ≡ false
  pub mem : (a : ℕ) → has a xs' ≡ ((a == n) || has a xs)
  pub new_item : (l'.nodes n).item ≡ item
  pub old_items : (a : ℕ) → has a xs ≡ true → (l'.nodes a).item ≡ (l.nodes a).item
  pub bottoms : (a : ℕ) → has a xs ≡ true → (l'.nodes a).bottom ≡ (l.nodes a).bottom

module _ (l : Level) (xs : List ℕ) (key : ℕ) (h : IsLevel l xs) where
  point-IsPoint : IsPoint (point l xs key) xs
  point-IsPoint = elim (last_le-has (key_at l) key 0 xs) [ inl z ↦ inl z | inr (m, le) ↦ inr m ]

  -- Behind the last element with a smaller key a new key is in order.
  pub insert_after-Adds :
      (index : Index)
      → ((a : ℕ) → has a xs ≡ true → key_at l a ≢ key)
      → (l' : Level) × (n : ℕ) × (insert_after key index l (point l xs key) ≡ ok (l', n))
        × Adds l xs (record { key = key; idx = index }) l' n (place_after (point l xs key) n xs)
  insert_after-Adds index absent =
      let p : ℕ = point l xs key in
      let (l', n, result, ins) =
        insert_after-Inserts key index l p xs h.free h.ready point-IsPoint in
      let (head, bottoms) = insert_after-keeps key index l p xs h.free h.ready l' n result in
      let used = h.ready.split.used in
      let place =
        place_after-insert_key (key_at l) key n xs (has-zero l.nodes l.size _ xs used)
          (Chain-Once l.nodes l.size _ xs used) in
      let order =
        insert_key-Ascends (key_at l) (key_at l') key n xs
          (λ a m. ap (λ (i : KeyIdxPair). i.key) (ins.old_items a m))
          (ap (λ (i : KeyIdxPair). i.key) ins.new_item) absent h.ascends in
      let mem = λ (a : ℕ). (has-place_after p n a xs point-IsPoint).0 in
      (
        l',
        n,
        result,
        record {
          level = record {
            free = ins.free;
            ready = ins.ready;
            head = ap (λ (i : KeyIdxPair). i.key) head ∙ h.head;
            ascends = rw place order;
          };
          pos = Chain-pos l'.nodes l'.size _ _ ins.ready.split.used n (rw (mem n) (ground arith));
          fresh = ins.fresh;
          mem = mem;
          new_item = ins.new_item;
          old_items = ins.old_items;
          bottoms = bottoms;
        },
      )

module _ (l : Level) (xs : List ℕ) (p n : ℕ) (pos : 0 < p) where
  pub set_bottom-item : (a : ℕ) → ((set_bottom l p n).nodes a).item ≡ (l.nodes a).item
  unfolding set_bottom write
  set_bottom-item a = ground arith

  set_bottom-next : (a : ℕ) → ((set_bottom l p n).nodes a).next ≡ (l.nodes a).next
  unfolding set_bottom write
  set_bottom-next a = ground arith

  pub set_bottom-bottom :
      (a : ℕ) → ((set_bottom l p n).nodes a).bottom ≡ (if p == a then n else (l.nodes a).bottom)
  unfolding set_bottom write
  set_bottom-bottom a = ground arith

  set_bottom-size : ((set_bottom l p n).size ≡ l.size) × ((set_bottom l p n).capacity ≡ l.capacity)
  unfolding set_bottom
  set_bottom-size = (refl, refl)

  set_bottom-Chain :
      (q : ℕ) (ys : List ℕ)
      → Chain l.nodes l.size q ys
      → Chain (set_bottom l p n).nodes (set_bottom l p n).size q ys
  set_bottom-Chain q ys c =
      Chain-frame l.nodes (set_bottom l p n).nodes l.size (set_bottom l p n).size q ys
        (omega (arith, set_bottom-size.0)) (λ a m. set_bottom-next a) c

  pub set_bottom-IsLevel : IsLevel l xs → IsLevel (set_bottom l p n) xs
  set_bottom-IsLevel h = record {
    free = h.free;
    ready = record {
      split = record {
        used = rw (set_bottom-next 0) (set_bottom-Chain _ xs h.ready.split.used);
        unused = rw (set_bottom-bottom 0, ne) (set_bottom-Chain _ h.free h.ready.split.unused);
        apart = h.ready.split.apart;
      };
      counted = set_bottom-size.1 ∙ h.ready.counted;
      total = h.ready.total ∙ sym set_bottom-size.0;
      room = omega (arith, h.ready.room, set_bottom-size.1);
    };
    head = ap (λ (i : KeyIdxPair). i.key) (set_bottom-item 0) ∙ h.head;
    ascends = rw (fun_ext (λ a. ap (λ (i : KeyIdxPair). i.key) (set_bottom-item a))) h.ascends;
  }
    where
      ne : (p == 0) ≡ false
      ne = ground arith
