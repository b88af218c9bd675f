-- ===== src/SkipList/Loop.antt =====
-- The insertion loop of `update` puts a new key on every level from the given one down.
use polardb_uncompleted.Base.{
  ℕ, zero, suc, ◌<◌, ◌≡◌, refl, ◌∙◌, true, false, ◌||◌, List, arith, ◌==◌, if◌then◌else◌,
  ℕ_discrete, write,
}
use polardb_uncompleted.Base.Run.{Run, ok}
use polardb_uncompleted.Index.{Index}
use polardb_uncompleted.IndexHashMap.{KeyIdxPair}
use polardb_uncompleted.SkipList.{SkipList, insert_point, link_down, insert_loop}
use polardb_uncompleted.SkipList.Build.{Building, Leads, Building-step}
use polardb_uncompleted.SkipList.Chains.{has}
use polardb_uncompleted.SkipList.Grow.{
  Adds, insert_after-Adds, set_bottom-item, set_bottom-bottom, set_bottom-IsLevel,
}
use polardb_uncompleted.SkipList.Levels.{Level, insert_after, set_bottom}
use polardb_uncompleted.SkipList.Link.{place_after}
use polardb_uncompleted.SkipList.Trace.{Fits, left, chosen, Fits-left}
use polardb_uncompleted.SkipList.Walk.{downto, point, IsLevel, IsValid}

abbrev above : Level → ℕ → ℕ → Level
above u prev n = if prev == 0 then u else set_bottom u prev n

above-Leads :
    (u : Level) (us : List ℕ) (prev n : ℕ) → IsLevel u us → Leads u us prev n (above u prev n)
above-Leads u us prev n h = elim (ℕ_discrete prev 0) [
  | yes z ↦ rw z (record {
    level = h;
    items = λ a. refl;
    bottoms = λ a ne. refl;
    bottom_prev = λ ne. absurd (ne refl);
  })
  | no nz ↦
      let f : (prev == 0) ≡ false = ground arith in
      let pos : 0 < prev = omega arith in
      rw f (record {
        level = set_bottom-IsLevel u us prev n pos h;
        items = λ a. set_bottom-item u us prev n pos a;
        bottoms = λ a ne. set_bottom-bottom u us prev n pos a ∙ ground arith;
        bottom_prev = λ ne. set_bottom-bottom u us prev n pos prev ∙ ground arith;
      })
]

module _ (s : SkipList) (l prev n : ℕ) (l' : Level) where
  linked : SkipList
  linked = link_down (record s { levels = write s.levels l l' }) (suc l) prev n

  linked-levels :
      (i : ℕ)
      → linked.levels i ≡ (
          if i == l then l' else if i == suc l then above (s.levels (suc l)) prev n else s.levels i)
  unfolding linked link_down write
  linked-levels i =
      let skip : (l == suc l) ≡ false = ground arith in
      elim (ℕ_discrete prev 0) [
        | yes z ↦ rw z (ground arith)
        | no nz ↦ let f : (prev == 0) ≡ false = ground arith in rw (f, skip) (ground arith)
      ]

  linked-id : linked.id ≡ s.id
  unfolding linked link_down
  linked-id = ground arith

-- What the loop has done: the key has a place on level 0, and the list is well formed.
pub record Inserted (s : SkipList) (xs : ℕ → List ℕ) (item : KeyIdxPair) (s' : SkipList)
    (xs' : ℕ → List ℕ) (n : ℕ) : Type 0 where
  pub valid : IsValid s' xs'
  pub id : s'.id ≡ s.id
  pub pos : 0 < n
  pub fresh : has n (xs 0) ≡ false
  pub mem : (a : ℕ) → has a (xs' 0) ≡ ((a == n) || has a (xs 0))
  pub new_item : ((s'.levels 0).nodes n).item ≡ item
  pub old_items :
      (a : ℕ) → has a (xs 0) ≡ true → ((s'.levels 0).nodes a).item ≡ ((s.levels 0).nodes a).item

module _ (key : ℕ) (index : Index) (f : ℕ → ℕ) where
  abbrev item : KeyIdxPair
  item = record { key = key; idx = index }

  -- One round on level `l`.
  record Round (s : SkipList) (xs : ℕ → List ℕ) (l t prev : ℕ) : Type 0 where
    l' : Level
    n : ℕ
    result : insert_after key index (s.levels l) (point (s.levels l) (xs l) key) ≡ ok (l', n)
    adds : Adds (s.levels l) (xs l) item l' n (place_after (point (s.levels l) (xs l) key) n (xs l))
    building :
        Building
          (linked s l prev n l').levels
          (write xs l (place_after (point (s.levels l) (xs l) key) n (xs l)))
          key
          l
          n

  round :
      (s : SkipList) (xs : ℕ → List ℕ) (l t prev : ℕ)
      → Building s.levels xs key (suc l) prev
      → Round s xs l t prev
  round s xs l t prev b =
      let (l', n, result, adds) =
        insert_after-Adds (s.levels l) (xs l) key (b.each l) index (b.absent l (omega arith)) in
      let ys = place_after (point (s.levels l) (xs l) key) n (xs l) in
      let at = linked-levels s l prev n l' in
      record {
        l' = l';
        n = n;
        result = result;
        adds = adds;
        building =
            Building-step s.levels xs key l prev n item refl b l' (above (s.levels (suc l)) prev n)
              ys adds (above-Leads _ (xs (suc l)) prev n (b.each (suc l)))
              (linked s l prev n l').levels (write xs l ys) (at l ∙ ground arith)
              (at (suc l) ∙ ground arith) (λ i ne ne'. at i ∙ ground arith)
              (unfold write in ground arith) (λ i ne. unfold write in ground arith);
      }

  loop_step :
      (s : SkipList) (l : ℕ) (trace : List ℕ) (prev idx p : ℕ) (rest : List ℕ) (l' : Level) (n : ℕ)
      → insert_point l trace ≡ (p, rest)
      → insert_after key index (s.levels l) p ≡ ok (l', n)
      → insert_loop key index s (suc l) trace prev idx
        ≡ insert_loop key index (linked s l prev n l') l rest n n
  unfolding insert_loop linked
  loop_step s l trace prev idx p rest l' n e r = rw (e, r, insert_loop) refl

  loop_end :
      (s : SkipList) (trace : List ℕ) (prev idx : ℕ)
      → insert_loop key index s 0 trace prev idx ≡ ok (s, idx)
  unfolding insert_loop
  loop_end s trace prev idx = refl

  Building-IsValid :
      (s : SkipList) (xs : ℕ → List ℕ) (prev : ℕ) → Building s.levels xs key 0 prev → IsValid s xs
  Building-IsValid s xs prev b = record {
    levels = b.each;
    down = λ i. let f : (suc i == 0) ≡ false = ground arith in rw f at (b.down i);
  }

  abbrev Result : SkipList → (ℕ → List ℕ) → Run (SkipList × ℕ) → Type 0
  Result s xs r =
      (s' : SkipList) × (xs' : ℕ → List ℕ) × (n : ℕ) × (r ≡ ok (s', n))
      × Inserted s xs item s' xs' n

  -- A level below `m` is as it was after a round above it.
  pub insert_loop-Inserted :
      (l : ℕ) (s : SkipList) (xs : ℕ → List ℕ) (t prev idx : ℕ)
      → Building s.levels xs key (suc l) prev
      → Fits s.levels xs key (suc l) f t
      → Result s xs (insert_loop key index s (suc l) (downto f t) prev idx)
  insert_loop-Inserted zero s xs t prev idx b fits =
      let r = round s xs 0 t prev b in
      let at = linked-levels s 0 prev r.n r.l' in
      let here : (linked s 0 prev r.n r.l').levels 0 ≡ r.l' = at 0 in
      let ys = place_after (point (s.levels 0) (xs 0) key) r.n (xs 0) in
      let placed : write xs 0 ys 0 ≡ ys = unfold write in refl in
      (
        linked s 0 prev r.n r.l',
        write xs 0 ys,
        r.n,
        loop_step s 0 (downto f t) prev idx _ _ r.l' r.n (chosen s.levels xs key 0 f t fits)
              r.result
            ∙ loop_end _ _ r.n r.n,
        record {
          valid = Building-IsValid _ _ r.n r.building;
          id = linked-id s 0 prev r.n r.l';
          pos = r.adds.pos;
          fresh = r.adds.fresh;
          mem = λ a. rw placed (r.adds.mem a);
          new_item = rw here r.adds.new_item;
          old_items = λ a m. rw here (r.adds.old_items a m);
        },
      )
  insert_loop-Inserted (suc l) s xs t prev idx b fits =
      let r = round s xs (suc l) t prev b in
      let s₁ = linked s (suc l) prev r.n r.l' in
      let at = linked-levels s (suc l) prev r.n r.l' in
      let ys = place_after (point (s.levels (suc l)) (xs (suc l)) key) r.n (xs (suc l)) in
      let zs = write xs (suc l) ys in
      let same : (i : ℕ) → i < suc l → s₁.levels i ≡ s.levels i = λ i lt. at i ∙ ground arith in
      let same' : (i : ℕ) → i < suc l → zs i ≡ xs i = λ i lt. unfold write in ground arith in
      let fits' = Fits-left s.levels xs key (suc l) f t fits s₁.levels zs same same' in
      let (s', xs', n, result, ins) =
        insert_loop-Inserted l s₁ zs (left s.levels xs key (suc l) f t fits) r.n r.n r.building
          fits' in
      let low = same 0 (omega arith) in
      let low' = same' 0 (omega arith) in
      (
        s',
        xs',
        n,
        loop_step s (suc l) (downto f t) prev idx _ _ r.l' r.n
              (chosen s.levels xs key (suc l) f t fits) r.result
            ∙ result,
        record {
          valid = ins.valid;
          id = ins.id ∙ linked-id s (suc l) prev r.n r.l';
          pos = ins.pos;
          fresh = rw low' at ins.fresh;
          mem = λ a. rw low' at (ins.mem a);
          new_item = ins.new_item;
          old_items = λ a m. rw low at (ins.old_items a (rw low' m));
        },
      )
