-- ===== src/SkipList/Update.antt =====
-- `update` of class SkipList, on a new key.
use polardb_uncompleted.Base.{
  ℕ, zero, suc, ◌≤◌, ◌≡◌, refl, ◌∙◌, ap, inl, inr, Option, none, List, arith, ◌==◌, Bool-cases,
}
use polardb_uncompleted.Base.Run.{Run, ok}
use polardb_uncompleted.Index.{Index}
use polardb_uncompleted.SkipList.{
  SkipList, get_heighest_level, get, update, insert_loop, skip_list_max_height,
}
use polardb_uncompleted.SkipList.Build.{Building}
use polardb_uncompleted.SkipList.Get.{get-Outcome}
use polardb_uncompleted.SkipList.Loop.{insert_loop-Inserted}
use polardb_uncompleted.SkipList.Refine.{Writes, heighest_from-empty, empty_of}
use polardb_uncompleted.SkipList.Trace.{Fits}
use polardb_uncompleted.SkipList.Walk.{IsValid, Missing, point, points, Down-at}

module _ (s : SkipList) (xs : ℕ → List ℕ) (key : ℕ) (index : Index) (valid : IsValid s xs) where
  Missing-up : Missing s xs key 0 → (i : ℕ) → Missing s xs key i
  Missing-up gone zero = gone
  Missing-up gone (suc i) =
      λ a m k. let (m', same) = Down-at s xs key valid i a m in Missing-up gone i _ m' (same ∙ k)

  Fits-points :
      (height : ℕ)
      → height ≤ skip_list_max_height
      → Fits s.levels xs key height
          (λ i. point (s.levels i) (xs i) key)
          (suc (get_heighest_level s))
  unfolding get_heighest_level
  Fits-points height high i lt = (
    λ q. refl,
    λ le.
        empty_of (s.levels i) (xs i) (valid.levels i)
          (heighest_from-empty s 11 i (omega arith) (omega arith)),
  )

  start : Missing s xs key 0 → (height : ℕ) → Building s.levels xs key height 0
  start gone height = record {
    each = valid.levels;
    down = λ i. elim (Bool-cases (suc i == height)) [
      | inl t ↦ rw t (valid.down i)
      | inr f ↦ rw f (valid.down i)
    ];
    joined = inl refl;
    absent = λ i lt. Missing-up gone i;
  }

  update_new :
      (height : ℕ)
      → get s key ≡ (none, points s xs key (suc (get_heighest_level s)))
      → update s key index height
        ≡ insert_loop key index s height (points s xs key (suc (get_heighest_level s))) 0 0
  unfolding update
  update_new height r =
      rw (r, update) (ap (λ (p : Option ℕ × List ℕ). insert_loop key index s height p.1 0 0) r)

  abbrev pub Written : Index → Run (SkipList × ℕ) → Type 0
  Written word r =
      (s' : SkipList) × (xs' : ℕ → List ℕ) × (n : ℕ) × (r ≡ ok (s', n))
      × (s'.id ≡ s.id)
      × Writes s xs key word s' xs' n

  pub update-inserts :
      (l : ℕ)
      → suc l ≤ skip_list_max_height
      → Missing s xs key 0
      → Written index (update s key index (suc l))
  update-inserts l high gone = elim (get-Outcome s xs key valid) [
    | inl (a, r, m, k) ↦ absurd (gone a m k)
    | inr (r, missing) ↦
        let (s', xs', n, result, ins) =
          insert_loop-Inserted key index _ l s xs (suc (get_heighest_level s)) 0 0
            (start gone (suc l)) (Fits-points (suc l) high) in
        (
          s',
          xs',
          n,
          update_new (suc l) r ∙ result,
          ins.id,
          record {
            valid = valid;
            valid' = ins.valid;
            there = ins.mem n ∙ ground arith;
            item = ins.new_item;
            old = λ a m off. (ins.mem a ∙ ground arith, ins.old_items a m);
            no_more = λ a m off. ground (arith, ins.mem a);
            same_key = λ m. cc (m, ins.fresh);
          },
        )
  ]
