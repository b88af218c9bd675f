-- ===== src/SkipList/Map.antt =====
-- Class SkipList implements a map: what `update` does to it, whatever the height of a new node.
use polardb_uncompleted.Base.{
  ℕ, zero, suc, ◌≤◌, ◌≡◌, ap, inl, inr, Option, none, some, List, arith, ◌==◌, if◌then◌else◌,
}
use polardb_uncompleted.Base.Run.{ok}
use polardb_uncompleted.Index as Word
use polardb_uncompleted.Index.{Index}
use polardb_uncompleted.IndexHashMap.{KeyIdxPair}
use polardb_uncompleted.SkipList.{SkipList, get, update, skip_list_max_height}
use polardb_uncompleted.SkipList.Get.{get-found}
use polardb_uncompleted.SkipList.Refine.{view, view-found, view-Missing, place_cases, Writes-view}
use polardb_uncompleted.SkipList.Update.{Written, update-inserts}
use polardb_uncompleted.SkipList.Reword.{update-rewords}
use polardb_uncompleted.SkipList.Walk.{IsValid}

-- The word that `update` leaves under its key: the given one, or the old one with the index of the
-- given one and the number of the list.
unfoldable pub written : Option Index → Index → ℕ → Index
written none index id = index
written (some old) index id = Word.set_fid (Word.set_idx old (Word.get_idx index)) id

module _ (s : SkipList) (xs : ℕ → List ℕ) (key : ℕ) (index : Index) (valid : IsValid s xs) where
  by_place :
      (l : ℕ)
      → suc l ≤ skip_list_max_height
      → Written s xs key index valid (written (view s key) index s.id) (update s key index (suc l))
  unfolding written
  by_place l high = elim (place_cases s xs key valid) [
    | inl (a, m, k) ↦
        rw (view-found s xs key valid a m k) (update-rewords s xs key index valid a m k (suc l))
    | inr gone ↦
        rw (view-Missing s xs key valid gone) (update-inserts s xs key index valid l high gone)
  ]

-- `update` with any height from 1 to 12 returns the place of the key on level 0, keeps the list
-- well formed, and changes what is found under its key to the given word, if the key is new, and
-- otherwise to the old word with the index of the given one and the number of the list. It changes
-- nothing under any other key.
pub update-Writes_map :
    (s : SkipList) (xs : ℕ → List ℕ) (key : ℕ) (index : Index) (height : ℕ)
    → IsValid s xs
    → 1 ≤ height
    → height ≤ skip_list_max_height
    → (s' : SkipList) × (xs' : ℕ → List ℕ) × (n : ℕ) × (update s key index height ≡ ok (s', n))
      × IsValid s' xs'
      × ((get s' key).0 ≡ some n)
      × (s'.id ≡ s.id)
      × ((q : ℕ)
          → view s' q ≡ (if q == key then some (written (view s key) index s.id) else view s q))
update-Writes_map s xs key index zero valid low high = absurd (omega arith)
update-Writes_map s xs key index (suc l) valid low high =
    let (s', xs', n, result, id, w) = by_place s xs key index valid l high in
    (
      s',
      xs',
      n,
      result,
      w.valid',
      get-found s' xs' key w.valid' n w.there (ap (λ (i : KeyIdxPair). i.key) w.item),
      id,
      Writes-view s xs key _ s' xs' n w,
    )
