-- ===== src/SkipList/Reword.antt =====
-- `update` of class SkipList on a key that is there.
use polardb_uncompleted.Base.{
  ℕ, suc, ◌<◌, ◌≡◌, refl, sym, ◌∙◌, true, false, some, List, arith, ◌==◌, if◌then◌else◌, ℕ_discrete,
  ==_refl, write, fun_ext,
}
use polardb_uncompleted.Base.Run.{ok}
use polardb_uncompleted.Index as Word
use polardb_uncompleted.Index.{Index}
use polardb_uncompleted.SkipList.{SkipList, get, update}
use polardb_uncompleted.SkipList.Chains.{has, Chain, Chain-frame, Chain-pos}
use polardb_uncompleted.SkipList.Get.{get-found}
use polardb_uncompleted.SkipList.Levels.{Level, set_data}
use polardb_uncompleted.SkipList.Update.{Written}
use polardb_uncompleted.SkipList.Walk.{key_at, IsLevel, IsValid}

-- Node `a` of a level with a new word under the same key.
module _ (l : Level) (a : ℕ) (word : Index) where
  abbrev worded : Level
  worded = set_data l a (record { key = key_at l a; idx = word })

  worded-fields :
      (b : ℕ)
      → ((worded.nodes b).next ≡ (l.nodes b).next)
        × ((worded.nodes b).bottom ≡ (l.nodes b).bottom)
        × (key_at worded b ≡ key_at l b)
        × ((worded.nodes b).item
            ≡ (if a == b then record { key = key_at l a; idx = word } else (l.nodes b).item))
  unfolding set_data write
  worded-fields b = (ground arith, ground arith, ground arith, ground arith)

  worded-size : (worded.size ≡ l.size) × (worded.capacity ≡ l.capacity)
  unfolding set_data
  worded-size = (refl, refl)

  worded-Chain :
      (q : ℕ) (ys : List ℕ) → Chain l.nodes l.size q ys → Chain worded.nodes worded.size q ys
  worded-Chain q ys c =
      Chain-frame l.nodes worded.nodes l.size worded.size q ys (omega (arith, worded-size.0))
        (λ b m. (worded-fields b).0) c

  worded-IsLevel : (xs : List ℕ) → IsLevel l xs → IsLevel worded xs
  worded-IsLevel xs h = record {
    free = h.free;
    ready = record {
      split = record {
        used = rw (worded-fields 0).0 (worded-Chain _ xs h.ready.split.used);
        unused = rw (worded-fields 0).1 (worded-Chain _ h.free h.ready.split.unused);
        apart = h.ready.split.apart;
      };
      counted = worded-size.1 ∙ h.ready.counted;
      total = h.ready.total ∙ sym worded-size.0;
      room = omega (arith, h.ready.room, worded-size.1);
    };
    head = (worded-fields 0).2 ∙ h.head;
    ascends = rw (fun_ext (λ b. (worded-fields b).2)) h.ascends;
  }

test_pos : (a : ℕ) → 0 < a → (a == 0) ≡ false
test_pos a pos = ground arith

module _ (s : SkipList) (xs : ℕ → List ℕ) (key : ℕ) (index : Index) (valid : IsValid s xs) (a : ℕ)
    (m : has a (xs 0) ≡ true) (k : key_at (s.levels 0) a ≡ key) where
  abbrev pub new_word : Index
  new_word = Word.set_fid (Word.set_idx ((s.levels 0).nodes a).item.idx (Word.get_idx index)) s.id

  reworded : SkipList
  reworded = record s { levels = write s.levels 0 (worded (s.levels 0) a new_word) }

  reworded-levels :
      (i : ℕ) → reworded.levels i ≡ (if i == 0 then worded (s.levels 0) a new_word else s.levels i)
  unfolding reworded write
  reworded-levels i = ground arith

  reworded-key : (i b : ℕ) → key_at (reworded.levels i) b ≡ key_at (s.levels i) b
  reworded-key i b = elim (ℕ_discrete i 0) [
    | yes z ↦ rw (z, reworded-levels 0) (worded-fields (s.levels 0) a new_word b).2
    | no nz ↦ let e : reworded.levels i ≡ s.levels i = reworded-levels i ∙ ground arith in rw e refl
  ]

  reworded-IsValid : IsValid reworded xs
  reworded-IsValid = record {
    levels = λ i. elim (ℕ_discrete i 0) [
      | yes z ↦
          rw (z, reworded-levels 0) (worded-IsLevel (s.levels 0) a new_word (xs 0) (valid.levels 0))
      | no nz ↦
          let e : reworded.levels i ≡ s.levels i = reworded-levels i ∙ ground arith in
          rw e (valid.levels i)
    ];
    down = λ i b mb nb.
        let up : reworded.levels (suc i) ≡ s.levels (suc i) =
          reworded-levels (suc i) ∙ ground arith in
        let (m', same) = valid.down i b mb nb in rw up (m', reworded-key i _ ∙ same);
  }

  reworded-item :
      (b : ℕ)
      → ((reworded.levels 0).nodes b).item
        ≡ (if a == b then record { key = key; idx = new_word } else ((s.levels 0).nodes b).item)
  reworded-item b = rw (reworded-levels 0) ((worded-fields (s.levels 0) a new_word b).3 ∙ rw k refl)

  update_old : (height : ℕ) → (get s key).0 ≡ some a → update s key index height ≡ ok (reworded, a)
  unfolding update reworded
  update_old height r =
      let pos =
        Chain-pos (s.levels 0).nodes (s.levels 0).size ((s.levels 0).nodes 0).next (xs 0)
          (valid.levels 0).ready.split.used a m in
      rw (r, test_pos a pos, update) refl

  pub update-rewords :
      (height : ℕ) → Written s xs key index valid new_word (update s key index height)
  update-rewords height = (
    reworded,
    xs,
    a,
    update_old height (get-found s xs key valid a m k),
    unfold reworded in refl,
    record {
      valid = valid;
      valid' = reworded-IsValid;
      there = m;
      item = reworded-item a ∙ rw (==_refl a) refl;
      old = λ b mb off. (mb, reworded-item b ∙ ground arith);
      no_more = λ b mb off. mb;
      same_key = λ mb. k;
    },
  )
