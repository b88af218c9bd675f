-- ===== src/SkipList/Flags.antt =====
-- `update` of class SkipList leaves the flags of the list as they are.
use polardb_uncompleted.Base.{
  ℕ, zero, suc, ◌≡◌, refl, ap, ◌∙◌, sym, inl, inr, Bool, List, ◌==◌, write, Option-cases,
  Bool-cases,
}
use polardb_uncompleted.Base.Run.{Run, ok, Run-cases}
use polardb_uncompleted.Index.{Index}
use polardb_uncompleted.SkipList.{SkipList, get, update, insert_loop, insert_point, link_down}
use polardb_uncompleted.SkipList.Levels.{insert_after}

abbrev flag_of : Bool → Run (SkipList × ℕ) → Bool
flag_of d (ok (s, n)) = s.dumping
flag_of d _ = d

link_down-dumping :
    (s : SkipList) (upper prev place : ℕ) → (link_down s upper prev place).dumping ≡ s.dumping
unfolding link_down
link_down-dumping s upper prev place = elim (Bool-cases (prev == 0)) [
  | inl t ↦ rw t refl
  | inr f ↦ rw f refl
]

insert_loop-dumping :
    (key : ℕ) (index : Index) (s : SkipList) (lvl : ℕ) (trace : List ℕ) (prev idx : ℕ)
    (s' : SkipList) (n : ℕ)
    → insert_loop key index s lvl trace prev idx ≡ ok (s', n)
    → s'.dumping ≡ s.dumping
unfolding insert_loop
insert_loop-dumping key index s zero trace prev idx s' n h =
    let e : s ≡ s' = cc in ap (λ t. t.dumping) (sym e)
insert_loop-dumping key index s (suc lvl) trace prev idx s' n h =
    elim (Run-cases (insert_after key index (s.levels lvl) (insert_point lvl trace).0)) [
      | inr (inl bad) ↦ let h' = rw (bad, insert_loop) at h in absurd cc
      | inr (inr bad) ↦ let h' = rw (bad, insert_loop) at h in absurd cc
      | inl ((l, place), done) ↦
          let h' = rw (done, insert_loop) at h in
          let inserted : SkipList = record s { levels = write s.levels lvl l } in
          insert_loop-dumping key index (link_down inserted (suc lvl) prev place) lvl
            (insert_point lvl trace).1 place place s' n h'
          ∙ link_down-dumping inserted (suc lvl) prev place
    ]

pub update-dumping :
    (s : SkipList) (key : ℕ) (index : Index) (height : ℕ) (s' : SkipList) (n : ℕ)
    → update s key index height ≡ ok (s', n)
    → s'.dumping ≡ s.dumping
unfolding update
update-dumping s key index height s' n h =
    let trace = (get s key).1 in
    elim (Option-cases (get s key).0) [
      | inl gone ↦
          let h' = rw (gone, update) at h in
          insert_loop-dumping key index s height trace 0 0 s' n h'
      | inr (idx, at) ↦ elim (Bool-cases (idx == 0)) [
        | inl t ↦
            let h' = rw (at, t, update) at h in
            insert_loop-dumping key index s height trace 0 0 s' n h'
        | inr f ↦
            let h' = rw (at, f, update) at h in
            ap (λ (r : Run (SkipList × ℕ)). flag_of s.dumping r) (sym h')
      ]
    ]
