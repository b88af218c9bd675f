-- ===== src/SkipList/Trace.antt =====
-- The trace that `get` leaves for the insertion loop of `update`.
use polardb_uncompleted.Base.{
  ℕ, zero, suc, ◌≤◌, ◌<◌, ◌≡◌, refl, ◌∙◌, ap, true, false, List, [], arith, leb, if◌then◌else◌,
  ℕ_discrete, length, dec_lt,
}
use polardb_uncompleted.SkipList.{insert_point}
use polardb_uncompleted.SkipList.Levels.{Level}
use polardb_uncompleted.SkipList.Order.{last_le}
use polardb_uncompleted.SkipList.Walk.{downto, point}

pub length-downto : (f : ℕ → ℕ) (t : ℕ) → length (downto f t) ≡ t
unfolding downto
length-downto f zero = refl
length-downto f (suc t) = ap suc (length-downto f t)

-- The entries for higher levels are dropped, and a level without an entry has point 0.
pub insert_point-downto :
    (f : ℕ → ℕ) (l t : ℕ)
    → insert_point l (downto f t) ≡ (if leb t l then (0, downto f t) else (f l, downto f l))
unfolding insert_point downto
insert_point-downto f l zero = ground arith
insert_point-downto f l (suc t) = elim (ℕ_discrete l t) [
  | yes e ↦ rw e (ground (arith, length-downto f t))
  | no ne ↦ ground (arith, length-downto f t, insert_point-downto f l t)
]

-- The trace of the levels below `m` fits them: its entries are their points, and a level without
-- an entry is empty.
abbrev pub Fits : (ℕ → Level) → (ℕ → List ℕ) → ℕ → ℕ → (ℕ → ℕ) → ℕ → Type 0
Fits L xs key m f t = (i : ℕ) → i < m → (i < t → f i ≡ point (L i) (xs i) key) × (t ≤ i → xs i ≡ [])

module _ (L : ℕ → Level) (xs : ℕ → List ℕ) (key l : ℕ) (f : ℕ → ℕ) (t : ℕ)
    (fits : Fits L xs key (suc l) f t) where
  pub left : ℕ
  left = if leb t l then t else l

  pub chosen : insert_point l (downto f t) ≡ (point (L l) (xs l) key, downto f left)
  unfolding left
  chosen = elim (dec_lt l t) [
    | yes lt ↦
        let e = (fits l (omega arith)).0 lt in
        let b : leb t l ≡ false = ground arith in insert_point-downto f l t ∙ rw (b, e) refl
    | no ge ↦
        let e = (fits l (omega arith)).1 (omega arith) in
        let b : leb t l ≡ true = ground arith in
        insert_point-downto f l t ∙ rw (b, e) (unfold last_le in refl)
  ]

  pub Fits-left :
      (M : ℕ → Level) (zs : ℕ → List ℕ)
      → ((i : ℕ) → i < l → M i ≡ L i)
      → ((i : ℕ) → i < l → zs i ≡ xs i)
      → Fits M zs key l f left
  unfolding left
  Fits-left M zs same same' i lt =
      let (e, nil) = fits i (omega arith) in
      rw (same i lt, same' i lt) (λ q. e (ground arith), λ q. nil (ground arith))
