-- ===== src/SkipList/Build.antt =====
-- One round of the insertion loop of `update`: the new element of a level, which the element
-- inserted on the level above leads to.
use polardb_uncompleted.Base.{
  ℕ, suc, ◌<◌, ◌≡◌, ◌≢◌, sym, ◌∙◌, ap, ◌⊎◌, inl, inr, true, false, List, arith, ◌==◌, if◌then◌else◌,
  ℕ_discrete,
}
use polardb_uncompleted.IndexHashMap.{KeyIdxPair}
use polardb_uncompleted.SkipList.Chains.{has, Chain-pos}
use polardb_uncompleted.SkipList.Grow.{Adds}
use polardb_uncompleted.SkipList.Levels.{Level}
use polardb_uncompleted.SkipList.Walk.{key_at, IsLevel, Down}

-- The levels while an element with the key goes in: those from `m` on have it, and `prev`, its
-- place on level `m`, leads nowhere yet. With `prev` 0 no level has it.
pub record Building (levels : ℕ → Level) (xs : ℕ → List ℕ) (key m prev : ℕ) : Type 0 where
  pub each : (i : ℕ) → IsLevel (levels i) (xs i)
  pub down :
      (i : ℕ)
      → Down (levels (suc i)) (xs (suc i)) (levels i) (xs i) (if suc i == m then prev else 0)
  pub joined : (prev ≡ 0) ⊎ ((has prev (xs m) ≡ true) × (key_at (levels m) prev ≡ key))
  pub absent : (i : ℕ) → i < m → (a : ℕ) → has a (xs i) ≡ true → key_at (levels i) a ≢ key

-- The level above with its `prev` leading to `n`.
pub record Leads (u : Level) (us : List ℕ) (prev n : ℕ) (u' : Level) : Type 0 where
  pub level : IsLevel u' us
  pub items : (a : ℕ) → (u'.nodes a).item ≡ (u.nodes a).item
  pub bottoms : (a : ℕ) → a ≢ prev → (u'.nodes a).bottom ≡ (u.nodes a).bottom
  pub bottom_prev : prev ≢ 0 → (u'.nodes prev).bottom ≡ n

module _ (L : ℕ → Level) (xs : ℕ → List ℕ) (key l prev n : ℕ) (item : KeyIdxPair)
    (keyed : item.key ≡ key) (b : Building L xs key (suc l) prev) (l' u' : Level) (ys : List ℕ)
    (adds : Adds (L l) (xs l) item l' n ys) (leads : Leads (L (suc l)) (xs (suc l)) prev n u') where
  key_same : (a : ℕ) → has a (xs l) ≡ true → key_at l' a ≡ key_at (L l) a
  key_same a m = ap (λ (i : KeyIdxPair). i.key) (adds.old_items a m)

  key_new : key_at l' n ≡ key
  key_new = ap (λ (i : KeyIdxPair). i.key) adds.new_item ∙ keyed

  key_up : (a : ℕ) → key_at u' a ≡ key_at (L (suc l)) a
  key_up a = ap (λ (i : KeyIdxPair). i.key) (leads.items a)

  -- No element is node 0.
  not_zero : (i a : ℕ) → has a (xs i) ≡ true → a ≢ 0
  not_zero i a m z = omega (
    arith,
    Chain-pos (L i).nodes (L i).size ((L i).nodes 0).next (xs i) (b.each i).ready.split.used a m,
  )

  Down-here : Down u' (xs (suc l)) l' ys 0
  Down-here a m ne = elim (ℕ_discrete a prev) [
    | yes e ↦
        let e' = sym e in
        let at : (u'.nodes a).bottom ≡ n = rw (e') at (leads.bottom_prev (λ z. ne (e ∙ z))) in
        let k : key_at u' a ≡ key = elim b.joined [
          | inl z ↦ absurd (ne (e ∙ z))
          | inr (m', k) ↦ key_up a ∙ rw e' at k
        ] in
        rw at (rw (adds.mem n) (ground arith), key_new ∙ sym k)
    | no off ↦
        let t : (suc l == suc l) ≡ true = ground arith in
        let (m', same) = rw t at (b.down l) a m off in
        let same_bottom = leads.bottoms a off in
        rw same_bottom (
          rw (adds.mem ((L (suc l)).nodes a).bottom) (ground (arith, m')),
          key_same _ m' ∙ same ∙ sym (key_up a),
        )
  ]

  Down-below : (i : ℕ) → suc i ≡ l → Down l' ys (L i) (xs i) n
  Down-below i e a m ne =
      let m' : has a (xs l) ≡ true = ground (arith, adds.mem a) in
      let f : (suc i == suc l) ≡ false = ground arith in
      let old = rw f at (b.down i) in
      let (m'', same) = rw e at old a m' (not_zero l a m') in
      rw (adds.bottoms a m') (m'', same ∙ sym (key_same a m'))

  Down-above : Down (L (suc (suc l))) (xs (suc (suc l))) u' (xs (suc l)) 0
  Down-above a m ne =
      let f : (suc (suc l) == suc l) ≡ false = ground arith in
      let (m', same) = rw f at (b.down (suc l)) a m ne in (m', key_up _ ∙ same)

  -- The levels after the round are the new ones at `l` and above it, and the old ones elsewhere.
  module _ (M : ℕ → Level) (zs : ℕ → List ℕ) (at_l : M l ≡ l') (at_up : M (suc l) ≡ u')
      (off : (i : ℕ) → i ≢ l → i ≢ suc l → M i ≡ L i) (zs_l : zs l ≡ ys)
      (zs_off : (i : ℕ) → i ≢ l → zs i ≡ xs i) where
    zs_up : zs (suc l) ≡ xs (suc l)
    zs_up = zs_off (suc l) (λ e. omega arith)

    Building-each : (i : ℕ) → IsLevel (M i) (zs i)
    Building-each i = elim (ℕ_discrete i l) [
      | yes e ↦ rw (e, at_l, zs_l) adds.level
      | no ne ↦ elim (ℕ_discrete i (suc l)) [
        | yes e ↦ rw (e, at_up, zs_up) leads.level
        | no ne' ↦ rw (off i ne ne', zs_off i ne) (b.each i)
      ]
    ]

    Building-Down :
        (i : ℕ) → Down (M (suc i)) (zs (suc i)) (M i) (zs i) (if suc i == l then n else 0)
    Building-Down i = elim (ℕ_discrete i l) [
      | yes e ↦
          let f : (suc l == l) ≡ false = ground arith in
          rw (e, f, at_l, zs_l, at_up, zs_up) Down-here
      | no ne ↦ elim (ℕ_discrete (suc i) l) [
        | yes e ↦
            let t : (l == l) ≡ true = ground arith in
            rw (off i ne (λ q. omega arith), zs_off i ne, e, t, at_l, zs_l) (Down-below i e)
        | no ne' ↦
            let f : (suc i == l) ≡ false = ground arith in
            let f' : (suc i == suc l) ≡ false = ground arith in
            elim (ℕ_discrete i (suc l)) [
              | yes e ↦
                  rw
                    (
                      f,
                      e,
                      at_up,
                      zs_up,
                      off (suc (suc l)) (λ q. omega arith) (λ q. omega arith),
                      zs_off (suc (suc l)) (λ q. omega arith),
                    )
                    Down-above
              | no ne'' ↦
                  rw
                    (
                      f,
                      off i ne ne'',
                      zs_off i ne,
                      off (suc i) ne' (λ q. ne (omega arith)),
                      zs_off (suc i) ne',
                    )
                    (rw f' at (b.down i))
            ]
      ]
    ]

    pub Building-step : Building M zs key l n
    Building-step = record {
      each = Building-each;
      down = Building-Down;
      joined = inr (rw zs_l (rw (adds.mem n) (ground arith)), rw at_l key_new);
      absent = λ i lt a m.
          let ne : i ≢ l = λ e. omega arith in
          let ne' : i ≢ suc l = λ e. omega arith in
          rw (off i ne ne') (b.absent i (omega arith) a (rw (zs_off i ne) at m));
    }
