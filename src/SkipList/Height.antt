-- ===== src/SkipList/Height.antt =====
-- The height of a new node.
use polardb_uncompleted.Base.{
  ℕ, zero, suc, ◌+◌, ◌-◌, ◌%◌, ◌≤◌, ◌<◌, ◌≡◌, ◌⊎◌, inl, inr, false, arith, ◌==◌, ℕ_discrete,
  Bool-cases,
}
use polardb_uncompleted.SkipList.{
  skip_list_max_height, possibility_gen_upper, height_loop, get_insert_height,
}

-- The loop ends at the first call of `random()` that is not divisible, or at the greatest height.
pub record IsHeight (random : ℕ → ℕ) (k : ℕ) (top : ℕ) (h : ℕ) : Type 0 where
  pub above : k ≤ h
  pub below : h ≤ top
  pub passed : (j : ℕ) → k ≤ j → j < h → random (j - 1) % possibility_gen_upper ≡ 0
  pub ends : (h ≡ top) ⊎ ((random (h - 1) % possibility_gen_upper == 0) ≡ false)

loop-IsHeight :
    (random : ℕ → ℕ) (rounds k : ℕ) → IsHeight random k (k + rounds) (height_loop random rounds k)
unfolding height_loop
loop-IsHeight random zero k = record {
  above = omega arith;
  below = omega arith;
  passed = λ j lo hi. absurd (omega arith);
  ends = inl (omega arith);
}
loop-IsHeight random (suc rounds) k =
    let rest = loop-IsHeight random rounds (k + 1) in
    elim (Bool-cases (random (k - 1) % possibility_gen_upper == 0)) [
      | inl t ↦
          rw (t, height_loop)
            (record {
              above = omega (arith, rest.above);
              below = omega (arith, rest.below);
              passed = λ j lo hi. elim (ℕ_discrete j k) [
                | yes e ↦ rw e (ground arith)
                | no n ↦ rest.passed j (omega arith) hi
              ];
              ends = elim rest.ends [ inl e ↦ inl (omega arith) | inr f ↦ inr f ];
            })
      | inr f ↦
          rw (f, height_loop)
            (record {
              above = omega arith;
              below = omega arith;
              passed = λ j lo hi. absurd (omega arith);
              ends = inr f;
            })
    ]

-- The height of a new node is at least 1 and at most 12, and it is the number of the first call of
-- `random()` whose result is not divisible by 4, or 12 if the first eleven are all divisible.
pub get_insert_height-IsHeight :
    (random : ℕ → ℕ) → IsHeight random 1 skip_list_max_height (get_insert_height random)
unfolding get_insert_height
get_insert_height-IsHeight random = loop-IsHeight random 11 1
