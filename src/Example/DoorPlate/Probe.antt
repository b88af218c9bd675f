-- ===== src/Example/DoorPlate/Probe.antt =====
-- The probe loop of `CalcIndex` over an arbitrary test.
use polardb_uncompleted.Base.{
  ℕ, zero, suc, ◌+◌, ◌-◌, ◌%◌, ◌<◌, ◌≡◌, ◌≢◌, refl, ap, ◌∙◌, sym, inl, inr, Bool, true, false, none,
  some, arith, Bool-cases, ℕ_discrete,
}
use polardb_uncompleted.Example.DoorPlate.{max_door_cnt, probe}

-- The place after `index`.
abbrev next : ℕ → ℕ
next index = (index + 1) % max_door_cnt

module _ (test : ℕ → Bool) where
  pub probe-true :
      (rounds index : ℕ) → test index ≡ true → probe test (suc rounds) index ≡ some index
  unfolding probe
  probe-true rounds index h = rw (h, probe)

  pub probe-false :
      (rounds index : ℕ)
      → test index ≡ false
      → probe test (suc rounds) index ≡ probe test rounds (next index)
  unfolding probe
  probe-false rounds index h = rw (h, probe)

  -- The loop ends at a place of the table that passes the test.
  pub probe_sound :
      (rounds index p : ℕ)
      → index < max_door_cnt
      → probe test rounds index ≡ some p
      → (test p ≡ true) × (p < max_door_cnt)
  probe_sound zero index p h e = unfold probe in absurd cc
  probe_sound (suc rounds) index p h e = elim (Bool-cases (test index)) [
    | inl t ↦ let same : index ≡ p = cc (e, probe-true rounds index t) in rw (← same) (t, h)
    | inr t ↦ probe_sound rounds (next index) p (omega arith) (sym (probe-false rounds index t) ∙ e)
  ]

  -- A loop that finds no place has tested one place after the other.
  probe_fails :
      (rounds index j : ℕ)
      → index < max_door_cnt
      → probe test rounds index ≡ none
      → j < rounds
      → test ((index + j) % max_door_cnt) ≡ false
  probe_fails zero index j h e l = absurd (omega arith)
  probe_fails (suc rounds) index j h e l = elim (Bool-cases (test index)) [
    | inl t ↦ absurd (cc (e, probe-true rounds index t))
    | inr t ↦ elim (ℕ_discrete j 0) [
      | yes at ↦ let same : (index + j) % max_door_cnt ≡ index = omega arith in rw same t
      | no ne ↦
          let rest =
            probe_fails rounds (next index) (j - 1) (omega arith)
              (sym (probe-false rounds index t) ∙ e) (omega arith) in
          let same : (next index + (j - 1)) % max_door_cnt ≡ (index + j) % max_door_cnt =
            omega arith in
          rw (← same) rest
    ]
  ]

  -- A loop over the whole table that finds no place has tested every place.
  pub probe_full :
      (start p : ℕ)
      → start < max_door_cnt
      → probe test max_door_cnt start ≡ none
      → p < max_door_cnt
      → test p ≡ false
  probe_full start p h e l =
      let j = (p + max_door_cnt - start) % max_door_cnt in
      let same : (start + j) % max_door_cnt ≡ p = omega arith in
      rw (← same) (probe_fails max_door_cnt start j h e (omega arith))

-- A test that differs at one place only, where the loop did not end, gives the same loop.
pub probe-same :
    (test other : ℕ → Bool) (slot : ℕ)
    → ((j : ℕ) → j ≢ slot → other j ≡ test j)
    → (rounds index : ℕ) → test slot ≡ true
    → probe test rounds index ≢ some slot
    → probe other rounds index ≡ probe test rounds index
probe-same test other slot same zero index old ne = unfold probe in refl
probe-same test other slot same (suc rounds) index old ne = elim (Bool-cases (test index)) [
  | inl t ↦
      let e = probe-true test rounds index t in
      let off : index ≢ slot = λ q. ne (e ∙ ap some q) in
      probe-true other rounds index (same index off ∙ t) ∙ sym e
  | inr t ↦
      let e = probe-false test rounds index t in
      let off : index ≢ slot = λ q. cc in
      let rest = probe-same test other slot same rounds (next index) old (λ q. ne (e ∙ q)) in
      probe-false other rounds index (same index off ∙ t) ∙ rest ∙ sym e
]

-- Tests that agree everywhere.
pub probe-agree :
    (test other : ℕ → Bool)
    → ((j : ℕ) → other j ≡ test j)
    → (rounds index : ℕ) → probe other rounds index ≡ probe test rounds index
probe-agree test other same zero index = unfold probe in refl
probe-agree test other same (suc rounds) index = elim (Bool-cases (test index)) [
  | inl t ↦ probe-true other rounds index (same index ∙ t) ∙ sym (probe-true test rounds index t)
  | inr t ↦
      probe-false other rounds index (same index ∙ t)
      ∙ probe-agree test other same rounds (next index)
      ∙ sym (probe-false test rounds index t)
]
