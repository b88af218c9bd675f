-- ===== src/IndexHashMap/Search.antt =====
-- The search loop of class IndexHashMap over an arbitrary test: where it can end, which slots it
-- visits, and how its end depends on the test.
use polardb_uncompleted.Base.{
  ℕ, zero, suc, ◌+◌, ◌*◌, ◌%◌, ◌^◌, ◌≤◌, ◌<◌, ◌≡◌, ◌≢◌, refl, ◌∙◌, ◌⊎◌, inl, inr, Bool, true, false,
  arith, Bool-cases, ℕ_discrete,
}
use polardb_uncompleted.IndexHashMap.Hash.{hash_table_size}
use polardb_uncompleted.IndexHashMap.{Probe, search_loop, search_from}

abbrev next_entry : ℕ → ℕ → ℕ
next_entry entry cnt = (entry + cnt) % 2 ^ 32 % hash_table_size

module _ (test : ℕ → Bool) where
  loop-true :
      (f e c : ℕ)
      → test (next_entry e c) ≡ true
      → search_loop test (suc f) e c ≡ record { entry = next_entry e c; search_cnt = c }
  unfolding search_loop
  loop-true f e c h = rw (h, search_loop)

  loop-false :
      (f e c : ℕ)
      → test (next_entry e c) ≡ false
      → search_loop test (suc f) e c ≡ search_loop test f (next_entry e c) (suc c)
  unfolding search_loop
  loop-false f e c h = rw (h, search_loop)

  -- The loop ends at a slot that passes the test, or after all its rounds.
  pub loop-ends :
      (f e c : ℕ)
      → ((test (search_loop test f e c).entry ≡ true)
          × ((search_loop test f e c).search_cnt < c + f))
        ⊎ ((search_loop test f e c).search_cnt ≡ c + f)
  unfolding search_loop
  loop-ends zero e c = inr (omega arith)
  loop-ends (suc f) e c = ground (arith, loop-ends f (next_entry e c) (suc c))

  pub loop-entry-lt : (f e c : ℕ) → 0 < f → (search_loop test f e c).entry < hash_table_size
  unfolding search_loop
  loop-entry-lt zero e c h = absurd (omega arith)
  loop-entry-lt (suc zero) e c h = ground arith
  loop-entry-lt (suc (suc f)) e c h =
      ground (arith, loop-entry-lt (suc f) (next_entry e c) (suc c) (omega arith))

-- Triangular numbers: the offsets of the visited slots from the home slot.
unfoldable pub triangle : ℕ → ℕ
triangle zero = 0
triangle (suc c) = triangle c + suc c

pub triangle_lem : (c : ℕ) → 2 * triangle c ≡ c * (c + 1)
unfolding triangle
triangle_lem zero = refl
triangle_lem (suc c) = omega (arith, triangle_lem c)

-- The slot that round `c` tests.
unfoldable pub visit : ℕ → ℕ → ℕ
visit start c = (start + triangle c) % hash_table_size

-- The value of `entry` at the start of round `c`.
abbrev before : ℕ → ℕ → ℕ
before start zero = start
before start (suc c) = visit start c

next_entry-before :
    (start c : ℕ)
    → start < hash_table_size
    → c < hash_table_size
    → next_entry (before start c) c ≡ visit start c
unfolding visit triangle
next_entry-before start zero h g = omega arith
next_entry-before start (suc c) h g = omega arith

module _ (test : ℕ → Bool) (start : ℕ) where
  -- The loop has passed over every slot visited from round `c` on, and ends either at the first
  -- visited slot that passes the test or, without one, after round `n - 1`.
  pub record IsFirst (c n : ℕ) (r : Probe) : Type 0 where
    pub passed : (j : ℕ) → c ≤ j → j < r.search_cnt → test (visit start j) ≡ false
    pub ends :
        ((r.search_cnt < n) × (r.entry ≡ visit start r.search_cnt) × (test r.entry ≡ true))
        ⊎ (r.search_cnt ≡ n)

  IsFirst-earlier :
      (c f : ℕ) (r : Probe)
      → test (visit start c) ≡ false
      → IsFirst (suc c) (suc c + f) r
      → IsFirst c (c + suc f) r
  IsFirst-earlier c f r t p = record {
    passed = λ j lo hi. elim (ℕ_discrete c j) [
      | yes e ↦ rw (← e) t
      | no n ↦ p.passed j (omega arith) hi
    ];
    ends = elim p.ends [
      | inl (lt, at, stop) ↦ inl (omega arith, at, stop)
      | inr out ↦ inr (omega arith)
    ];
  }

  module _ (home : start < hash_table_size) where
    loop-IsFirst :
        (f c : ℕ)
        → c + f ≤ hash_table_size
        → IsFirst c (c + f) (search_loop test f (before start c) c)
    loop-IsFirst zero c h =
        unfold search_loop in
        (record { passed = λ j lo hi. absurd (omega arith); ends = inr (omega arith) })
    loop-IsFirst (suc f) c h =
        let e = next_entry-before start c home (omega arith) in
        elim (Bool-cases (test (next_entry (before start c) c))) [
          | inl t ↦
              rw (loop-true test f _ c t) (record {
                passed = λ j lo hi. absurd (omega arith);
                ends = inl (omega arith, e, t);
              })
          | inr t ↦
              rw (loop-false test f _ c t, e)
                (IsFirst-earlier c f _ (rw e at t) (loop-IsFirst f (suc c) (omega arith)))
        ]

    -- The search ends at the first slot of the sequence `visit start 0, visit start 1, …` that
    -- passes the test, or after as many rounds as the table has slots.
    pub search_from-IsFirst : IsFirst 0 hash_table_size (search_from start test)
    unfolding search_from
    search_from-IsFirst = loop-IsFirst hash_table_size 0 (omega arith)

-- A test that fails at one more slot, where the old search did not end, gives the same search.
module _ (test other : ℕ → Bool) (slot : ℕ) (same : (j : ℕ) → j ≢ slot → other j ≡ test j)
    (old : test slot ≡ true) where
  loop-skip :
      (f e c : ℕ)
      → ((search_loop test f e c).search_cnt < c + f → (search_loop test f e c).entry ≢ slot)
      → search_loop other f e c ≡ search_loop test f e c
  loop-skip zero e c h = unfold search_loop in refl
  loop-skip (suc f) e c h = elim (Bool-cases (test (next_entry e c))) [
    | inl t ↦
        let ne = (rw (loop-true test f e c t) at h) (omega arith) in
        rw (loop-true test f e c t, loop-true other f e c (same _ ne ∙ t)) refl
    | inr t ↦
        let ne : next_entry e c ≢ slot = λ q. cc in
        let rest = loop-skip f (next_entry e c) (suc c) in
        rw (loop-false test f e c t, loop-false other f e c (same _ ne ∙ t))
          (rest λ lt. (rw (loop-false test f e c t) at h) (omega arith))
  ]

  -- The slot is not where the old search ended.
  pub search_from-skip :
      (start : ℕ)
      → ((search_from start test).search_cnt < hash_table_size
          → (search_from start test).entry ≢ slot)
      → search_from start other ≡ search_from start test
  unfolding search_from
  search_from-skip start h = loop-skip hash_table_size start 0 (λ lt. h (omega arith))
