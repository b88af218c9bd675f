-- ===== src/IndexHashMap/Room.antt =====
-- A table of class IndexHashMap with few entries has a free slot on every probe sequence.
use polardb_uncompleted.Base.{
  ℕ, zero, suc, ◌*◌, ◌≤◌, ◌<◌, ◌≡◌, ◌≢◌, refl, inl, inr, true, false, List, [], ◌∷◌, length, ltb,
  write, arith, Bool-cases, ℕ_discrete,
}
use polardb_uncompleted.Base.Run.{ok}
use polardb_uncompleted.Buffer.{member, remove}
use polardb_uncompleted.Index.{Index, if_valid}
use polardb_uncompleted.IndexHashMap.Hash.{hash_table_size, hash_key}
use polardb_uncompleted.IndexHashMap.Search.{triangle, visit}
use polardb_uncompleted.IndexHashMap.{
  IndexHashMap, KeyIdxPair, new, is_free, stops, search, stored, update,
}
use polardb_uncompleted.IndexHashMap.Capacity.{update-total}

length-remove : (a : ℕ) (xs : List ℕ) → member a xs ≡ true → suc (length (remove a xs)) ≡ length xs
unfolding remove
length-remove a [] h = absurd cc
length-remove a (x ∷ xs) h = ground (arith, length-remove a xs)

member-remove : (a b : ℕ) (xs : List ℕ) → a ≢ b → member a xs ≡ true → member a (remove b xs) ≡ true
unfolding remove
member-remove a b [] ne h = absurd cc
member-remove a b (x ∷ xs) ne h = ground (arith, member-remove a b xs ne)

module _ (f : ℕ → ℕ) (xs : List ℕ) where
  -- The first arguments all lead into the list, or one of them does not.
  data Leads (n : ℕ) : Type 0 where
    inside : ((c : ℕ) → c ≤ n → member (f c) xs ≡ true) → Leads n
    outside : (c : ℕ) → c ≤ n → member (f c) xs ≡ false → Leads n

  leads : (n : ℕ) → Leads n
  leads zero = elim (Bool-cases (member (f 0) xs)) [
    | inl t ↦ inside (λ c h. let e : c ≡ 0 = omega (arith, h) in rw e t)
    | inr off ↦ outside 0 (omega arith) off
  ]
  leads (suc n) = elim (leads n) [
    | outside c h off ↦ outside c (omega (arith, h)) off
    | inside all ↦ elim (Bool-cases (member (f (suc n)) xs)) [
      | inr off ↦ outside (suc n) (omega arith) off
      | inl t ↦ inside (λ c h. elim (ℕ_discrete c (suc n)) [
        | yes e ↦ rw e t
        | no ne ↦ all c (omega (arith, h, ne))
      ])
    ]
  ]

-- Different numbers in a list are no more than its entries.
pigeons :
    (f : ℕ → ℕ) (n : ℕ) (xs : List ℕ)
    → ((c d : ℕ) → c < d → d ≤ n → f c ≢ f d)
    → ((c : ℕ) → c ≤ n → member (f c) xs ≡ true)
    → n < length xs
pigeons f zero xs ne all = let e = length-remove (f 0) xs (all 0 (omega arith)) in omega (arith, e)
pigeons f (suc n) xs ne all =
    let e = length-remove (f (suc n)) xs (all (suc n) (omega arith)) in
    let less =
      pigeons f n (remove (f (suc n)) xs) (λ c d h k. ne c d h (omega (arith, k)))
        (λ c h.
          member-remove (f c) (f (suc n)) xs (ne c (suc n) (omega (arith, h)) (omega arith))
            (all c (omega (arith, h)))) in
    omega (arith, e, less)

triangle_bound : (c : ℕ) → c ≤ 1024 → triangle c ≤ c * 1024
unfolding triangle
triangle_bound zero h = omega arith
triangle_bound (suc c) h = omega (arith, triangle_bound c (omega arith))

triangle_grows : (c d : ℕ) → c < d → triangle c < triangle d
unfolding triangle
triangle_grows c zero h = absurd (omega arith)
triangle_grows c (suc d) h = elim (ℕ_discrete c d) [
  | yes e ↦ rw e (omega arith)
  | no ne ↦ omega (arith, triangle_grows c d (omega arith))
]

visit-ne : (home c d : ℕ) → c < d → d ≤ 1024 → visit home c ≢ visit home d
unfolding visit
visit-ne home c d h k e = omega (arith, e, triangle_grows c d h, triangle_bound d k)

-- The slots in use are among a list of so many.
pub record Holds (m : IndexHashMap) (n : ℕ) : Type 0 where
  pub used : List ℕ
  pub few : length used ≤ n
  pub all : (p : ℕ) → is_free (m p) ≡ false → member p used ≡ true

pub new-Holds : Holds new 0
unfolding new if_valid
new-Holds = record { used = []; few = omega arith; all = λ p h. cc }

module _ (m : IndexHashMap) (key : ℕ) (index : Index) (n : ℕ) (h : Holds m n) where
  visits_free : n ≤ 1024 → (c : ℕ) × (c ≤ n) × (is_free (m (visit (hash_key key) c)) ≡ true)
  visits_free small = elim (leads (visit (hash_key key)) h.used n) [
    | inside all ↦
        let over =
          pigeons (visit (hash_key key)) n h.used
            (λ c d l k. visit-ne (hash_key key) c d l (omega (arith, k))) all in
        absurd (omega (arith, over, h.few))
    | outside c le off ↦ elim (Bool-cases (is_free (m (visit (hash_key key) c)))) [
      | inl free ↦ (c, le, free)
      | inr taken ↦ absurd (cc (off, h.all (visit (hash_key key) c) taken))
    ]
  ]

  write-Holds : (e : ℕ) (v : KeyIdxPair) → Holds (write m e v) (suc n)
  unfolding write
  write-Holds e v = record {
    used = e ∷ h.used;
    few = omega (arith, h.few);
    all = λ p taken. ground (arith, h.all p);
  }

  after-Holds : (m' : IndexHashMap) (cnt : ℕ) → update m key index ≡ ok (m', cnt) → Holds m' (suc n)
  unfolding update
  after-Holds m' cnt done =
      let r = search m key in
      elim (Bool-cases (ltb r.search_cnt hash_table_size)) [
        | inr out ↦ let done' = rw (out, update) at done in absurd cc
        | inl early ↦
            let done' = rw (early, update) at done in
            let after = write m r.entry (stored (m r.entry) key index) in
            let e : after ≡ m' = cc in rw (← e) (write-Holds r.entry (stored (m r.entry) key index))
      ]

  -- A table with at most 1024 entries takes every key, and has at most one entry more then.
  pub update-Holds :
      n ≤ 1024
      → (m' : IndexHashMap) × (cnt : ℕ) × (update m key index ≡ ok (m', cnt)) × Holds m' (suc n)
  unfolding update
  update-Holds small =
      let (c, le, free) = visits_free small in
      let stop : stops m key (visit (hash_key key) c) ≡ true = unfold stops in rw free refl in
      let (m', cnt, done, within) = update-total m key index c (omega arith) stop in
      (m', cnt, done, after-Holds m' cnt done)
