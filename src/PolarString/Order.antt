-- ===== src/PolarString/Order.antt =====
-- The comparisons of strings against the lists of their bytes.
use polardb_uncompleted.Base.{
  ℕ, zero, suc, ◌≤◌, ◌≡◌, refl, ap, ◌∙◌, true, false, List, [], ◌∷◌, ◌==◌, ltb, if◌then◌else◌,
  length, arith, ℕ_discrete, dec_lt,
}
use polardb_uncompleted.Base.Run.{Run, ok, assertion_failed, undefined, ◌>>=◌}
use polardb_uncompleted.PolarString.{
  Sign, negative, zero_sign, positive, PolarString, memcmp, break_tie, compare,
}

-- The order of a dictionary.
pub lexicographic : List ℕ → List ℕ → Sign
lexicographic [] [] = zero_sign
lexicographic [] (y ∷ b) = negative
lexicographic (x ∷ a) [] = positive
lexicographic (x ∷ a) (y ∷ b) =
    let rest = lexicographic a b in if x == y then rest else if ltb x y then negative else positive

min_len : ℕ → ℕ → ℕ
min_len m n = if ltb m n then m else n

min_len-suc : (m n : ℕ) → min_len (suc m) (suc n) ≡ suc (min_len m n)
unfolding min_len
min_len-suc m n = ground arith

break_tie-suc : (m n : ℕ) (r : Sign) → break_tie (suc m) (suc n) r ≡ break_tie m n r
unfolding break_tie
break_tie-suc m n r = ground arith

same_tie :
    (m n : ℕ) (u : Run Sign)
    → (u >>= (λ r. ok (break_tie (suc m) (suc n) r))) ≡ (u >>= (λ r. ok (break_tie m n r)))
same_tie m n (ok r) = ap ok (break_tie-suc m n r)
same_tie m n assertion_failed = refl
same_tie m n undefined = refl

abbrev pub take : ℕ → List ℕ → List ℕ
take zero xs = []
take (suc n) [] = []
take (suc n) (x ∷ xs) = x ∷ take n xs

by_bytes :
    (a b : List ℕ) (m n : ℕ)
    → m ≤ length a
    → n ≤ length b
    → (memcmp a b (min_len m n) >>= (λ r. ok (break_tie m n r)))
      ≡ ok (lexicographic (take m a) (take n b))
unfolding memcmp lexicographic min_len break_tie
by_bytes a b zero zero m_le n_le = ground arith
by_bytes a (y ∷ b) zero (suc n) m_le n_le = ground arith
by_bytes a [] zero (suc n) m_le n_le = ground arith
by_bytes [] b (suc m) n m_le n_le = ground arith
by_bytes (x ∷ a) b (suc m) zero m_le n_le = ground arith
by_bytes (x ∷ a) [] (suc m) (suc n) m_le n_le = ground arith
by_bytes (x ∷ a) (y ∷ b) (suc m) (suc n) m_le n_le =
    let rest = by_bytes a b m n (omega arith) (omega arith) in
    let tie = same_tie m n (memcmp a b (min_len m n)) in
    rw (min_len-suc m n) (elim (ℕ_discrete x y) [
      | yes e ↦ let t : (x == y) ≡ true = ground arith in rw t (tie ∙ rest)
      | no ne ↦ elim (dec_lt x y) [
        | yes lt ↦
            let f : (x == y) ≡ false = ground arith in
            let t : ltb x y ≡ true = ground arith in rw (f, t) refl
        | no ge ↦
            let f : (x == y) ≡ false = ground arith in
            let t : ltb x y ≡ false = ground arith in rw (f, t) refl
      ]
    ])

-- Strings whose size stays within their memory compare as their bytes do in a dictionary.
pub compare-lexicographic :
    (s b : PolarString)
    → s.size ≤ length s.bytes
    → b.size ≤ length b.bytes
    → compare s b ≡ ok (lexicographic (take s.size s.bytes) (take b.size b.bytes))
unfolding compare min_len
compare-lexicographic s b s_le b_le = by_bytes s.bytes b.bytes s.size b.size s_le b_le
