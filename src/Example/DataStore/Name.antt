-- ===== src/Example/DataStore/Name.antt =====
-- The names of the data files differ.
use polardb_uncompleted.Base.{
  ℕ, zero, suc, ◌+◌, ◌-◌, ◌*◌, ◌/◌, ◌%◌, ◌^◌, ◌<◌, ◌≡◌, ◌≢◌, refl, ap, ◌∙◌, sym, inl, inr, List, [],
  ◌∷◌, ◌++◌, ltb, Bool-cases, arith,
}
use mathlib.Core.List.{append_cancel_left}
use polardb_uncompleted.Disk.Files.{FilePath}
use polardb_uncompleted.Example.DataStore.{data_file_prefix, file_name}
use polardb_uncompleted.Manifest.{decimal}

-- The number that digits stand for, behind a number.
unfoldable pub number : ℕ → List ℕ → ℕ
number a [] = a
number a (c ∷ s) = number (a * 10 + (c - b'0')) s

abbrev ten_to : ℕ → ℕ
ten_to zero = 1
ten_to (suc d) = 10 * ten_to d

pub number-decimal :
    (digits n : ℕ) (s : List ℕ) → n < ten_to digits → number 0 (decimal digits n s) ≡ number n s
unfolding decimal number
number-decimal zero n s h = let z : n ≡ 0 = omega arith in rw z refl
number-decimal (suc digits) n s h = elim (Bool-cases (ltb n 10)) [
  | inl small ↦
      let e : 0 * 10 + (b'0' + n - b'0') ≡ n = omega arith in
      rw small (ap (λ (m : ℕ). number m s) e)
  | inr large ↦
      let rest = number-decimal digits (n / 10) ((b'0' + n % 10) ∷ s) (omega arith) in
      let e : n / 10 * 10 + (b'0' + n % 10 - b'0') ≡ n = omega arith in
      rw large (rest ∙ ap (λ (m : ℕ). number m s) e)
]

pub number-decimal_word : (n : ℕ) → n < 2 ^ 32 → number 0 (decimal 20 n []) ≡ n
unfolding number
number-decimal_word n h = number-decimal 20 n [] (omega arith)

pub file_name-ne :
    (dir : FilePath) (n m : ℕ) → n < 2 ^ 32 → m < 2 ^ 32 → n ≢ m → file_name dir n ≢ file_name dir m
unfolding file_name
file_name-ne dir n m h k ne e =
    let prefix : List ℕ = b'/' ∷ data_file_prefix in
    let a = append_cancel_left dir (prefix ++ decimal 20 n []) (prefix ++ decimal 20 m []) e in
    let b = append_cancel_left prefix (decimal 20 n []) (decimal 20 m []) a in
    ne (sym (number-decimal_word n h) ∙ ap (number 0) b ∙ number-decimal_word m k)
