-- ===== src/Disk/Paths.antt =====
-- The paths of the logs.
use polardb_uncompleted.Base.{
  ℕ, ◌≡◌, ◌≢◌, refl, ap, inl, inr, true, false, List, [], ◌∷◌, ◌++◌, ◌==◌, length, length-append,
  if◌then◌else◌, Bool-cases, arith,
}
use polardb_uncompleted.Base.Run.{ok}
use polardb_uncompleted.Disk.{hot_log, died_log}
use polardb_uncompleted.Disk.Files.{FilePath, same_path, same_path_iff}
use polardb_uncompleted.Utils.{path_join, last_byte}

-- The path of a file in a directory whose last byte is given.
abbrev pub path_in : FilePath → ℕ → List ℕ → FilePath
path_in base b name = base ++ ((if b == b'/' then [] else b'/' ∷ []) ++ name)

pub path_join-in :
    (base : FilePath) (b c : ℕ) (name : List ℕ)
    → last_byte base ≡ ok b
    → last_byte name ≡ ok c
    → path_join (base ∷ name ∷ []) ≡ ok (path_in base b name)
unfolding path_join
path_join-in base b c name h k = rw (h, k) refl

pub hot_path :
    (base : FilePath) (b : ℕ)
    → last_byte base ≡ ok b
    → path_join (base ∷ hot_log ∷ []) ≡ ok (path_in base b hot_log)
unfolding last_byte
hot_path base b h = path_join-in base b b'g' hot_log h refl

pub died_path :
    (base : FilePath) (b : ℕ)
    → last_byte base ≡ ok b
    → path_join (base ∷ died_log ∷ []) ≡ ok (path_in base b died_log)
unfolding last_byte
died_path base b h = path_join-in base b b'g' died_log h refl

pub logs_differ : (base : FilePath) (b : ℕ) → path_in base b hot_log ≢ path_in base b died_log
logs_differ base b e =
    let sep : List ℕ = if b == b'/' then [] else b'/' ∷ [] in
    absurd (
      omega (
        arith,
        ap length e,
        length-append base (sep ++ hot_log),
        length-append base (sep ++ died_log),
        length-append sep hot_log,
        length-append sep died_log,
      ))

pub same_path_self : (p : FilePath) → same_path p p ≡ true
same_path_self p = (same_path_iff p p).1 refl

pub other_path : (p q : FilePath) → p ≢ q → same_path p q ≡ false
other_path p q ne = elim (Bool-cases (same_path p q)) [
  | inl same ↦ absurd (ne ((same_path_iff p q).0 same))
  | inr other ↦ other
]
