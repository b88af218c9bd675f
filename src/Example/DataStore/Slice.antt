-- ===== src/Example/DataStore/Slice.antt =====
-- The bytes at a location.
use polardb_uncompleted.Base.{
  ℕ, zero, suc, ◌+◌, ◌≤◌, ◌≡◌, refl, ap, List, [], ◌∷◌, ◌++◌, length, arith,
}
use polardb_uncompleted.Disk.Image.{take, drop, drop-append}
use polardb_uncompleted.Disk.Log.{length-take, length-drop}
use polardb_uncompleted.Example.DataStore.{slice}

take_all : (s : List ℕ) → take (length s) s ≡ s
unfolding take
take_all [] = refl
take_all (b ∷ s) = ap (λ (t : List ℕ). b ∷ t) (take_all s)

take-append_left : (n : ℕ) (s t : List ℕ) → n ≤ length s → take n (s ++ t) ≡ take n s
unfolding take
take-append_left zero s t h = refl
take-append_left (suc n) [] t h = absurd (omega arith)
take-append_left (suc n) (b ∷ s) t h =
    ap (λ (r : List ℕ). b ∷ r) (take-append_left n s t (omega arith))

drop-append_left : (n : ℕ) (s t : List ℕ) → n ≤ length s → drop n (s ++ t) ≡ drop n s ++ t
unfolding drop
drop-append_left zero s t h = refl
drop-append_left (suc n) [] t h = absurd (omega arith)
drop-append_left (suc n) (b ∷ s) t h = drop-append_left n s t (omega arith)

pub length-slice :
    (s : List ℕ) (offset len : ℕ) → offset + len ≤ length s → length (slice s offset len) ≡ len
unfolding slice
length-slice s offset len h =
    let left = length-drop offset s (omega arith) in length-take len (drop offset s) (omega arith)

-- What is appended does not change the bytes before.
pub slice-append :
    (s t : List ℕ) (offset len : ℕ)
    → offset + len ≤ length s
    → slice (s ++ t) offset len ≡ slice s offset len
unfolding slice
slice-append s t offset len h =
    let left = length-drop offset s (omega arith) in
    rw (drop-append_left offset s t (omega arith))
      (take-append_left len (drop offset s) t (omega arith))

pub slice_appended : (s t : List ℕ) → slice (s ++ t) (length s) (length t) ≡ t
unfolding slice
slice_appended s t = rw (drop-append (length s) s t refl) (take_all t)
