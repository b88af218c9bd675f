-- ===== src/Manifest/Name.antt =====
-- The name of a sorted file, and the entry that `insert_record` makes.
use polardb_uncompleted.Base.{
  ℕ, zero, suc, ◌+◌, ◌/◌, ◌%◌, ◌^◌, ◌≤◌, ◌<◌, ◌≡◌, inl, inr, List, [], ◌∷◌, ◌++◌, ltb, length,
  length-append, Bool-cases, arith,
}
use polardb_uncompleted.Disk.Image.{drop}
use polardb_uncompleted.Disk.Log.{length-take, length-drop}
use polardb_uncompleted.Manifest.{decimal, sst_name, mf_record}
use polardb_uncompleted.Manifest.Image.{IsSized, file_name_size}

length-decimal : (digits n : ℕ) (s : List ℕ) → length (decimal digits n s) ≤ digits + length s
unfolding decimal
length-decimal zero n s = omega arith
length-decimal (suc digits) n s = elim (Bool-cases (ltb n 10)) [
  | inl small ↦ rw small (omega arith)
  | inr large ↦ rw large (omega (arith, length-decimal digits (n / 10) ((b'0' + n % 10) ∷ s)))
]

length-sst_name : (n : ℕ) → length (sst_name n) ≤ 24
unfolding sst_name
length-sst_name n = length-decimal 20 n (b'.' ∷ b's' ∷ b's' ∷ b't' ∷ [])

pub mf_record-IsSized :
    (unset : List ℕ) (n lvl kstart kend nrecord : ℕ)
    → length unset ≡ file_name_size
    → lvl < 2 ^ 32
    → kstart < 2 ^ 64
    → kend < 2 ^ 64
    → nrecord < 2 ^ 32
    → IsSized (mf_record unset n lvl kstart kend nrecord)
unfolding mf_record
mf_record-IsSized unset n lvl kstart kend nrecord u a b c e =
    let name = sst_name n in
    let short = length-sst_name n in
    let rest = length-drop (length name) unset (omega (arith, short)) in
    let long = length-append name (drop (length name) unset) in
    record {
      lvl = a;
      file_name =
          length-take file_name_size (name ++ drop (length name) unset)
            (omega (arith, short, rest, long));
      kstart = b;
      kend = c;
      nrecord = e;
    }
