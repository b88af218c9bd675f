-- ===== src/Manifest/Image.antt =====
-- engine_race/DBSystem/DBSystem.h, struct Manifester::MFRecord: one sorted file, and its bytes in
-- memory and in the manifest (x86-64: `file_name` at 4, `kstart` at 264, `nrecord` at 280).
use polardb_uncompleted.Base.{ℕ, ◌+◌, ◌^◌, ◌<◌, ◌≡◌, refl, List, ◌++◌, length, length-append, arith}
use mathlib.Core.List.{append_assoc}
use polardb_uncompleted.Disk.Image.{
  of_bytes, take, drop, take-append, drop-append, drop-three, drop-four, length-bytes_of,
  of_bytes-4, of_bytes-8,
}
use polardb_uncompleted.IndexHashMap.Hash.{bytes_of}

-- `lvl` and `nrecord` are `int32_t`; the number here is the word of 32 bits.
pub record MfRecord : Type 0 where
  pub lvl : ℕ
  pub file_name : List ℕ
  pub kstart : ℕ
  pub kend : ℕ
  pub nrecord : ℕ

abbrev pub file_name_size : ℕ
file_name_size = 256

-- `sizeof(MFRecord)`
abbrev pub mf_record_size : ℕ
mf_record_size = 288

-- The padding behind `file_name` and at the end is left as zeros here; nothing reads it.
unfoldable pub image : MfRecord → List ℕ
image r =
    bytes_of 4 r.lvl
    ++ (r.file_name
        ++ (bytes_of 4 0
            ++ (bytes_of 8 r.kstart
                ++ (bytes_of 8 r.kend ++ (bytes_of 4 r.nrecord ++ bytes_of 4 0)))))

unfoldable pub of_image : List ℕ → MfRecord
of_image s = record {
  lvl = of_bytes (take 4 s);
  file_name = take file_name_size (drop 4 s);
  kstart = of_bytes (take 8 (drop 264 s));
  kend = of_bytes (take 8 (drop 272 s));
  nrecord = of_bytes (take 4 (drop 280 s));
}

-- The values that the fields can have.
pub record IsSized (r : MfRecord) : Type 0 where
  pub lvl : r.lvl < 2 ^ 32
  pub file_name : length r.file_name ≡ file_name_size
  pub kstart : r.kstart < 2 ^ 64
  pub kend : r.kend < 2 ^ 64
  pub nrecord : r.nrecord < 2 ^ 32

drop-five :
    (k : ℕ) (a b c d e f : List ℕ)
    → length a + length b + length c + length d + length e ≡ k
    → drop k (a ++ (b ++ (c ++ (d ++ (e ++ f))))) ≡ f
drop-five k a b c d e f h =
    rw (← append_assoc a b (c ++ (d ++ (e ++ f))))
      (drop-four k (a ++ b) c d e f (omega (arith, length-append a b)))

pub length-image : (r : MfRecord) → IsSized r → length (image r) ≡ mf_record_size
unfolding image
length-image r z = omega (arith, z.file_name, length-append {0} {A = ℕ}, length-bytes_of)

-- An entry is what its own bytes stand for.
pub of_image-image : (r : MfRecord) → IsSized r → of_image (image r) ≡ r
unfolding of_image image
of_image-image r z =
    let lvl = bytes_of 4 r.lvl in
    let pad = bytes_of 4 0 in
    let kstart = bytes_of 8 r.kstart in
    let kend = bytes_of 8 r.kend in
    let nrecord = bytes_of 4 r.nrecord in
    let last = nrecord ++ pad in
    let keys = kstart ++ (kend ++ last) in
    let ll = length-bytes_of 4 r.lvl in
    let lp = length-bytes_of 4 0 in
    let ls = length-bytes_of 8 r.kstart in
    let le = length-bytes_of 8 r.kend in
    rw
      (
        take-append 4 lvl (r.file_name ++ (pad ++ keys)) ll,
        drop-append 4 lvl (r.file_name ++ (pad ++ keys)) ll,
        take-append file_name_size r.file_name (pad ++ keys) z.file_name,
        drop-three 264 lvl r.file_name pad keys (omega (arith, z.file_name)),
        take-append 8 kstart (kend ++ last) ls,
        drop-four 272 lvl r.file_name pad kstart (kend ++ last) (omega (arith, z.file_name)),
        take-append 8 kend last le,
        drop-five 280 lvl r.file_name pad kstart kend last (omega (arith, z.file_name)),
        take-append 4 nrecord pad (length-bytes_of 4 r.nrecord),
        of_bytes-4 r.lvl z.lvl,
        of_bytes-8 r.kstart z.kstart,
        of_bytes-8 r.kend z.kend,
        of_bytes-4 r.nrecord z.nrecord,
      )
      refl
