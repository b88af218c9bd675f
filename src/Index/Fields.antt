-- ===== src/Index/Fields.antt =====
-- The fields of a status word, and what each method of class Index does to them.
use Prim.Native.Nat.{bit_and, bit_or}
use polardb_uncompleted.Base.{ℕ, ◌*◌, ◌^◌, ◌<◌, ◌≡◌, refl, Bool, arith}
use polardb_uncompleted.Base.Bits.{bit_and-zero, bit_and_ones}
use polardb_uncompleted.Index.Word.{
  bit, flags, word, flags-bit_and, flags-lt, word-bit_and, word-bit_or,
}
use polardb_uncompleted.Index.{
  Index, get_fid, get_idx, if_valid, if_in_hash, if_in_file, if_writing,
}

-- What a status word stands for.
pub record Fields : Type 0 where
  pub idx : ℕ
  pub reserved : Bool
  pub writing : Bool
  pub in_hash : Bool
  pub in_file : Bool
  pub fid : ℕ

pub record IsSized (v : Fields) : Type 0 where
  pub idx : v.idx < 2 ^ 20
  pub fid : v.fid < 2 ^ 8

unfoldable pub encode : Fields → Index
unfolding word
encode v = record { status = word v.idx (flags v.reserved v.writing v.in_hash v.in_file) v.fid }

module _ (v : Fields) (z : IsSized v) where
  open v use {idx, reserved, writing, in_hash, in_file, fid}

  pub masked :
      (j g e : ℕ)
      → g < 2 ^ 4
      → e < 2 ^ 8
      → bit_and (encode v).status (word j g e)
        ≡ word (bit_and idx j) (bit_and (flags reserved writing in_hash in_file) g) (bit_and fid e)
  unfolding encode
  masked j g e hg he =
      word-bit_and idx _ fid j g e (flags-lt reserved writing in_hash in_file) z.fid hg he

  pub joined :
      (j g e : ℕ)
      → g < 2 ^ 4
      → e < 2 ^ 8
      → bit_or (encode v).status (word j g e)
        ≡ word (bit_or idx j) (bit_or (flags reserved writing in_hash in_file) g) (bit_or fid e)
  unfolding encode
  joined j g e hg he =
      word-bit_or idx _ fid j g e (flags-lt reserved writing in_hash in_file) z.fid hg he

  pub keep_idx : bit_and idx 0xfffff ≡ idx
  keep_idx = bit_and_ones 20 idx _ refl z.idx

  pub keep_fid : bit_and fid 0xff ≡ fid
  keep_fid = bit_and_ones 8 fid _ refl z.fid

  pub keep_flags :
      bit_and (flags reserved writing in_hash in_file) 15 ≡ flags reserved writing in_hash in_file
  keep_flags = bit_and_ones 4 _ _ refl (flags-lt reserved writing in_hash in_file)

  pub zero_idx : bit_and idx 0 ≡ 0
  zero_idx = bit_and-zero idx

  pub zero_flags : bit_and (flags reserved writing in_hash in_file) 0 ≡ 0
  zero_flags = bit_and-zero _

  pub zero_fid : bit_and fid 0 ≡ 0
  zero_fid = bit_and-zero fid

  -- Each getter reads its own field: the index and the file number as numbers, a status bit in
  -- place, and `if_valid` all four status bits.
  pub getters-encode :
      (get_idx (encode v) ≡ idx)
      × (get_fid (encode v) ≡ fid)
      × (if_in_file (encode v) ≡ bit in_file * 2 ^ 8)
      × (if_in_hash (encode v) ≡ bit in_hash * 2 ^ 9)
      × (if_writing (encode v) ≡ bit writing * 2 ^ 10)
      × (if_valid (encode v) ≡ flags reserved writing in_hash in_file * 2 ^ 8)
  unfolding get_idx get_fid if_in_file if_in_hash if_writing if_valid word
  getters-encode = (
    omega (arith, masked 0xfffff 0 0 (omega arith) (omega arith), keep_idx, zero_flags, zero_fid),
    omega (arith, masked 0 0 0xff (omega arith) (omega arith), zero_idx, zero_flags, keep_fid),
    omega (
      arith,
      masked 0 1 0 (omega arith) (omega arith),
      zero_idx,
      (flags-bit_and reserved writing in_hash in_file).1,
      zero_fid,
    ),
    omega (
      arith,
      masked 0 2 0 (omega arith) (omega arith),
      zero_idx,
      (flags-bit_and reserved writing in_hash in_file).0,
      zero_fid,
    ),
    omega (
      arith,
      masked 0 4 0 (omega arith) (omega arith),
      zero_idx,
      (flags-bit_and reserved writing in_hash in_file).2,
      zero_fid,
    ),
    omega (arith, masked 0 15 0 (omega arith) (omega arith), zero_idx, keep_flags, zero_fid),
  )
