-- ===== src/Tests/Words.antt =====
-- Status words of class Index at concrete fields.
use polardb_uncompleted.Base.{◌*◌, ◌^◌, ◌≡◌, refl, true, false, arith}
use polardb_uncompleted.Index.{
  get_fid, get_idx, set_fid, set_idx, if_valid, if_in_hash, set_in_hash, if_in_file, set_in_file,
  if_writing, set_if_writing,
}
use polardb_uncompleted.Index.Word.{bit, flags}
use polardb_uncompleted.Index.Fields.{Fields, IsSized, encode, getters-encode}
use polardb_uncompleted.Index.Setters.{
  set_in_file-encode, set_in_hash-encode, set_if_writing-encode, set_idx-encode, set_idx-keeps_top,
  set_fid-encode,
}

abbrev sample : Fields
sample = record {
  idx = 300;
  reserved = false;
  writing = true;
  in_hash = true;
  in_file = true;
  fid = 7;
}

sample-IsSized : IsSized sample
sample-IsSized = record { idx = omega arith; fid = omega arith }

getters-encode_example :
    (get_idx (encode sample) ≡ 300)
    × (get_fid (encode sample) ≡ 7)
    × (if_in_file (encode sample) ≡ bit true * 2 ^ 8)
    × (if_in_hash (encode sample) ≡ bit true * 2 ^ 9)
    × (if_writing (encode sample) ≡ bit true * 2 ^ 10)
    × (if_valid (encode sample) ≡ flags false true true true * 2 ^ 8)
getters-encode_example = getters-encode sample sample-IsSized

-- The flag of a table entry is lost with the writing mark.
cleared_writing : if_in_file (set_if_writing (encode sample) false) ≡ 0
unfolding if_in_file set_if_writing encode
cleared_writing = refl

set_in_file-encode_example :
    set_in_file (encode sample) false ≡ encode (record sample { in_file = false })
set_in_file-encode_example = set_in_file-encode sample sample-IsSized false

set_in_hash-encode_example :
    set_in_hash (encode sample) false ≡ encode (record sample { in_hash = false; in_file = false })
set_in_hash-encode_example = set_in_hash-encode sample sample-IsSized false

set_if_writing-encode_example :
    set_if_writing (encode sample) false
    ≡ encode (record sample { writing = false; in_file = false })
set_if_writing-encode_example = set_if_writing-encode sample sample-IsSized false

set_idx-encode_example : set_idx (encode sample) 1023 ≡ encode (record sample { idx = 1023 })
set_idx-encode_example = set_idx-encode sample sample-IsSized 1023 (omega arith) (omega arith)

-- An index with its top bit set.
abbrev high : Fields
high = record sample { idx = 524288 }

set_idx-keeps_top_example : set_idx (encode high) 5 ≡ encode (record high { idx = 524293 })
set_idx-keeps_top_example =
    set_idx-keeps_top high (record { idx = omega arith; fid = omega arith }) 5 (omega arith)

set_fid-encode_example :
    (set_fid (encode sample) 9 ≡ encode (record sample { fid = 9 }))
    × (set_fid (encode sample) 265 ≡ encode (record sample { fid = 9; in_file = true }))
set_fid-encode_example = set_fid-encode sample sample-IsSized 9 (omega arith)
