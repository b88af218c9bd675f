-- ===== src/Buffer/Record.antt =====
-- engine_race/DBSystem/DBSystem.h, struct Record. A block of memory is the list of its bytes from
-- the given address on.
use polardb_uncompleted.Base.{ℕ, zero, suc, Bool, true, List, [], ◌∷◌, replicate}
use polardb_uncompleted.Base.Run.{Run, ok, undefined}

abbrev pub record_matic : ℕ
record_matic = 0xFFC42495

abbrev pub record_value_len : ℕ
record_value_len = 4096

pub record Record : Type 0 where
  pub magic : ℕ
  pub key : ℕ
  pub value_ptr : List ℕ
  pub check_field : ℕ

-- `Record()`
unfoldable pub new : Record
new = record {
  magic = record_matic;
  key = 0;
  value_ptr = replicate record_value_len 0;
  check_field = 0;
}

-- `memcpy` of the first `n` bytes of a block, which reads past a block that is shorter.
unfoldable pub memcpy : ℕ → List ℕ → Run (List ℕ)
memcpy zero from = ok []
memcpy (suc n) [] = undefined
memcpy (suc n) (b ∷ from) = elim (memcpy n from) [ ok to ↦ ok (b ∷ to) | r ↦ r ]

unfoldable pub set_value : Record → List ℕ → Run Record
unfolding memcpy
set_value r from = elim (memcpy record_value_len from) [
  | ok value ↦ ok (record r { value_ptr = value })
  | _ ↦ undefined
]

unfoldable pub get_value : Record → Run (List ℕ)
unfolding memcpy
get_value r = memcpy record_value_len r.value_ptr

unfoldable pub make_check : Record → Record
make_check r = record r { check_field = 0 }

unfoldable pub check_valid : Record → Bool
check_valid r = true
