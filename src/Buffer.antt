-- ===== src/Buffer.antt =====
-- engine_race/DBSystem/DBSystem.cpp, class Buffer: slots for records, with lists of the free and
-- the written slots. Each method holds its mutex, so it is one step; `none` means that the thread
-- waits on the condition variable, with nothing changed.
pub mod Record
pub mod Slots
use Record as Item
use polardb_uncompleted.Base.{
  ℕ, zero, suc, ◌+◌, Bool, true, false, ◌||◌, Option, none, some, List, [], ◌∷◌, ◌++◌, ◌==◌,
  if◌then◌else◌, write,
}
use polardb_uncompleted.Base.Run.{Run, ok, assertion_failed}

abbrev pub record_buff_size : ℕ
record_buff_size = 1024

-- `wrote_mapping` is the list of its keys. Its iterator for a key leads to the entry of
-- `idxes_wrote` that holds the key.
pub record Buffer : Type 0 where
  pub slots : ℕ → Item.Record
  pub accessing : ℕ → Bool
  pub idxes_empty : List ℕ
  pub idxes_wrote : List ℕ
  pub wrote_mapping : List ℕ
  pub id : ℕ

-- The constructor's loop: `push_back` of 0, 1, ….
unfoldable pub indices : ℕ → ℕ → List ℕ
indices i zero = []
indices i (suc rounds) = i ∷ indices (suc i) rounds

unfoldable pub new : Buffer
new = record {
  slots = λ i. Item.new;
  accessing = λ i. false;
  idxes_empty = indices 0 record_buff_size;
  idxes_wrote = [];
  wrote_mapping = [];
  id = 0;
}

-- `back()` and `pop_back()`; `none` for the empty list
unfoldable pub split_last : List ℕ → Option (ℕ × List ℕ)
split_last [] = none
split_last (x ∷ xs) = elim (split_last xs) [ none ↦ some (x, []) | some (y, ys) ↦ some (y, x ∷ ys) ]

abbrev pub member : ℕ → List ℕ → Bool
member a [] = false
member a (x ∷ xs) = (a == x) || member a xs

-- `erase` of the entry that holds `a`
unfoldable pub remove : ℕ → List ℕ → List ℕ
remove a [] = []
remove a (x ∷ xs) = if a == x then xs else x ∷ remove a xs

unfoldable pub request_record_buff : Buffer → Option (ℕ × Buffer)
request_record_buff b = elim (split_last b.idxes_empty) [
  | none ↦ none
  | some (ret, rest) ↦ some (
    ret,
    record b {
      idxes_empty = rest;
      idxes_wrote = ret ∷ b.idxes_wrote;
      wrote_mapping = if member ret b.wrote_mapping then b.wrote_mapping else ret ∷ b.wrote_mapping;
    },
  )
]

unfoldable pub release_buff : Buffer → ℕ → Run Buffer
release_buff b id =
    if member id b.wrote_mapping
    then ok (record b {
      idxes_wrote = remove id b.idxes_wrote;
      wrote_mapping = remove id b.wrote_mapping;
      idxes_empty = id ∷ b.idxes_empty;
    })
    else assertion_failed

-- The slot whose address is returned, and the buffer with the slot marked.
unfoldable pub wait_for_access : Buffer → ℕ → Option (ℕ × Buffer)
wait_for_access b idx =
    if b.accessing idx
    then none
    else some (idx, record b { accessing = write b.accessing idx true })

unfoldable pub end_access : Buffer → ℕ → Buffer
end_access b idx = record b { accessing = write b.accessing idx false }

unfoldable pub if_full : Buffer → Bool
if_full b = elim b.idxes_empty [ [] ↦ true | _ ∷ _ ↦ false ]

unfoldable pub get_id : Buffer → ℕ
get_id b = b.id

unfoldable pub set_id : Buffer → ℕ → Buffer
set_id b id = record b { id = id }
