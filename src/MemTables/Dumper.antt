-- ===== src/MemTables/Dumper.antt =====
-- `buffers_dumper` of class MemTables: the merge of the skip lists of one dump.
use polardb_uncompleted.Base.{
  ℕ, zero, suc, ◌-◌, ◌^◌, Option, none, some, List, [], ◌∷◌, ◌++◌, ltb, if◌then◌else◌,
}
use polardb_uncompleted.IndexHashMap.{KeyIdxPair}
use polardb_uncompleted.MemTables.Source.{Source, owned}
use polardb_uncompleted.Base.Run.{Run, ok, undefined, ◌>>=◌}
use polardb_uncompleted.Buffer.{member}

-- `INT64_MAX`, as the `KEY_T` that it is converted to
abbrev pub int64_max : ℕ
int64_max = 2 ^ 63 - 1

-- `minK` and the two iterators as positions in `curr_writing`, `none` for `end()`
pub record Scan : Type 0 where
  pub min_k : ℕ
  pub min_iter : Option ℕ
  pub erase : Option ℕ

abbrev pub start : Scan
start = record { min_k = int64_max; min_iter = none; erase = none }

module _ (source : Source) where
  open source use {Table, front, pop}

  -- The body of the for loop, at position `i`.
  unfoldable pub scan_step : ℕ → Table → Scan → Scan
  scan_step i t st = elim (front t) [
    | some tmp ↦
        if ltb tmp.key st.min_k then record st { min_k = tmp.key; min_iter = some i } else st
    | none ↦ record st { erase = some i }
  ]

  unfoldable pub scan : ℕ → List Table → Scan → Scan
  scan i [] st = st
  scan i (t ∷ ts) st = scan (suc i) ts (scan_step i t st)

  -- `(*min_iter)->pop_lvl_0()`
  unfoldable pub pop_at : ℕ → List Table → Option KeyIdxPair × List Table
  pop_at i [] = (none, [])
  pop_at zero (t ∷ ts) = let (r, t') = pop t in (r, t' ∷ ts)
  pop_at (suc i) (t ∷ ts) = let (r, ts') = pop_at i ts in (r, t ∷ ts')

  -- `curr_writing->erase(erase)`
  unfoldable pub erase_at : ℕ → List Table → List Table
  erase_at i [] = []
  erase_at zero (t ∷ ts) = ts
  erase_at (suc i) (t ∷ ts) = t ∷ erase_at i ts

-- An element of `kvs`: the record that the pointer leads to, which nobody changes after it is
-- popped, and the address of the list whose node holds it.
pub record Pointer : Type 0 where
  pub owner : ℕ
  pub item : KeyIdxPair

module _ (source : Source) where
  open source use {Table}

  -- The address of the list at position `i`; there is no record to pop where there is no list.
  unfoldable pub owner_at : ℕ → List (ℕ × Table) → ℕ
  owner_at i [] = 0
  owner_at zero (t ∷ ts) = t.0
  owner_at (suc i) (t ∷ ts) = owner_at i ts

  -- `delete del` and `curr_writing->erase(erase)`; `deleted` has the addresses of the lists that were
  -- deleted.
  unfoldable pub erase_if : Option ℕ → List (ℕ × Table) → List ℕ → List (ℕ × Table) × List ℕ
  unfolding erase_at owner_at
  erase_if none ts deleted = (ts, deleted)
  erase_if (some i) ts deleted = (erase_at (owned source) i ts, owner_at i ts ∷ deleted)

  -- `while(true)`, over lists at their addresses, with the pointers gathered in `kvs` and the lists
  -- that were deleted; `none` when the rounds run out or a null record is used.
  unfoldable pub dump_loop :
      ℕ → List (ℕ × Table) → List Pointer → List ℕ → Option (List Pointer × List ℕ)
  unfolding scan scan_step pop_at owner_at erase_if
  dump_loop zero ts kvs deleted = none
  dump_loop (suc rounds) ts kvs deleted =
      let st = scan (owned source) 0 ts start in
      elim st.min_iter [
        | none ↦ some (kvs, deleted)
        | some i ↦
            let (r, popped) = pop_at (owned source) i ts in
            elim r [
              | none ↦ none
              | some record_writing ↦
                  let (left, deleted') = erase_if st.erase popped deleted in
                  dump_loop rounds left
                    (kvs ++ record { owner = owner_at i ts; item = record_writing } ∷ []) deleted'
            ]
      ]

-- The records that the pointers lead to; a pointer into a deleted list dangles.
unfoldable pub dereference : List ℕ → List Pointer → Run (List KeyIdxPair)
dereference deleted [] = ok []
dereference deleted (p ∷ kvs) =
    let rest : Run (List KeyIdxPair) = dereference deleted kvs in
    if member p.owner deleted then undefined else (rest >>= λ records. ok (p.item ∷ records))
