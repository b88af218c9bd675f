-- ===== src/DbSystem/Fetch/Step.antt =====
-- A round of the recovery loop: the record goes to its slot, the hash table and the first list.
use polardb_uncompleted.Base.{
  ℕ, suc, ◌≤◌, ◌<◌, ◌≡◌, refl, ◌∙◌, true, false, some, List, ◌∷◌, ◌==◌, if◌then◌else◌,
}
use polardb_uncompleted.Base.Run.{ok}
use polardb_uncompleted.Buffer.{record_buff_size}
use polardb_uncompleted.DbSystem.{DbSystem, index_to_buffer, write_recover}
use polardb_uncompleted.DbSystem.Recover.{in_bounds}
use polardb_uncompleted.Index.{set_in_hash}
use polardb_uncompleted.IndexHashMap.{IndexHashMap}
use polardb_uncompleted.IndexHashMap.Refine.{update-Writes}
use polardb_uncompleted.IndexHashMap.Room.{Holds, update-Holds}
use polardb_uncompleted.IndexHashMap.View.{view, IsValid as IsTable}
use polardb_uncompleted.Indexer
use polardb_uncompleted.MemTables.Current.{get_memtable, spin}
use polardb_uncompleted.SkipList.{SkipList, skip_list_max_height, try_lock, un_lock}
use polardb_uncompleted.SkipList.Flags.{update-dumping}
use polardb_uncompleted.SkipList.Map.{update-Writes_map}
use polardb_uncompleted.SkipList.Walk.{IsValid as IsList}

-- The first list is well formed, and takes a lock.
pub record FirstOpen (tables : List SkipList) : Type 0 where
  pub first : SkipList
  pub others : List SkipList
  pub is : tables ≡ first ∷ others
  pub locked : first.locked ≡ false
  pub dumping : first.dumping ≡ false
  pub lists : ℕ → List ℕ
  pub valid : IsList first lists

-- The hash table is well formed, with at most `n` entries.
pub record IsRoomy (m : IndexHashMap) (n : ℕ) : Type 0 where
  pub valid : IsTable m
  pub room : Holds m n

get_first :
    (tries : ℕ) (t : SkipList) (ts : List SkipList)
    → t.locked ≡ false
    → t.dumping ≡ false
    → get_memtable (suc tries) (t ∷ ts) ≡ some (0, record t { locked = true } ∷ ts)
unfolding get_memtable spin try_lock
get_first tries t ts free on = rw (free, on) refl

module _ (tries height : ℕ) (s : DbSystem) (idx n : ℕ) where
  abbrev key : ℕ
  key = (s.buffer.slots idx).key

  -- What `write_recover` does.
  pub record Places (s' : DbSystem) : Type 0 where
    pub buffer : s'.buffer ≡ s.buffer
    pub table : IsRoomy s'.hash_table (suc n)
    pub view :
        (q : ℕ)
        → view s'.hash_table q ≡ (
            if q == key then some (set_in_hash (index_to_buffer idx) true) else view s.hash_table q)
    pub opens : FirstOpen s'.mem_tables

  pub write_recover-Places :
      IsRoomy s.hash_table n
      → FirstOpen s.mem_tables
      → idx < record_buff_size
      → n ≤ 1024
      → 1 ≤ height
      → height ≤ skip_list_max_height
      → (s' : DbSystem) × (write_recover (suc tries) height s idx ≡ ok (some s')) × Places s'
  unfolding write_recover Indexer.update un_lock
  write_recover-Places h o small few low high =
      let index = index_to_buffer idx in
      let locked : SkipList = record (o.first) { locked = true } in
      let ready : IsList locked o.lists = record { levels = o.valid.levels; down = o.valid.down } in
      let (t', xs', place, wrote, valid', found, id, seen) =
        update-Writes_map locked o.lists key index height ready low high in
      let (m', cnt, updated, holds') = update-Holds s.hash_table key index n h.room few in
      let writes = update-Writes s.hash_table key index h.valid m' cnt updated in
      let got : get_memtable (suc tries) s.mem_tables ≡ some (0, locked ∷ o.others) =
        rw (o.is) (get_first tries o.first o.others o.locked o.dumping) in
      (
        record s { hash_table = m'; mem_tables = un_lock t' ∷ o.others },
        rw (write_recover, in_bounds idx small, got) (rw (wrote, updated) refl),
        record {
          buffer = refl;
          table = record { valid = writes.0; room = holds' };
          view = writes.1;
          opens = record {
            first = un_lock t';
            others = o.others;
            is = refl;
            locked = refl;
            dumping = update-dumping locked key index height t' place wrote ∙ o.dumping;
            lists = xs';
            valid = record { levels = valid'.levels; down = valid'.down };
          };
        },
      )
