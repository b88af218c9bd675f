-- ===== src/DbSystem/Stored.antt =====
-- What `DBSystem::write` stores is what `DBSystem::read` returns.
use polardb_uncompleted.Base.{
  ℕ, ◌^◌, ◌<◌, ◌≡◌, refl, ap, ◌∙◌, sym, subst, inl, inr, true, false, none, some, List, arith, leb,
  length, write, Bool-cases, ==_refl, if◌then◌else◌,
}
use polardb_uncompleted.Base.Run.{ok}
use polardb_uncompleted.Buffer.{Buffer, record_buff_size, wait_for_access, end_access}
use polardb_uncompleted.Buffer.Record.{
  Record, record_value_len, set_value, get_value, make_check, new as new_record,
}
use polardb_uncompleted.Buffer.Slots.{request-Moves, IsValid as Partitioned}
use polardb_uncompleted.DbSystem.{read}
use polardb_uncompleted.DbSystem.Call.{◌>>+◌, at_once, at_once-some, steps_back}
use polardb_uncompleted.DbSystem.Recover.{
  slot_fields, slot_fields-IsSized, memcpy-all, found_under, read-slot, in_bounds,
}
use polardb_uncompleted.DbSystem.Write.{
  System, slot_index, place_record, insert_memtable, submit_dump, dump_if_full, db_write,
}
use polardb_uncompleted.Disk.{write_to_log, switch_log}
use polardb_uncompleted.Disk.Files.{FileSystem}
use polardb_uncompleted.Disk.Image.{image}
use polardb_uncompleted.Index.{get_idx, set_in_hash, new as no_index}
use polardb_uncompleted.Index.Fields.{encode, getters-encode}
use polardb_uncompleted.Index.Setters.{set_fid-encode, set_idx-encode, set_in_hash-encode}
use polardb_uncompleted.IndexHashMap.{IndexHashMap}
use polardb_uncompleted.IndexHashMap.Refine.{update-Writes}
use polardb_uncompleted.IndexHashMap.View.{view, IsValid}
use polardb_uncompleted.Indexer
use polardb_uncompleted.MemTables.Current.{get_total_items}
use polardb_uncompleted.Utils.{get_key}

-- The word of a slot is that slot number and no flag.
slot_index-encode : (n : ℕ) → n < 2 ^ 20 → slot_index n ≡ encode (slot_fields n)
unfolding slot_index
slot_index-encode n h =
    let z = slot_fields-IsSized 0 (omega arith) in
    let blank : no_index ≡ encode (slot_fields 0) = unfold encode in refl in
    rw (blank, (set_fid-encode (slot_fields 0) z 0 (omega arith)).0)
      (set_idx-encode (slot_fields 0) z n h (omega arith))

stored_idx : (n : ℕ) → n < 2 ^ 20 → get_idx (set_in_hash (slot_index n) true) ≡ n
stored_idx n h =
    rw (slot_index-encode n h, set_in_hash-encode (slot_fields n) (slot_fields-IsSized n h) true)
      (getters-encode (record (slot_fields n) { in_hash = true })
        (record { idx = h; fid = omega arith })).0

set_value-all :
    (r filled : Record) (value : List ℕ)
    → length value ≡ record_value_len
    → set_value r value ≡ ok filled
    → (filled.value_ptr ≡ value) × (filled.key ≡ r.key)
unfolding set_value
set_value-all r filled value len h =
    let h' = rw (set_value, memcpy-all value record_value_len len) at h in
    let e : record r { value_ptr = value } ≡ filled = cc in rw (← e) (refl, refl)

pub got_all :
    (r : Record) (value : List ℕ)
    → r.value_ptr ≡ value
    → length value ≡ record_value_len
    → get_value r ≡ ok value
unfolding get_value
got_all r value e len = rw e (memcpy-all value record_value_len len)

-- The slot that a record is copied into: it is one of the slots, it holds the record, and nobody
-- accesses it.
record Placed (gather : Record) (idx : ℕ) (buffer : Buffer) : Type 0 where
  pub slot : idx < record_buff_size
  pub held : buffer.slots idx ≡ gather
  pub idle : buffer.accessing idx ≡ false
  pub valid : Partitioned buffer

placed :
    (b : Buffer) (r : ℕ) (gather : Record)
    → r < record_buff_size
    → Partitioned b
    → Placed gather r (
        end_access
          (record b { accessing = write b.accessing r true; slots = write b.slots r gather })
          r)
unfolding end_access write
placed b r gather small valid = record {
  slot = small;
  held = rw (==_refl r) refl;
  idle = rw (==_refl r) refl;
  valid = record { partition = valid.partition; mapped = valid.mapped };
}

place_record-Placed :
    (b : Buffer) (gather : Record) (idx : ℕ) (buffer : Buffer)
    → Partitioned b
    → place_record b gather ≡ ok (some (idx, buffer))
    → Placed gather idx buffer
unfolding place_record wait_for_access ◌>>+◌
place_record-Placed b gather idx buffer valid h = elim (request-Moves b valid) [
  | inl (full, stuck) ↦ let h' = rw stuck at h in absurd cc
  | inr (r, b', got, small, fresh, wrote, valid') ↦
      let h1 = rw got at h in
      elim (Bool-cases (b'.accessing r)) [
        | inl busy ↦ let h2 = rw (wait_for_access, busy) at h1 in absurd cc
        | inr idle ↦
            let h2 = rw (wait_for_access, idle) at h1 in
            let b2 : Buffer = record b' { accessing = write b'.accessing r true } in
            let b3 : Buffer = end_access (record b2 { slots = write b2.slots r gather }) r in
            let same : (r ≡ idx) × (b3 ≡ buffer) = unfold end_access in (cc, cc) in
            rw (← same.0, ← same.1) (placed b' r gather small valid')
      ]
]

-- The end of a write leaves the buffer and the hash table as they are.
dump_if_full-same :
    (fs : FileSystem) (s s' : System fs)
    → dump_if_full fs s ≡ ok (some s')
    → (s'.db.buffer ≡ s.db.buffer) × (s'.db.hash_table ≡ s.db.hash_table)
unfolding dump_if_full
dump_if_full-same fs s s' h =
    elim (Bool-cases (leb record_buff_size (get_total_items s.db.mem_tables))) [
      | inr room ↦ let h' = rw room at h in let e : s ≡ s' = cc in rw (← e) (refl, refl)
      | inl full ↦
          let h' = rw full at h in
          let ((through, files, disk), switched, rest) =
            steps_back (at_once (switch_log fs s.files s.disk)) _ s' h' in
          let (queue, pushed, last) =
            steps_back (ok (if through then (submit_dump s.db.mem_tables s.dump_queue).1 else none))
              _ s' rest in
          let e : record s'.db {
            mem_tables = (submit_dump s.db.mem_tables s.dump_queue).0;
            buffer = s.db.buffer;
            hash_table = s.db.hash_table;
          }
              ≡ s'.db =
            cc in
          rw (← e) (refl, refl)
    ]

-- What a write that returns has done to the buffer and the hash table.
record Writes (fs : FileSystem) (s s' : System fs) (key value : List ℕ) : Type 0 where
  pub key_t : ℕ
  pub known : get_key key ≡ ok key_t
  pub gather : Record
  pub filled : gather.value_ptr ≡ value
  pub idx : ℕ
  pub at : Placed gather idx s'.db.buffer
  pub cnt : ℕ
  pub updated : Indexer.update s.db.hash_table key_t (slot_index idx) ≡ ok (s'.db.hash_table, cnt)

db_write-Writes :
    (fs : FileSystem) (tries height : ℕ) (s s' : System fs) (key value : List ℕ)
    → Partitioned s.db.buffer
    → length value ≡ record_value_len
    → db_write fs tries height s key value ≡ ok (some s')
    → Writes fs s s' key value
unfolding db_write
db_write-Writes fs tries height s s' key value valid len h =
    let (key_t, k, h1) = steps_back (at_once (get_key key)) _ s' h in
    let start : Record = record new_record { key = key_t } in
    let (filled, v, h2) = steps_back (at_once (set_value start value)) _ s' h1 in
    let gather : Record = make_check filled in
    let ((full, files, disk), l, h3) =
      steps_back (at_once (write_to_log fs s.files s.disk (image gather))) _ s' h2 in
    let ((idx, buffer), p, h4) = steps_back (place_record s.db.buffer gather) _ s' h3 in
    let ((hash_table, cnt), u, h5) =
      steps_back (at_once (Indexer.update s.db.hash_table key_t (slot_index idx))) _ s' h4 in
    let (mem_tables, m, h6) =
      steps_back (insert_memtable tries height s.db.mem_tables key_t (slot_index idx)) _ s' h5 in
    let same = dump_if_full-same fs _ s' h6 in
    let at = place_record-Placed s.db.buffer (make_check filled) idx buffer valid p in
    let all =
      set_value-all (record new_record { key = key_t }) filled value len
        (at_once-some _ filled v) in
    record {
      key_t = key_t;
      known = at_once-some _ key_t k;
      gather = make_check filled;
      filled = unfold make_check in all.0;
      idx = idx;
      at = subst (λ (b : Buffer). Placed gather idx b) (sym same.0) at;
      cnt = cnt;
      updated =
          at_once-some _ (hash_table, cnt) u ∙ ap (λ (t : IndexHashMap). ok (t, cnt)) (sym same.1);
    }

-- When `write` has returned, `read` of the same string returns the value that was written, and the
-- hash table and the lists of slots are still well formed. They were so before, and the value has
-- its 4096 bytes.
pub db_write-read :
    (fs : FileSystem) (tries height : ℕ) (s s' : System fs) (key value : List ℕ)
    → IsValid s.db.hash_table
    → Partitioned s.db.buffer
    → length value ≡ record_value_len
    → db_write fs tries height s key value ≡ ok (some s')
    → IsValid s'.db.hash_table
      × Partitioned s'.db.buffer
      × ((b : Buffer) × (read s'.db key ≡ ok (some (value, record s'.db { buffer = b }))))
unfolding Indexer.update Indexer.get
db_write-read fs tries height s s' key value valid slots len h =
    let w = db_write-Writes fs tries height s s' key value slots len h in
    let word = set_in_hash (slot_index w.idx) true in
    let writes =
      update-Writes s.db.hash_table w.key_t (slot_index w.idx) valid s'.db.hash_table w.cnt
        w.updated in
    let stored : view s'.db.hash_table w.key_t ≡ some word =
      writes.1 w.key_t ∙ rw (==_refl w.key_t) refl in
    let (e, at, is_word) = found_under s'.db.hash_table w.key_t word stored in
    let slot : get_idx (s'.db.hash_table e).idx ≡ w.idx =
      ap get_idx is_word ∙ stored_idx w.idx (omega (arith, w.at.slot)) in
    let full : get_value (s'.db.buffer.slots w.idx) ≡ ok value =
      ap get_value w.at.held ∙ got_all w.gather value w.filled len in
    (
      writes.0,
      w.at.valid,
      read-slot s'.db key w.key_t e w.idx value w.known at slot (in_bounds w.idx w.at.slot)
          w.at.idle full,
    )
