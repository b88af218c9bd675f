-- ===== src/DbSystem/ReadDumped.antt =====
-- What `DBSystem::read` returns for a record that `dump_all` has written to a sorted file.
use polardb_uncompleted.Base.{
  ℕ, ◌^◌, ◌<◌, ◌≡◌, refl, ap, ◌∙◌, subst, inl, inr, true, false, some, List, arith, ltb, length,
  Bool-cases, ==_refl,
}
use polardb_uncompleted.Base.Run.{ok}
use polardb_uncompleted.Buffer.{Buffer, record_buff_size, wait_for_access, release_buff, end_access}
use polardb_uncompleted.Buffer.Record.{record_value_len, get_value}
use polardb_uncompleted.DbSystem.{read}
use polardb_uncompleted.DbSystem.Call.{at_once, at_once-some, steps_back}
use polardb_uncompleted.DbSystem.Dump.{Dumping, file_index, dump_record}
use polardb_uncompleted.DbSystem.Dumped.{released_slots, waited_slots}
use polardb_uncompleted.DbSystem.Recover.{
  slot_fields, slot_fields-IsSized, found_under, read-slot, in_bounds,
}
use polardb_uncompleted.DbSystem.Stored.{got_all}
use polardb_uncompleted.Disk.{append_dumping}
use polardb_uncompleted.Disk.Files.{FileSystem}
use polardb_uncompleted.Index.{get_idx, set_in_hash, new as no_index}
use polardb_uncompleted.Index.Fields.{Fields, IsSized, encode, getters-encode}
use polardb_uncompleted.Index.Setters.{
  set_fid-encode, set_idx-encode, set_in_file-encode, set_in_hash-encode,
}
use polardb_uncompleted.IndexHashMap.{KeyIdxPair}
use polardb_uncompleted.IndexHashMap.Refine.{update-Writes}
use polardb_uncompleted.IndexHashMap.View.{view, IsValid}
use polardb_uncompleted.Indexer
use polardb_uncompleted.Utils.{get_key}
use polardb_uncompleted.SkipList.{SkipList}

dumped_idx : (n i : ℕ) → n < 2 ^ 8 → i < 2 ^ 20 → get_idx (set_in_hash (file_index n i) true) ≡ i
unfolding file_index
dumped_idx n i small h =
    let z = slot_fields-IsSized 0 (omega arith) in
    let blank : no_index ≡ encode (slot_fields 0) = unfold encode in refl in
    let f1 : Fields = record (slot_fields 0) { fid = n } in
    let z1 : IsSized f1 = record { idx = omega arith; fid = small } in
    let f2 : Fields = record f1 { idx = i } in
    let z2 : IsSized f2 = record { idx = h; fid = small } in
    let f3 : Fields = record f2 { in_file = true } in
    let z3 : IsSized f3 = record { idx = h; fid = small } in
    rw
      (
        blank,
        (set_fid-encode (slot_fields 0) z n (omega arith)).0,
        set_idx-encode f1 z1 i h (omega arith),
        set_in_file-encode f2 z2 true,
        set_in_hash-encode f3 z3 true,
      )
      (getters-encode (record f3 { in_hash = true }) (record { idx = h; fid = small })).0

-- What the loop's body does to the slots and to the hash table.
dump_record-updated :
    (fs : FileSystem) (s s' : Dumping fs) (i : ℕ) (kv : KeyIdxPair)
    → dump_record fs s i kv ≡ ok (some s')
    → (s'.buffer.slots ≡ s.buffer.slots)
      × (cnt : ℕ) × (Indexer.update s.hash_table kv.key
            (file_index (length s.manifester.all_records) i)
          ≡ ok (s'.hash_table, cnt))
unfolding dump_record end_access
dump_record-updated fs s s' i kv h =
    let idx = get_idx kv.idx in
    let word = file_index (length s.manifester.all_records) i in
    elim (Bool-cases (ltb idx record_buff_size)) [
      | inr out ↦ let h' = rw out at h in absurd cc
      | inl slot ↦
          let h0 = rw slot at h in
          let ((place, accessed), w, h1) = steps_back (ok (wait_for_access s.buffer idx)) _ s' h0 in
          let (released, r, h2) = steps_back (at_once (release_buff accessed idx)) _ s' h1 in
          let ((hash_table, cnt), u, h3) =
            steps_back (at_once (Indexer.update s.hash_table kv.key word)) _ s' h2 in
          let same =
            released_slots accessed released idx
              (at_once-some (release_buff accessed idx) released r)
            ∙ (waited_slots s.buffer accessed idx place (cc w)).1 in
          let updated =
            at_once-some (Indexer.update s.hash_table kv.key word) (hash_table, cnt) u in
          let final : record s {
            buffer = end_access released idx;
            hash_table = hash_table;
            files = append_dumping fs s.files s.disk (accessed.slots place).value_ptr;
          }
              ≡ s' =
            cc h3 in
          subst
            (λ (t : Dumping fs).
              (t.buffer.slots ≡ s.buffer.slots)
              × (cnt : ℕ) × (Indexer.update s.hash_table kv.key word ≡ ok (t.hash_table, cnt)))
            final (same, cnt, updated)
    ]

-- Once the dumper has written a record as number `i` of a sorted file, `read` of its key returns
-- what slot `i` of the buffer holds, whichever slot the record was in: it does not look at the mark
-- that the record is in a file. The hash table was well formed, the file's number is below 256, `i`
-- is one of the slots and nobody accesses it, and the value in it has its 4096 bytes.
pub dump_record-read :
    (fs : FileSystem) (s s' : Dumping fs) (i : ℕ) (kv : KeyIdxPair) (tables : List SkipList)
    (text : List ℕ)
    → IsValid s.hash_table
    → length s.manifester.all_records < 2 ^ 8
    → i < record_buff_size
    → dump_record fs s i kv ≡ ok (some s')
    → get_key text ≡ ok kv.key
    → s'.buffer.accessing i ≡ false
    → length (s.buffer.slots i).value_ptr ≡ record_value_len
    → (b : Buffer) × (read
          (record { buffer = s'.buffer; hash_table = s'.hash_table; mem_tables = tables })
          text
        ≡ ok (
            some (
              (s.buffer.slots i).value_ptr,
              record { buffer = b; hash_table = s'.hash_table; mem_tables = tables },
            )))
unfolding Indexer.update Indexer.get
dump_record-read fs s s' i kv tables text valid small slot h known idle len =
    let n = length s.manifester.all_records in
    let (slots, cnt, updated) = dump_record-updated fs s s' i kv h in
    let word = set_in_hash (file_index n i) true in
    let writes =
      update-Writes s.hash_table kv.key (file_index n i) valid s'.hash_table cnt updated in
    let stored : view s'.hash_table kv.key ≡ some word =
      writes.1 kv.key ∙ rw (==_refl kv.key) refl in
    let (e, at, is_word) = found_under s'.hash_table kv.key word stored in
    let place : get_idx (s'.hash_table e).idx ≡ i =
      ap get_idx is_word ∙ dumped_idx n i small (omega arith) in
    let value = (s.buffer.slots i).value_ptr in
    let full : get_value (s'.buffer.slots i) ≡ ok value =
      got_all (s'.buffer.slots i) value (rw slots refl) len in
    read-slot (record { buffer = s'.buffer; hash_table = s'.hash_table; mem_tables = tables }) text
      kv.key e i value known at place (in_bounds i slot) idle full
