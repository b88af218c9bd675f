-- ===== src/DbSystem/Recover.antt =====
-- A record that is recovered into the buffer is read back under its key.
use polardb_uncompleted.Base.{
  ℕ, zero, suc, ◌^◌, ◌<◌, ◌≡◌, refl, ap, ◌∙◌, inl, inr, true, false, some, List, [], ◌∷◌, arith,
  ltb, length, write, get_elem?, set, Bool-cases, Option-cases, ==_refl,
}
use polardb_uncompleted.Base.Run.{ok, Run-cases}
use polardb_uncompleted.Buffer.{Buffer, record_buff_size, wait_for_access, end_access}
use polardb_uncompleted.Buffer.Record.{record_value_len, memcpy, get_value}
use polardb_uncompleted.DbSystem.{DbSystem, index_to_buffer, write_recover, read, read_at}
use polardb_uncompleted.Index.{Index, get_idx, set_in_hash, new as no_index}
use polardb_uncompleted.Index.Fields.{Fields, IsSized, encode, getters-encode}
use polardb_uncompleted.Index.Setters.{
  set_fid-encode, set_idx-encode, set_in_file-encode, set_in_hash-encode,
}
use polardb_uncompleted.IndexHashMap.{IndexHashMap, get}
use polardb_uncompleted.IndexHashMap.View.{view, IsValid}
use polardb_uncompleted.IndexHashMap.Refine.{update-Writes}
use polardb_uncompleted.Indexer
use polardb_uncompleted.Indexer.Writing.{view-some, view-none}
use polardb_uncompleted.MemTables.Current.{get_memtable}
use polardb_uncompleted.SkipList.{SkipList, un_lock}
use polardb_uncompleted.SkipList as Tables
use polardb_uncompleted.Utils.{get_key}

abbrev pub slot_fields : ℕ → Fields
slot_fields n = record {
  idx = n;
  reserved = false;
  writing = false;
  in_hash = false;
  in_file = false;
  fid = 0;
}

pub slot_fields-IsSized : (n : ℕ) → n < 2 ^ 20 → IsSized (slot_fields n)
slot_fields-IsSized n h = record { idx = h; fid = omega arith }

-- The word of a slot is that slot number and no flag.
index_to_buffer-encode : (n : ℕ) → n < 2 ^ 20 → index_to_buffer n ≡ encode (slot_fields n)
unfolding index_to_buffer
index_to_buffer-encode n h =
    let z = slot_fields-IsSized 0 (omega arith) in
    let blank : no_index ≡ encode (slot_fields 0) = unfold encode in refl in
    rw
      (
        blank,
        (set_fid-encode (slot_fields 0) z 0 (omega arith)).0,
        set_idx-encode (slot_fields 0) z n h (omega arith),
      )
      (set_in_file-encode (slot_fields n) (slot_fields-IsSized n h) false)

pub stored_idx : (n : ℕ) → n < 2 ^ 20 → get_idx (set_in_hash (index_to_buffer n) true) ≡ n
stored_idx n h =
    rw
      (
        index_to_buffer-encode n h,
        set_in_hash-encode (slot_fields n) (slot_fields-IsSized n h) true,
      )
      (getters-encode (record (slot_fields n) { in_hash = true })
        (record { idx = h; fid = omega arith })).0

pub memcpy-all : (xs : List ℕ) (n : ℕ) → length xs ≡ n → memcpy n xs ≡ ok xs
unfolding memcpy
memcpy-all [] zero h = refl
memcpy-all [] (suc n) h = absurd (omega arith)
memcpy-all (x ∷ xs) zero h = absurd (omega arith)
memcpy-all (x ∷ xs) (suc n) h = rw (memcpy-all xs n (omega arith)) refl

pub found_under :
    (m : IndexHashMap) (key : ℕ) (i : Index)
    → view m key ≡ some i
    → (e : ℕ) × (get m key ≡ some e) × ((m e).idx ≡ i)
found_under m key i h = elim (Option-cases (get m key)) [
  | inl gone ↦ absurd cc (h, view-none m key gone)
  | inr (e, g) ↦ (e, g, cc (h, view-some m key e g))
]

-- What a `write_recover` that returns has done outside the skip lists.
record Recovers (s : DbSystem) (place : ℕ) (s' : DbSystem) : Type 0 where
  pub slot : place < record_buff_size
  pub cnt : ℕ
  pub updated :
      Indexer.update s.hash_table (s.buffer.slots place).key (index_to_buffer place)
      ≡ ok (s'.hash_table, cnt)
  pub same_buffer : s'.buffer ≡ s.buffer

module _ (tries height : ℕ) (s : DbSystem) (place : ℕ) where
  abbrev key : ℕ
  key = (s.buffer.slots place).key

  abbrev index : Index
  index = index_to_buffer place

  write_recover-Recovers :
      (s' : DbSystem) → write_recover tries height s place ≡ ok (some s') → Recovers s place s'
  unfolding write_recover
  write_recover-Recovers s' h = elim (Bool-cases (ltb place record_buff_size)) [
    | inr out ↦ let h' = rw (out, write_recover) at h in absurd cc
    | inl slot ↦ elim (Option-cases (get_memtable tries s.mem_tables)) [
      | inl spins ↦ let h' = rw (slot, spins, write_recover) at h in absurd cc
      | inr ((iter, tables), got) ↦ elim (Option-cases (get_elem? tables iter)) [
        | inl off ↦ let h' = rw (slot, got, off, write_recover) at h in absurd cc
        | inr (table, on) ↦ elim (Run-cases (Tables.update table key index height)) [
          | inr (inl bad) ↦ let h' = rw (slot, got, on, bad, write_recover) at h in absurd cc
          | inr (inr bad) ↦ let h' = rw (slot, got, on, bad, write_recover) at h in absurd cc
          | inl ((written, at), kept) ↦ elim (Run-cases (Indexer.update s.hash_table key index)) [
            | inr (inl bad) ↦
                let h' = rw (slot, got, on, kept, bad, write_recover) at h in absurd cc
            | inr (inr bad) ↦
                let h' = rw (slot, got, on, kept, bad, write_recover) at h in absurd cc
            | inl ((table', cnt), done) ↦
                let h' = rw (slot, got, on, kept, done, write_recover) at h in
                let after : DbSystem = record s {
                  hash_table = table';
                  mem_tables = set tables iter (un_lock written);
                } in
                let e : after ≡ s' = cc in
                rw (← e)
                  (record { slot = ground arith; cnt = cnt; updated = done; same_buffer = refl })
          ]
        ]
      ]
    ]
  ]

-- A key that is present is read from its slot, when nobody accesses the slot.
pub read-slot :
    (s : DbSystem) (text : List ℕ) (k e i : ℕ) (value : List ℕ)
    → get_key text ≡ ok k
    → Indexer.get s.hash_table k ≡ some e
    → get_idx (s.hash_table e).idx ≡ i
    → ltb i record_buff_size ≡ true
    → s.buffer.accessing i ≡ false
    → get_value (s.buffer.slots i) ≡ ok value
    → (b : Buffer) × (read s text ≡ ok (some (value, record s { buffer = b })))
unfolding wait_for_access read
read-slot s text k e i value same_key at slot in_range idle full =
    let accessed : Buffer = record s.buffer { accessing = write s.buffer.accessing i true } in
    let waits : wait_for_access s.buffer i ≡ some (i, accessed) = rw (idle, wait_for_access) refl in
    let after : read_at s k ≡ ok (some (value, record s { buffer = end_access accessed i })) =
      rw (read_at, at, slot, in_range, waits, full) (rw slot refl) in
    (end_access accessed i, rw (read, same_key) after)

pub in_bounds : (n : ℕ) → n < record_buff_size → ltb n record_buff_size ≡ true
in_bounds n h = ground arith

module _ (s s' : DbSystem) (place : ℕ) (text : List ℕ) where
  abbrev record_value : List ℕ
  record_value = (s.buffer.slots place).value_ptr

  recovered-read :
      IsValid s.hash_table
      → Recovers s place s'
      → get_key text ≡ ok (s.buffer.slots place).key
      → s.buffer.accessing place ≡ false
      → length record_value ≡ record_value_len
      → (b : Buffer) × (read s' text ≡ ok (some (record_value, record s' { buffer = b })))
  unfolding get_value Indexer.update Indexer.get
  recovered-read valid r same_key idle full =
      let word = set_in_hash (index_to_buffer place) true in
      let writes =
        update-Writes s.hash_table (s.buffer.slots place).key (index_to_buffer place) valid
          s'.hash_table r.cnt r.updated in
      let stored : view s'.hash_table (s.buffer.slots place).key ≡ some word =
        writes.1 (s.buffer.slots place).key ∙ rw (==_refl (s.buffer.slots place).key) refl in
      let (e, at, is_word) = found_under s'.hash_table (s.buffer.slots place).key word stored in
      let slot : get_idx (s'.hash_table e).idx ≡ place =
        ap get_idx is_word ∙ stored_idx place (omega (arith, r.slot)) in
      let i : ℕ = get_idx (s'.hash_table e).idx in
      let idle' : s'.buffer.accessing place ≡ false = rw r.same_buffer idle in
      let value : get_value (s'.buffer.slots place) ≡ ok record_value =
        rw r.same_buffer (memcpy-all record_value record_value_len full) in
      read-slot s' text (s.buffer.slots place).key e place record_value same_key at slot
        (in_bounds place r.slot) idle' value

-- Once `write_recover` of a slot has returned, `read` of a string with that record's key returns the
-- value in that slot, if the hash table was well formed, nobody accesses the slot, and the value
-- has its 4096 bytes.
pub write_recover-read :
    (tries height : ℕ) (s s' : DbSystem) (place : ℕ) (text : List ℕ)
    → IsValid s.hash_table
    → write_recover tries height s place ≡ ok (some s')
    → get_key text ≡ ok (s.buffer.slots place).key
    → s.buffer.accessing place ≡ false
    → length (s.buffer.slots place).value_ptr ≡ record_value_len
    → (b : Buffer) × (read s' text
        ≡ ok (some ((s.buffer.slots place).value_ptr, record s' { buffer = b })))
write_recover-read tries height s s' place text valid h =
    recovered-read s s' place text valid (write_recover-Recovers tries height s place s' h)
