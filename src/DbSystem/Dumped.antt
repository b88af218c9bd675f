-- ===== src/DbSystem/Dumped.antt =====
-- What `dump_all` leaves behind.
use polardb_uncompleted.Base.{
  ℕ, zero, suc, ◌+◌, ◌/◌, ◌%◌, ◌≤◌, ◌<◌, ◌≡◌, ◌≢◌, refl, ap, ◌∙◌, sym, subst, inl, inr, true, some,
  List, [], ◌∷◌, ◌++◌, ◌==◌, arith, ltb, length, write, Bool-cases, if◌then◌else◌,
}
use mathlib.Core.List.{append_assoc, append-nil, append_cancel_left}
use polardb_uncompleted.Base.Run.{ok}
use polardb_uncompleted.Buffer.{Buffer, record_buff_size, wait_for_access, release_buff, end_access}
use polardb_uncompleted.DbSystem.Call.{at_once, at_once-some, steps_back}
use polardb_uncompleted.DbSystem.Dump.{Dumping, file_index, dump_record, dump_records}
use polardb_uncompleted.Disk.{DiskManager, append_dumping}
use polardb_uncompleted.Disk.Files.{FileSystem, FilePath}
use polardb_uncompleted.Disk.Paths.{path_in, path_join-in, same_path_self}
use polardb_uncompleted.Index.{get_idx}
use polardb_uncompleted.IndexHashMap.{IndexHashMap, KeyIdxPair}
use polardb_uncompleted.Indexer
use polardb_uncompleted.Utils.{last_byte, path_join}
use polardb_uncompleted.Manifest.{decimal, sst_name}

-- The values of the slots that the items name, one behind the other.
unfoldable pub slot_values : Buffer → List KeyIdxPair → List ℕ
slot_values b [] = []
slot_values b (kv ∷ kvs) = (b.slots (get_idx kv.idx)).value_ptr ++ slot_values b kvs

slot_values-same :
    (b c : Buffer) (kvs : List KeyIdxPair)
    → c.slots ≡ b.slots
    → slot_values c kvs ≡ slot_values b kvs
unfolding slot_values
slot_values-same b c [] e = refl
slot_values-same b c (kv ∷ kvs) e = rw (e, slot_values-same b c kvs e) refl

pub released_slots : (b c : Buffer) (id : ℕ) → release_buff b id ≡ ok c → c.slots ≡ b.slots
unfolding release_buff
released_slots b c id h = ground arith

-- What the loop does beside the hash table, when the sorted file is open and has some bytes.
pub record Appends (fs : FileSystem) (s : Dumping fs) (p : FilePath) (old more : List ℕ)
    (s' : Dumping fs) : Type 0 where
  pub bytes : fs.content s'.files p ≡ some (old ++ more)
  pub disk : s'.disk ≡ s.disk
  pub manifester : s'.manifester ≡ s.manifester
  pub slots : s'.buffer.slots ≡ s.buffer.slots

pub waited_slots :
    (b c : Buffer) (id place : ℕ)
    → wait_for_access b id ≡ some (place, c)
    → (place ≡ id) × (c.slots ≡ b.slots)
unfolding wait_for_access
waited_slots b c id place h = elim (Bool-cases (b.accessing id)) [
  | inl busy ↦ let h' = rw busy at h in absurd cc
  | inr idle ↦
      let h' = rw idle at h in
      let e : record b { accessing = write b.accessing id true } ≡ c = cc in (cc, rw (← e) refl)
]

dumped :
    (fs : FileSystem) (s : Dumping fs) (p : FilePath) (old : List ℕ) (id place : ℕ)
    (accessed released : Buffer) (hash_table : IndexHashMap)
    → s.disk.dumping_sstable_file_fd ≡ some p
    → fs.content s.files p ≡ some old
    → wait_for_access s.buffer id ≡ some (place, accessed)
    → release_buff accessed id ≡ ok released
    → Appends fs s p old (s.buffer.slots id).value_ptr (record s {
      buffer = end_access released id;
      hash_table = hash_table;
      files = append_dumping fs s.files s.disk (accessed.slots place).value_ptr;
    })
unfolding append_dumping end_access
dumped fs s p old id place accessed released hash_table fd holds w r =
    let (at, same) = waited_slots s.buffer accessed id place w in
    let value = (accessed.slots place).value_ptr in
    record {
      bytes =
          rw fd (fs.content-append s.files p value p ∙ rw (same_path_self p, holds, same, at) refl);
      disk = refl;
      manifester = refl;
      slots = released_slots accessed released id r ∙ same;
    }

dump_record-Appends :
    (fs : FileSystem) (s s' : Dumping fs) (i : ℕ) (kv : KeyIdxPair) (p : FilePath) (old : List ℕ)
    → s.disk.dumping_sstable_file_fd ≡ some p
    → fs.content s.files p ≡ some old
    → dump_record fs s i kv ≡ ok (some s')
    → Appends fs s p old (s.buffer.slots (get_idx kv.idx)).value_ptr s'
unfolding dump_record
dump_record-Appends fs s s' i kv p old fd holds h =
    let idx = get_idx kv.idx in
    elim (Bool-cases (ltb idx record_buff_size)) [
      | inr out ↦ let h' = rw out at h in absurd cc
      | inl slot ↦
          let h0 = rw slot at h in
          let ((place, accessed), w, h1) = steps_back (ok (wait_for_access s.buffer idx)) _ s' h0 in
          let (released, r, h2) = steps_back (at_once (release_buff accessed idx)) _ s' h1 in
          let ((hash_table, cnt), u, h3) =
            steps_back
              (at_once (
                Indexer.update s.hash_table kv.key
                  (file_index (length s.manifester.all_records) i)))
              _ s' h2 in
          let done =
            dumped fs s p old idx place accessed released hash_table fd holds (cc w)
              (at_once-some (release_buff accessed idx) released r) in
          subst (Appends fs s p old (s.buffer.slots idx).value_ptr) (cc h3) done
    ]

pub dump_records-Appends :
    (fs : FileSystem) (s s' : Dumping fs) (i : ℕ) (kvs : List KeyIdxPair) (p : FilePath)
    (old : List ℕ)
    → s.disk.dumping_sstable_file_fd ≡ some p
    → fs.content s.files p ≡ some old
    → dump_records fs s i kvs ≡ ok (some s')
    → Appends fs s p old (slot_values s.buffer kvs) s'
unfolding dump_records slot_values
dump_records-Appends fs s s' i [] p old fd holds h =
    let e : s ≡ s' = cc in
    subst (Appends fs s p old []) e (record {
      bytes = holds ∙ ap some (sym (append-nil old));
      disk = refl;
      manifester = refl;
      slots = refl;
    })
dump_records-Appends fs s s' i (kv ∷ kvs) p old fd holds h =
    let (s1, one, more) = steps_back (dump_record fs s i kv) _ s' h in
    let a = dump_record-Appends fs s s1 i kv p old fd holds one in
    let value = (s.buffer.slots (get_idx kv.idx)).value_ptr in
    let fd1 : s1.disk.dumping_sstable_file_fd ≡ some p =
      ap (λ (d : DiskManager). d.dumping_sstable_file_fd) a.disk ∙ fd in
    let b = dump_records-Appends fs s1 s' (suc i) kvs p (old ++ value) fd1 a.bytes more in
    record {
      bytes =
          b.bytes
          ∙ ap some (
              append_assoc old value (slot_values s1.buffer kvs)
              ∙ ap (λ (v : List ℕ). old ++ (value ++ v))
                  (slot_values-same s.buffer s1.buffer kvs a.slots));
      disk = b.disk ∙ a.disk;
      manifester = b.manifester ∙ a.manifester;
      slots = b.slots ∙ a.slots;
    }

-- The name of a sorted file starts with a character below ':'.
decimal-first :
    (digits n c : ℕ) (s : List ℕ)
    → c < 58
    → (x : ℕ) × (t : List ℕ) × (decimal digits n (c ∷ s) ≡ x ∷ t) × (x < 58)
unfolding decimal
decimal-first zero n c s h = (c, s, refl, h)
decimal-first (suc digits) n c s h = elim (Bool-cases (ltb n 10)) [
  | inl small ↦ (b'0' + n, c ∷ s, rw small refl, ground arith)
  | inr large ↦
      let (x, t, e, l) = decimal-first digits (n / 10) (b'0' + n % 10) (c ∷ s) (omega arith) in
      (x, t, rw large e, l)
]

pub sst_differs : (n : ℕ) (c : ℕ) (name : List ℕ) → 58 ≤ c → sst_name n ≢ c ∷ name
unfolding sst_name
sst_differs n c name h e =
    let (x, t, first, l) = decimal-first 20 n b'.' (b's' ∷ b's' ∷ b't' ∷ []) (omega arith) in
    let same : x ∷ t ≡ c ∷ name = sym first ∙ e in let at : x ≡ c = cc in absurd (omega arith)

pub path_in-differs :
    (base : FilePath) (b : ℕ) (p q : List ℕ) → p ≢ q → path_in base b p ≢ path_in base b q
path_in-differs base b p q ne e =
    let sep : List ℕ = if b == b'/' then [] else b'/' ∷ [] in
    ne (append_cancel_left sep p q (append_cancel_left base (sep ++ p) (sep ++ q) e))

last_byte-decimal :
    (digits n c z : ℕ) (s : List ℕ)
    → last_byte (c ∷ s) ≡ ok z
    → last_byte (decimal digits n (c ∷ s)) ≡ ok z
unfolding decimal last_byte
last_byte-decimal zero n c z s h = h
last_byte-decimal (suc digits) n c z s h = elim (Bool-cases (ltb n 10)) [
  | inl small ↦ rw small h
  | inr large ↦ rw large (last_byte-decimal digits (n / 10) (b'0' + n % 10) z (c ∷ s) h)
]

pub sst_path :
    (base : FilePath) (b n : ℕ)
    → last_byte base ≡ ok b
    → path_join (base ∷ sst_name n ∷ []) ≡ ok (path_in base b (sst_name n))
unfolding sst_name last_byte
sst_path base b n h =
    path_join-in base b b't' (sst_name n) h
      (last_byte-decimal 20 n b'.' b't' (b's' ∷ b's' ∷ b't' ∷ []) refl)
