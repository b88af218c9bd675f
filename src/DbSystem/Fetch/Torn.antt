-- ===== src/DbSystem/Fetch/Torn.antt =====
-- `init_log_file_and_fetch_data` and `DBSystem::init` on a log that ends within a record.
use polardb_uncompleted.Base.{
  ℕ, zero, suc, ◌+◌, ◌*◌, ◌%◌, ◌≤◌, ◌<◌, ◌≡◌, ◌≢◌, refl, ap, ◌∙◌, inl, inr, true, some, List, [],
  ◌∷◌, length, ltb, arith, Bool-cases,
}
use polardb_uncompleted.Base.Run.{Run, ok, assertion_failed}
use polardb_uncompleted.Buffer.Record.{Record}
use polardb_uncompleted.DbSystem.Call.{◌>>+◌, at_once, steps_on}
use polardb_uncompleted.DbSystem.Fetch.{
  LogType, log_name, hot_log_t, died_log_t, after_read, fetch_loop, fetch_bytes,
  init_log_file_and_fetch_data, init_system, new_system,
}
use polardb_uncompleted.DbSystem.Fetch.Logs.{Resting}
use polardb_uncompleted.DbSystem.Fetch.Loop.{Reading, fetch_record-Round, after_read-whole}
use polardb_uncompleted.DbSystem.Fetch.Requests.{next_slot-Taken}
use polardb_uncompleted.DbSystem.Fetch.Restart.{
  Logged, died_log-Recovered, new_system-Resting, slots_of_new,
}
use polardb_uncompleted.DbSystem.Write.{System}
use polardb_uncompleted.Disk.{hot_log, died_log}
use polardb_uncompleted.Disk as Manager
use polardb_uncompleted.Disk.Files.{FileSystem, FilePath}
use polardb_uncompleted.Disk.Image.{take, drop, record_size, of_image}
use polardb_uncompleted.Disk.Log.{AllSized, length-take, take-short, length-drop}
use polardb_uncompleted.Manifest.{Manifester}
use polardb_uncompleted.Manifest as Manifest
use polardb_uncompleted.SkipList.{skip_list_max_height}
use polardb_uncompleted.Utils.{path_join}

after_read-short {ℓ} :
    {A : Type ℓ} (s : List ℕ) (end : Run A) (body : Record → Run A)
    → 0 < length s
    → length s < record_size
    → after_read s end body ≡ assertion_failed
after_read-short [] end body h l = absurd (omega (arith, h))
after_read-short (b ∷ s) end body h l = ground (arith, l)

module _ (fs : FileSystem) (type : LogType) (tries : ℕ) (heights : ℕ → ℕ)
    (high : (i : ℕ) → (1 ≤ heights i) × (heights i ≤ skip_list_max_height)) where
  fetch_loop-torn :
      (rounds : ℕ) (s : System fs) (n idx : ℕ) (bytes : List ℕ)
      → length bytes % record_size ≢ 0
      → length bytes < rounds
      → Reading s.db n idx
      → length bytes < record_size * suc (length s.db.buffer.idxes_empty)
      → record_size * n + length bytes < record_size * 1025
      → fetch_loop fs type (suc tries) heights rounds true s idx bytes ≡ assertion_failed
  unfolding fetch_loop ◌>>+◌
  fetch_loop-torn zero s n idx bytes torn enough h room few = absurd (omega (arith, enough))
  fetch_loop-torn (suc rounds) s n idx bytes torn enough h room few =
      elim (Bool-cases (ltb (length bytes) record_size)) [
        | inl short ↦
            let short' : length bytes < record_size = ground arith in
            rw (take-short record_size bytes (omega (arith, short')))
              (after_read-short bytes _ _ (omega (arith, torn)) short')
        | inr long ↦
            let long' : record_size ≤ length bytes = ground arith in
            let left = length-drop record_size bytes long' in
            let r = of_image (take record_size bytes) in
            let (s1, next, buffer, fetched, got, z) =
              fetch_record-Round fs s idx r type tries (heights rounds) n h
                (omega (arith, room, long')) (omega (arith, few, long')) (high rounds).0
                (high rounds).1 in
            let s2 : System fs = record s1 { db = record (s1.db) { buffer = buffer } } in
            let rest =
              fetch_loop-torn rounds s2 (suc n) next (drop record_size bytes)
                (λ e. torn (omega (arith, e, left))) (omega (arith, enough, left)) z.reading
                (omega (arith, z.less, room, left)) (omega (arith, few, left)) in
            after_read-whole (take record_size bytes) _ _ (length-take record_size bytes long')
            ∙ rw fetched (rw got rest)
      ]

  fetch_bytes-torn :
      (s : System fs) (n : ℕ) (bytes : List ℕ)
      → length bytes % record_size ≢ 0
      → Resting s.db n
      → length bytes < record_size * length s.db.buffer.idxes_empty
      → record_size * n + length bytes < record_size * 1025
      → fetch_bytes fs type (suc tries) heights s bytes ≡ assertion_failed
  unfolding fetch_bytes ◌>>+◌
  fetch_bytes-torn s n bytes torn h room few =
      let (idx, buffer, got, t) =
        next_slot-Taken s.db.buffer h.slots (omega (arith, room)) h.idle in
      let start : System fs = record s { db = record (s.db) { buffer = buffer } } in
      let reading : Reading start.db n idx = record {
        table = h.table;
        opens = h.opens;
        slots = t.valid;
        small = t.small;
        here = rw (t.wrote) (ground arith);
        idle = t.idle;
      } in
      let fails =
        fetch_loop-torn (suc (length bytes)) start n idx bytes torn (omega arith) reading
          (omega (arith, room, t.less)) few in
      rw got (rw fails refl)

  fetch_log-torn :
      (s : System fs) (n : ℕ) (bytes : List ℕ) (log : FilePath)
      → path_join (s.disk.basepath ∷ log_name type ∷ []) ≡ ok log
      → fs.content s.files log ≡ some bytes
      → length bytes % record_size ≢ 0
      → Resting s.db n
      → length bytes < record_size * length s.db.buffer.idxes_empty
      → record_size * n + length bytes < record_size * 1025
      → init_log_file_and_fetch_data fs type (suc tries) heights s ≡ assertion_failed
  unfolding init_log_file_and_fetch_data ◌>>+◌
  fetch_log-torn s n bytes log path there torn h room few =
      let fails = fetch_bytes-torn s n bytes torn h room few in rw path (rw there (rw fails refl))

-- `init` of a directory whose died log has whole records, and whose hot log ends within a record,
-- fails the assertion on the number of bytes read, whatever the bytes of the hot log are, when the
-- two logs have fewer than 1024 whole records together. A died log without records may be missing;
-- the paths exist, the manifest is read, and new nodes get heights from 1 to 12.
pub init_system-torn :
    (fs : FileSystem) (tries : ℕ) (heights : ℕ → ℕ) (files : fs.Files)
    (base_path died hot : FilePath) (manifester : Manifester) (rs : List Record) (bytes : List ℕ)
    → ((i : ℕ) → (1 ≤ heights i) × (heights i ≤ skip_list_max_height))
    → path_join (base_path ∷ died_log ∷ []) ≡ ok died
    → path_join (base_path ∷ hot_log ∷ []) ≡ ok hot
    → Manifest.new fs files (Manager.new base_path) ≡ ok manifester
    → Logged (fs.content files died) rs
    → AllSized rs
    → fs.content files hot ≡ some bytes
    → length bytes % record_size ≢ 0
    → record_size * length rs + length bytes < record_size * 1024
    → init_system fs (suc tries) heights files base_path ≡ assertion_failed
unfolding init_system Manager.new ◌>>+◌
init_system-torn fs tries heights files base_path died hot manifester rs bytes high to_died to_hot
      listed in_died sized there torn small =
    let start : System fs = record {
      db = new_system;
      dump_queue = [];
      files = files;
      disk = Manager.new base_path;
    } in
    let slots = slots_of_new in
    let (s1, first, a) =
      died_log-Recovered fs tries heights high start 0 rs sized new_system-Resting
        (omega (arith, slots, small)) (omega (arith, small)) died in_died to_died in
    let fails =
      fetch_log-torn fs hot_log_t tries heights high s1 (0 + length rs) bytes hot
        (rw (a.disk) to_hot) (rw (a.files) there) torn a.resting
        (omega (arith, a.less, slots, small)) (omega (arith, small)) in
    steps_on (at_once (Manifest.new fs files (Manager.new base_path))) _ manifester
      (ap at_once listed)
    ∙ steps_on (init_log_file_and_fetch_data fs died_log_t (suc tries) heights start) _ s1 first
    ∙ rw fails refl
