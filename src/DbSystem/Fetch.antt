-- ===== src/DbSystem/Fetch.antt =====
-- engine_race/DBSystem/io.cpp, `init_log_file_and_fetch_data`, and engine_race/DBSystem/DBSystem.cpp,
-- `DBSystem::init`: the records of the logs are recovered into buffer slots.
pub mod Requests
pub mod Step
pub mod Loop
pub mod Logs
pub mod Restart
pub mod Torn
pub mod Durable
use polardb_uncompleted.Base.{
  ℕ, zero, suc, Bool, true, false, Option, none, some, List, [], ◌∷◌, ◌==◌, length, write,
  replicate, if◌then◌else◌,
}
use polardb_uncompleted.Base.Run.{Run, ok, assertion_failed, undefined}
use polardb_uncompleted.Buffer.{
  Buffer, request_record_buff, wait_for_access, end_access, release_buff, if_full,
}
use polardb_uncompleted.Buffer as Slots
use polardb_uncompleted.Buffer.Record.{Record}
use polardb_uncompleted.DbSystem.{DbSystem, write_recover}
use polardb_uncompleted.DbSystem.Call.{◌>>+◌, at_once}
use polardb_uncompleted.DbSystem.Write.{System, memtable_co_write_num, submit_dump}
use polardb_uncompleted.Disk.{hot_log, died_log, switch_log, open_hot_log}
use polardb_uncompleted.Disk as Manager
use polardb_uncompleted.Disk.Files.{FileSystem, FilePath}
use polardb_uncompleted.Disk.Image.{take, drop, record_size, of_image}
use polardb_uncompleted.IndexHashMap as Table
use polardb_uncompleted.Manifest.{Manifester}
use polardb_uncompleted.Manifest as Manifest
use polardb_uncompleted.SkipList as Tables
use polardb_uncompleted.Utils.{path_join}

pub data LogType : Type 0 where
  hot_log_t : LogType
  died_log_t : LogType

abbrev pub log_name : LogType → List ℕ
log_name hot_log_t = hot_log
log_name died_log_t = died_log

-- A slot that nobody has, marked as accessed.
unfoldable pub next_slot : Buffer → Run (Option (ℕ × Buffer))
unfolding ◌>>+◌
next_slot buffer = ok (request_record_buff buffer) >>+ λ (idx, requested).
    ok (wait_for_access requested idx) >>+ λ (place, accessed). ok (some (idx, accessed))

-- What follows the `read` of a record: the end of the loop when it gives no byte, and its body when it
-- gives a whole record.
abbrev pub after_read {ℓ} : {A : Type ℓ} → List ℕ → Run A → (Record → Run A) → Run A
after_read [] end body = end
after_read (b ∷ got) end body =
    if length (b ∷ got) == record_size then body (of_image (b ∷ got)) else assertion_failed

-- A new `DBSystem`, with the lists that the constructor of MemTables takes from the creator thread.
unfoldable pub new_system : DbSystem
new_system = record {
  buffer = Slots.new;
  hash_table = Table.new;
  mem_tables = replicate memtable_co_write_num (Tables.new 0);
}

module _ (fs : FileSystem) (type : LogType) where
  -- The lists go to the dumper when no slot is free, and the hot log is switched before. The flag
  -- tells whether the descriptor of the loop can still be read: `switch_log` closes the one of the
  -- hot log, and its next one is for writing.
  unfoldable pub dump_if_taken : System fs → Run (Option (Bool × System fs))
  unfolding ◌>>+◌ submit_dump
  dump_if_taken s =
      let (mem_tables, pushed) = submit_dump s.db.mem_tables s.dump_queue in
      if if_full s.db.buffer
      then (elim type [
        | hot_log_t ↦ at_once (switch_log fs s.files s.disk) >>+ λ (through, files, disk).
            ok (if through then pushed else none) >>+ λ queue. ok (
              some (
                false,
                record {
                  db = record (s.db) { mem_tables = mem_tables };
                  dump_queue = queue;
                  files = files;
                  disk = disk;
                },
              ))
        | died_log_t ↦ ok pushed >>+ λ queue. ok (
            some (
              true,
              record s { db = record (s.db) { mem_tables = mem_tables }; dump_queue = queue },
            ))
      ])
      else ok (some (true, s))

  -- A round of the loop, for a record that has been read into slot `idx`.
  unfoldable pub fetch_record : ℕ → ℕ → System fs → ℕ → Record → Run (Option (Bool × System fs))
  unfolding ◌>>+◌ dump_if_taken
  fetch_record tries height s idx r =
      let filled : Buffer = record s.db.buffer { slots = write s.db.buffer.slots idx r } in
      write_recover tries height (record s.db { buffer = end_access filled idx }) idx >>+ λ db.
      dump_if_taken (record s { db = db })

  -- `heights` gives what `random()` gives to the new nodes, by the rounds left. Each round takes a
  -- byte at least, so one round more than there are bytes is enough.
  unfoldable pub fetch_loop :
      ℕ → (ℕ → ℕ) → ℕ → Bool → System fs → ℕ → List ℕ → Run (Option (ℕ × System fs))
  unfolding ◌>>+◌ fetch_record next_slot take drop
  fetch_loop tries heights zero readable s idx bytes = undefined
  fetch_loop tries heights (suc rounds) false s idx bytes = assertion_failed
  fetch_loop tries heights (suc rounds) true s idx bytes =
      after_read (take record_size bytes) (ok (some (idx, s))) (λ r.
        fetch_record tries (heights rounds) s idx r >>+ λ (readable, s').
        next_slot s'.db.buffer >>+ λ (next, buffer).
        fetch_loop tries heights rounds readable
          (record s' { db = record (s'.db) { buffer = buffer } }) next (drop record_size bytes))

  -- The log is read until its end, and the last slot is given back.
  unfoldable pub fetch_bytes : ℕ → (ℕ → ℕ) → System fs → List ℕ → Run (Option (System fs))
  unfolding ◌>>+◌ fetch_loop next_slot
  fetch_bytes tries heights s bytes = next_slot s.db.buffer >>+ λ (idx, buffer).
      fetch_loop tries heights (suc (length bytes)) true
        (record s { db = record (s.db) { buffer = buffer } }) idx bytes
      >>+ λ (last, s'). at_once (release_buff (end_access s'.db.buffer last) last) >>+ λ released.
          ok (some (record s' { db = record (s'.db) { buffer = released } }))

  abbrev pub fetch_content : ℕ → (ℕ → ℕ) → System fs → Option (List ℕ) → Run (Option (System fs))
  fetch_content tries heights s none = ok (some s)
  fetch_content tries heights s (some bytes) = fetch_bytes tries heights s bytes

  abbrev pub reopen_log : System fs → Run (Option (System fs))
  reopen_log s = elim type [
    | died_log_t ↦ ok (some s)
    | hot_log_t ↦ at_once (open_hot_log fs s.files s.disk) >>+ λ (files, disk).
        ok (some (record s { files = files; disk = disk }))
  ]

  unfoldable pub init_log_file_and_fetch_data : ℕ → (ℕ → ℕ) → System fs → Run (Option (System fs))
  unfolding ◌>>+◌ fetch_bytes
  init_log_file_and_fetch_data tries heights s =
      at_once (path_join (s.disk.basepath ∷ log_name type ∷ [])) >>+ λ logname.
      fetch_content tries heights s (fs.content s.files logname) >>+ λ s'. reopen_log s'

module _ (fs : FileSystem) where
  -- `DBSystem::init`, the first time that it is called.
  unfoldable pub init_system :
      ℕ → (ℕ → ℕ) → fs.Files → FilePath → Run (Option (System fs × Manifester))
  unfolding ◌>>+◌ init_log_file_and_fetch_data new_system Manager.new Manifest.new
  init_system tries heights files base_path =
      let disk = Manager.new base_path in
      at_once (Manifest.new fs files disk) >>+ λ manifester.
      init_log_file_and_fetch_data fs died_log_t tries heights
        (record { db = new_system; dump_queue = []; files = files; disk = disk })
      >>+ λ s. init_log_file_and_fetch_data fs hot_log_t tries heights s >>+ λ s'.
          ok (some (s', manifester))
