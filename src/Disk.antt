-- ===== src/Disk.antt =====
-- engine_race/DBSystem/io.cpp, class DiskManager: the logs and the files that the dumper writes.
-- A file descriptor is the path of the open file; each method holds its mutex and is one step.
pub mod Files
pub mod Image
pub mod Log
pub mod Writing
pub mod Paths
pub mod Switch
use Files.{FileSystem, FilePath}
use Image.{record_size}
use polardb_uncompleted.Base.{
  ℕ, zero, suc, ◌+◌, ◌-◌, ◌==◌, ◌/◌, ◌%◌, ◌^◌, Bool, Option, none, some, List, [], ◌∷◌, ◌++◌, map,
  length, ltb, leb, if◌then◌else◌, true, false,
}
use polardb_uncompleted.Base.Run.{Run, ok, assertion_failed, undefined, ◌>>=◌}
use polardb_uncompleted.IndexHashMap.{KeyIdxPair}
use polardb_uncompleted.IndexHashMap.Hash.{bytes_of}
use polardb_uncompleted.Utils.{path_join}

-- "hot_log" and "died_log"
abbrev pub hot_log : List ℕ
hot_log = b'h' ∷ b'o' ∷ b't' ∷ b'_' ∷ b'l' ∷ b'o' ∷ b'g' ∷ []

abbrev pub died_log : List ℕ
died_log = b'd' ∷ b'i' ∷ b'e' ∷ b'd' ∷ b'_' ∷ b'l' ∷ b'o' ∷ b'g' ∷ []

abbrev pub max_log_record_num : ℕ
max_log_record_num = 8192

-- The descriptor of the log: -1, one that is closed, or one that appends to a file.
pub data LogFd : Type 0 where
  no_fd : LogFd
  closed_fd : LogFd
  append_to : FilePath → LogFd

-- `sleeping` is the number of threads that wait on `wait_switch_log`, `notified` the number of those
-- that were woken and have not gone on yet.
pub record DiskManager : Type 0 where
  pub curr_log_fd : LogFd
  pub curr_log_len : ℕ
  pub dumping_sstable_file_fd : Option FilePath
  pub basepath : FilePath
  pub sleeping : ℕ
  pub notified : ℕ

-- `init`: a new manager with the path
unfoldable pub new : FilePath → DiskManager
new basepath = record {
  curr_log_fd = no_fd;
  curr_log_len = 0;
  dumping_sstable_file_fd = none;
  basepath = basepath;
  sleeping = 0;
  notified = 0;
}

-- `wait_switch_log.notify_one()`
unfoldable pub notify_one : DiskManager → DiskManager
notify_one d =
    if d.sleeping == 0 then d else record d { sleeping = d.sleeping - 1; notified = d.notified + 1 }

abbrev pub concat : List (List ℕ) → List ℕ
concat [] = []
concat (x ∷ xs) = x ++ concat xs

module _ (fs : FileSystem) where
  open fs use {Files, content, create, create_empty, append, remove, rename}

  abbrev pub exists : Files → FilePath → Bool
  exists files path = elim (content files path) [ none ↦ false | some b ↦ true ]

  -- A write to a closed descriptor does nothing.
  unfoldable pub write_fd : Files → LogFd → List ℕ → Files
  write_fd files no_fd buff = files
  write_fd files closed_fd buff = files
  write_fd files (append_to log) buff = append files log buff

  abbrev no_log : LogFd → Bool
  no_log no_fd = true
  no_log closed_fd = false
  no_log (append_to log) = false

  -- The flag says that the log is full; `curr_log_len` is an `int`.
  unfoldable pub write_to_log : Files → DiskManager → List ℕ → Run (Bool × Files × DiskManager)
  unfolding write_fd
  write_to_log files d buff =
      let len : ℕ = d.curr_log_len + length buff in
      if no_log d.curr_log_fd
      then assertion_failed
      else if ltb len (2 ^ 31)
      then ok (
        leb max_log_record_num (len / record_size),
        write_fd files d.curr_log_fd buff,
        record d { curr_log_len = len },
      )
      else undefined

  -- The loop of `switch_log` and what follows it. `false`: the other log exists, and the thread goes
  -- to sleep.
  unfoldable pub pass_switch : Files → DiskManager → Run (Bool × Files × DiskManager)
  pass_switch files d = path_join (d.basepath ∷ hot_log ∷ []) >>= λ old.
      path_join (d.basepath ∷ died_log ∷ []) >>= λ newl.
      if exists files newl
      then ok (false, files, record d { sleeping = d.sleeping + 1 })
      else ok (true, create (rename files old newl) old, record d { curr_log_fd = append_to old })

  -- `false`: the call waits for `end_dumping`, with the log closed.
  unfoldable pub switch_log : Files → DiskManager → Run (Bool × Files × DiskManager)
  unfolding pass_switch
  switch_log files d = pass_switch files (record d { curr_log_fd = closed_fd })

  -- A call that waits goes on when it was woken, with the test of the loop, and not before.
  unfoldable pub resume_switch_log : Files → DiskManager → Run (Bool × Files × DiskManager)
  unfolding pass_switch
  resume_switch_log files d =
      if d.notified == 0
      then ok (false, files, d)
      else pass_switch files (record d { notified = d.notified - 1 })

  -- The end of `init_log_file_and_fetch_data` for the hot log: it is opened for appending.
  unfoldable pub open_hot_log : Files → DiskManager → Run (Files × DiskManager)
  open_hot_log files d = path_join (d.basepath ∷ hot_log ∷ []) >>= λ log.
      ok (create files log, record d { curr_log_fd = append_to log })

  -- A write to a descriptor of -1 does nothing.
  unfoldable pub append_dumping : Files → DiskManager → List ℕ → Files
  append_dumping files d buff = elim d.dumping_sstable_file_fd [
    | none ↦ files
    | some sst ↦ append files sst buff
  ]

  unfoldable pub end_dumping : Files → DiskManager → Run (Files × DiskManager)
  unfolding notify_one
  end_dumping files d = path_join (d.basepath ∷ died_log ∷ []) >>= λ idle_full. ok (
    if exists files idle_full then remove files idle_full else files,
    notify_one (record d { dumping_sstable_file_fd = none }),
  )

  -- The number of records in 4 bytes, and the keys in 8 bytes each.
  unfoldable pub dumpint_keys :
      Files → DiskManager → List ℕ → List KeyIdxPair → Run (Files × DiskManager)
  dumpint_keys files d filename kvs = path_join (d.basepath ∷ filename ∷ []) >>= λ sst. ok (
    append (append (create_empty files sst) sst (bytes_of 4 (length kvs))) sst
        (concat (map (λ (x : KeyIdxPair). bytes_of 8 x.key) kvs)),
    record d { dumping_sstable_file_fd = some sst },
  )
