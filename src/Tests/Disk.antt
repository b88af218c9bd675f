-- ===== src/Tests/Disk.antt =====
-- The logs and the manifest, on files in memory.
use polardb_uncompleted.Base.{
  ℕ, suc, ◌≡◌, refl, ◌⊎◌, true, false, none, some, Option, List, [], ◌∷◌, length, length-replicate,
  replicate, arith,
}
use polardb_uncompleted.Base.Run.{ok}
use polardb_uncompleted.Disk.{
  DiskManager, append_to, closed_fd, died_log, exists, pass_switch, switch_log, resume_switch_log,
  end_dumping,
}
use polardb_uncompleted.Disk.Files.{FilePath, in_memory}
use polardb_uncompleted.Disk.Switch.{Switched, switch_log-Switched, switch_log-end_dumping}
use polardb_uncompleted.Disk.Paths.{path_in}
use polardb_uncompleted.Manifest.{Manifester, count_levels, mf_record, insert_record}
use polardb_uncompleted.Manifest as Sorted
use polardb_uncompleted.Manifest.Image.{MfRecord}
use polardb_uncompleted.Manifest.Entries as Entries
use polardb_uncompleted.Manifest.Restart.{insert_record-new, insert_record-lost, no_counts}
use polardb_uncompleted.Utils.{last_byte, path_join}

abbrev no_files : FilePath → Option (List ℕ)
no_files p = none

-- Every file exists and is empty.
abbrev empty_files : FilePath → Option (List ℕ)
empty_files p = some []

abbrev log : FilePath
log = b'l' ∷ []

-- The manager of the directory "d" with an open log.
abbrev manager : DiskManager
manager = record {
  curr_log_fd = append_to log;
  curr_log_len = 0;
  dumping_sstable_file_fd = none;
  basepath = b'd' ∷ [];
  sleeping = 0;
  notified = 0;
}

switch_log-Switched_example :
    ((exists in_memory no_files (path_in (b'd' ∷ []) b'd' died_log) ≡ true)
      × (switch_log in_memory no_files manager
          ≡ ok (false, no_files, record manager { curr_log_fd = closed_fd; sleeping = 1 })))
    ⊎ ((files' : FilePath → Option (List ℕ)) × (d' : DiskManager) × (switch_log in_memory no_files
            manager
          ≡ ok (true, files', d'))
        × Switched in_memory no_files manager b'd' files' d')
unfolding last_byte
switch_log-Switched_example = switch_log-Switched in_memory no_files manager b'd' refl

waits :
    switch_log in_memory empty_files manager
    ≡ ok (false, empty_files, record manager { curr_log_fd = closed_fd; sleeping = 1 })
unfolding switch_log pass_switch path_join last_byte
waits = refl

abbrev asleep : DiskManager
asleep = record manager { curr_log_fd = closed_fd; sleeping = 1 }

switch_log-end_dumping_example :
    (resume_switch_log in_memory empty_files asleep ≡ ok (false, empty_files, asleep))
    × (files2 : FilePath → Option (List ℕ)) × (d2 : DiskManager) × (files3 : FilePath
        → Option (List ℕ))
    × (d3 : DiskManager) × (end_dumping in_memory empty_files asleep ≡ ok (files2, d2))
    × (resume_switch_log in_memory files2 d2 ≡ ok (true, files3, d3))
    × Switched in_memory empty_files manager b'd' files3 d3
    × (d3.sleeping ≡ 0)
    × (d3.notified ≡ 0)
unfolding last_byte
switch_log-end_dumping_example =
    switch_log-end_dumping in_memory empty_files manager b'd' empty_files asleep refl refl waits

abbrev nothing_listed : Manifester
nothing_listed = record { all_records = []; record_cnt = no_counts }

abbrev unset : List ℕ
unset = replicate 256 0

insert_record-new_example :
    (files' : FilePath → Option (List ℕ)) × (m' : Manifester) × (insert_record in_memory unset
        no_files manager nothing_listed 0 7 9 2
      ≡ ok (files', m'))
    × (m'.all_records ≡ mf_record unset 0 0 7 9 2 ∷ [])
    × (Sorted.new in_memory files' manager ≡ ok m')
unfolding last_byte count_levels
insert_record-new_example =
    insert_record-new in_memory no_files manager b'd' nothing_listed unset 0 7 9 2 refl
      Entries.sized_nil refl (omega arith) (length-replicate {A = ℕ} 256 0) (omega arith)
      (omega arith) (omega arith) (omega arith)

abbrev many : Manifester
many = record { all_records = replicate 1024 (mf_record unset 0 0 7 9 2); record_cnt = no_counts }

insert_record-lost_example :
    (files' : FilePath → Option (List ℕ)) × (m' : Manifester) × (insert_record in_memory unset
        no_files manager many 0 7 9 2
      ≡ ok (files', m'))
    × (length m'.all_records ≡ suc (length many.all_records))
    × (Sorted.new in_memory files' manager
        ≡ ok (record { all_records = []; record_cnt = no_counts }))
unfolding last_byte
insert_record-lost_example =
    insert_record-lost in_memory no_files manager b'd' many unset 0 7 9 2 refl
      (omega (arith, length-replicate {A = MfRecord} 1024 (mf_record unset 0 0 7 9 2)))
      (omega arith)
