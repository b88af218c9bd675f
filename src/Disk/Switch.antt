-- ===== src/Disk/Switch.antt =====
-- engine_race/DBSystem/io.cpp, `switch_log` and `end_dumping`: the two logs.
use polardb_uncompleted.Base.{
  ℕ, ◌+◌, ◌-◌, ◌==◌, ◌≡◌, ◌≢◌, refl, false, ◌∙◌, sym, ◌⊎◌, inl, inr, true, false, none, some, [],
  if◌then◌else◌, Bool-cases, Option-cases, arith,
}
use polardb_uncompleted.Base.Run.{ok}
use polardb_uncompleted.Disk.{
  DiskManager, closed_fd, append_to, hot_log, died_log, exists, pass_switch, switch_log,
  resume_switch_log, end_dumping, notify_one,
}
use polardb_uncompleted.Disk.Files.{FileSystem, FilePath, same_path}
use polardb_uncompleted.Utils.{last_byte}
use polardb_uncompleted.Disk.Paths.{
  path_in, hot_path, died_path, logs_differ, same_path_self, other_path,
}

exists-content :
    (fs : FileSystem) (files : fs.Files) (path : FilePath)
    → exists fs files path ≡ false
    → fs.content files path ≡ none
exists-content fs files path h = elim (Option-cases (fs.content files path)) [
  | inl gone ↦ gone
  | inr (b, there) ↦ absurd (let h' = rw (there, exists) at h in cc)
]

module _ (fs : FileSystem) (files : fs.Files) (d : DiskManager) (b : ℕ) where
  abbrev pub hot : FilePath
  hot = path_in d.basepath b hot_log

  abbrev pub died : FilePath
  died = path_in d.basepath b died_log

  -- What a `switch_log` that goes through leaves behind.
  pub record Switched (files' : fs.Files) (d' : DiskManager) : Type 0 where
    pub fd : d'.curr_log_fd ≡ append_to hot
    pub len : d'.curr_log_len ≡ d.curr_log_len
    pub moved : fs.content files' died ≡ fs.content files hot
    pub fresh : fs.content files' hot ≡ some []
    pub others : (q : FilePath) → q ≢ hot → q ≢ died → fs.content files' q ≡ fs.content files q

  moved_file :
      (q : FilePath)
      → fs.content (fs.create (fs.rename files hot died) hot) q ≡ (
          if same_path q hot
          then some []
          else if same_path q died
          then fs.content files hot
          else fs.content files q)
  moved_file q =
      let ne = logs_differ d.basepath b in
      let gone : fs.content (fs.rename files hot died) hot ≡ none =
        fs.content-rename files hot died hot ne
        ∙ rw (other_path hot died ne, same_path_self hot) refl in
      fs.content-create (fs.rename files hot died) hot q
      ∙ rw (gone, fs.content-rename files hot died q ne) (ground arith)

  moved-Switched :
      Switched (fs.create (fs.rename files hot died) hot) (record d { curr_log_fd = append_to hot })
  moved-Switched =
      let ne = logs_differ d.basepath b in
      record {
        fd = refl;
        len = refl;
        moved =
            moved_file died ∙ rw (other_path died hot (λ e. ne (sym e)), same_path_self died) refl;
        fresh = moved_file hot ∙ rw (same_path_self hot) refl;
        others = λ q a c. moved_file q ∙ rw (other_path q hot a, other_path q died c) refl;
      }

  switch_free :
      last_byte d.basepath ≡ ok b
      → exists fs files died ≡ false
      → switch_log fs files d
        ≡ ok (
          true,
          fs.create (fs.rename files hot died) hot,
          record d { curr_log_fd = append_to hot },
        )
  unfolding switch_log pass_switch
  switch_free h free = rw (hot_path d.basepath b h, died_path d.basepath b h, free) refl

  switch_taken :
      last_byte d.basepath ≡ ok b
      → exists fs files died ≡ true
      → switch_log fs files d
        ≡ ok (false, files, record d { curr_log_fd = closed_fd; sleeping = d.sleeping + 1 })
  unfolding switch_log pass_switch
  switch_taken h taken = rw (hot_path d.basepath b h, died_path d.basepath b h, taken) refl

-- `switch_log` in a directory with a path either finds a died log, changes no file and leaves the
-- hot log closed, or finds none and goes through: the died log then has what the hot log had, the
-- hot log is empty and open for appending, the length that is counted is not reset, and every other
-- file is as before.
pub switch_log-Switched :
    (fs : FileSystem) (files : fs.Files) (d : DiskManager) (b : ℕ)
    → last_byte d.basepath ≡ ok b
    → ((exists fs files (path_in d.basepath b died_log) ≡ true)
        × (switch_log fs files d
            ≡ ok (false, files, record d { curr_log_fd = closed_fd; sleeping = d.sleeping + 1 })))
      ⊎ ((files' : fs.Files) × (d' : DiskManager) × (switch_log fs files d ≡ ok (true, files', d'))
          × Switched fs files d b files' d')
switch_log-Switched fs files d b h =
    elim (Bool-cases (exists fs files (path_in d.basepath b died_log))) [
      | inl taken ↦ inl (taken, switch_taken fs files d b h taken)
      | inr free ↦ inr (_, _, switch_free fs files d b h free, moved-Switched fs files d b)
    ]

pub removed_died :
    (fs : FileSystem) (files : fs.Files) (d : DiskManager) (b : ℕ) (q : FilePath)
    → q ≢ path_in d.basepath b died_log
    → fs.content (fs.remove files (path_in d.basepath b died_log)) q ≡ fs.content files q
removed_died fs files d b q ne =
    fs.content-remove files (path_in d.basepath b died_log) q
    ∙ rw (other_path q (path_in d.basepath b died_log) ne) refl

-- `end_dumping` wakes a thread that sleeps.
end_dumping-wakes :
    (fs : FileSystem) (files : fs.Files) (d : DiskManager) (b n : ℕ)
    → last_byte d.basepath ≡ ok b
    → exists fs files (path_in d.basepath b died_log) ≡ true
    → d.sleeping ≡ n + 1
    → end_dumping fs files d
      ≡ ok (
        fs.remove files (path_in d.basepath b died_log),
        record d { dumping_sstable_file_fd = none; sleeping = n; notified = d.notified + 1 },
      )
unfolding end_dumping notify_one
end_dumping-wakes fs files d b n h there some_asleep =
    let awake : (d.sleeping == 0) ≡ false = ground arith in
    let left : d.sleeping - 1 ≡ n = omega arith in
    rw (died_path d.basepath b h, there) (rw (awake, left) refl)

resume_woken :
    (fs : FileSystem) (files : fs.Files) (d : DiskManager) (b n : ℕ)
    → last_byte d.basepath ≡ ok b
    → exists fs files (path_in d.basepath b died_log) ≡ false
    → d.notified ≡ n + 1
    → resume_switch_log fs files d
      ≡ ok (
        true,
        fs.create
            (fs.rename files (path_in d.basepath b hot_log) (path_in d.basepath b died_log))
            (path_in d.basepath b hot_log),
        record d { curr_log_fd = append_to (path_in d.basepath b hot_log); notified = n },
      )
unfolding resume_switch_log pass_switch
resume_woken fs files d b n h free woken =
    let awake : (d.notified == 0) ≡ false = ground arith in
    let left : d.notified - 1 ≡ n = omega arith in
    rw (awake, left) (rw (hot_path d.basepath b h, died_path d.basepath b h, free) refl)

removed_exists :
    (fs : FileSystem) (files : fs.Files) (p : FilePath) → exists fs (fs.remove files p) p ≡ false
removed_exists fs files p = rw (exists, fs.content-remove files p p, same_path_self p) refl

-- A `switch_log` that waits sleeps until `end_dumping` has run, which removes the died log and wakes
-- a thread; before, a call that goes on finds that it was not woken, when no thread was woken
-- earlier. Woken, it goes through: the died log then has what the hot log had at the first call,
-- the hot log is empty and open, every other file is as it was at the first call, and no more threads
-- sleep or are woken than before that call.
pub switch_log-end_dumping :
    (fs : FileSystem) (files : fs.Files) (d : DiskManager) (b : ℕ) (files1 : fs.Files)
    (d1 : DiskManager)
    → last_byte d.basepath ≡ ok b
    → d.notified ≡ 0
    → switch_log fs files d ≡ ok (false, files1, d1)
    → (resume_switch_log fs files1 d1 ≡ ok (false, files1, d1))
      × (files2 : fs.Files) × (d2 : DiskManager) × (files3 : fs.Files) × (d3 : DiskManager)
      × (end_dumping fs files1 d1 ≡ ok (files2, d2))
      × (resume_switch_log fs files2 d2 ≡ ok (true, files3, d3))
      × Switched fs files d b files3 d3
      × (d3.sleeping ≡ d.sleeping)
      × (d3.notified ≡ 0)
unfolding resume_switch_log
switch_log-end_dumping fs files d b files1 d1 h none_woken waits =
    elim (Bool-cases (exists fs files (path_in d.basepath b died_log))) [
      | inr free ↦ absurd cc (waits, switch_free fs files d b h free)
      | inl taken ↦
          let asleep : DiskManager = record d {
            curr_log_fd = closed_fd;
            sleeping = d.sleeping + 1;
          } in
          let d2 : DiskManager = record d {
            curr_log_fd = closed_fd;
            dumping_sstable_file_fd = none;
            notified = d.notified + 1;
          } in
          let died = path_in d.basepath b died_log in
          let files2 = fs.remove files died in
          let ended = end_dumping-wakes fs files asleep b d.sleeping h taken refl in
          let through =
            resume_woken fs files2 d2 b d.notified h (removed_exists fs files died) refl in
          let after = moved-Switched fs files2 d2 b in
          let same : (files1 ≡ files) × (d1 ≡ asleep) = (
            cc (waits, switch_taken fs files d b h taken),
            cc (waits, switch_taken fs files d b h taken),
          ) in
          let none_yet : (d.notified == 0) ≡ true = ground arith in
          rw (same.0, same.1)
            (
              rw none_yet refl,
              files2,
              d2,
              _,
              _,
              ended,
              through,
              record {
                fd = refl;
                len = refl;
                moved =
                    after.moved
                    ∙ removed_died fs files d b (path_in d.basepath b hot_log)
                        (logs_differ d.basepath b);
                fresh = after.fresh;
                others = λ q x y. after.others q x y ∙ removed_died fs files d b q y;
              },
              refl,
              none_woken,
            )
    ]
