-- ===== src/DbSystem/Fetch/Durable.antt =====
-- `write_to_log` followed by `DBSystem::init`: the records that were logged can be read after a
-- restart.
use polardb_uncompleted.Base.{
  ℕ, suc, ◌+◌, ◌*◌, ◌^◌, ◌≤◌, ◌<◌, ◌≡◌, ◌≢◌, refl, ap, ◌∙◌, sym, inr, some, List, [], ◌∷◌, ◌++◌,
  ◌==◌, length, length-append, if◌then◌else◌, arith,
}
use polardb_uncompleted.Base.Run.{ok}
use polardb_uncompleted.Buffer.Record.{Record}
use polardb_uncompleted.DbSystem.{read}
use polardb_uncompleted.DbSystem.Fetch.{init_system}
use polardb_uncompleted.DbSystem.Fetch.Loop.{last_with}
use polardb_uncompleted.DbSystem.Fetch.Restart.{Logged, value_of, value_in, init_system-read}
use polardb_uncompleted.DbSystem.Write.{System}
use polardb_uncompleted.Disk.{DiskManager, append_to, hot_log, died_log}
use polardb_uncompleted.Disk as Manager
use polardb_uncompleted.Disk.Files.{FileSystem, FilePath}
use polardb_uncompleted.Disk.Image.{record_size}
use polardb_uncompleted.Disk.Log.{AllSized, images, images-append, append-AllSized}
use polardb_uncompleted.Disk.Paths.{path_in, path_join-in, hot_path, died_path, logs_differ}
use polardb_uncompleted.Disk.Writing.{write_records, append-records}
use polardb_uncompleted.Manifest.{Manifester, manifist_file, recover_manifist}
use polardb_uncompleted.Manifest as Manifest
use polardb_uncompleted.SkipList.{skip_list_max_height}
use polardb_uncompleted.Utils.{get_key, last_byte}

manifist_differs : (base : FilePath) (b : ℕ) → path_in base b manifist_file ≢ path_in base b hot_log
manifist_differs base b e =
    let sep : List ℕ = if b == b'/' then [] else b'/' ∷ [] in
    absurd (
      omega (
        arith,
        ap length e,
        length-append base (sep ++ manifist_file),
        length-append base (sep ++ hot_log),
        length-append sep manifist_file,
        length-append sep hot_log,
      ))

-- The manifest is read from its own file.
new_same :
    (fs : FileSystem) (files files' : fs.Files) (d : DiskManager) (b : ℕ)
    → last_byte d.basepath ≡ ok b
    → fs.content files' (path_in d.basepath b manifist_file)
      ≡ fs.content files (path_in d.basepath b manifist_file)
    → Manifest.new fs files' d ≡ Manifest.new fs files d
unfolding Manifest.new recover_manifist last_byte
new_same fs files files' d b h same =
    rw (path_join-in d.basepath b b't' manifist_file h refl) (rw same refl)

-- Records that `write_to_log` appends to the open hot log are found after a restart: every call
-- returns, `init` of the files that are then there comes to its end, without waiting, and `read` of
-- a string with a key gives the value of the last record with that key in the died log, the hot log
-- as it was and the new records, in this order, and is undefined when there is none. The logs held
-- whole records, fewer than 1024 with the new ones, or there is no died log; the records' fields
-- fit their widths, the counted length of the log stays below 2 ^ 31, the manifest is read, and new
-- nodes get heights from 1 to 12.
pub write_records-init_system :
    (fs : FileSystem) (tries : ℕ) (heights : ℕ → ℕ) (files : fs.Files) (d : DiskManager) (b : ℕ)
    (manifester : Manifester) (dead old more : List Record) (text : List ℕ) (k : ℕ)
    → ((i : ℕ) → (1 ≤ heights i) × (heights i ≤ skip_list_max_height))
    → last_byte d.basepath ≡ ok b
    → d.curr_log_fd ≡ append_to (path_in d.basepath b hot_log)
    → d.curr_log_len + record_size * length more < 2 ^ 31
    → Manifest.new fs files (Manager.new d.basepath) ≡ ok manifester
    → Logged (fs.content files (path_in d.basepath b died_log)) dead
    → fs.content files (path_in d.basepath b hot_log) ≡ some (images old)
    → AllSized dead
    → AllSized old
    → AllSized more
    → length dead + (length old + length more) < 1024
    → get_key text ≡ ok k
    → (files' : fs.Files) × (d' : DiskManager) × (s : System fs) × (write_records fs files d more
        ≡ ok (files', d'))
      × (init_system fs (suc tries) heights files' d.basepath ≡ ok (some (s, manifester)))
      × (value_of (read s.db text) ≡ value_in (last_with k (dead ++ (old ++ more))))
unfolding Manager.new
write_records-init_system fs tries heights files d b manifester dead old more text k high base on
      short listed in_died in_hot sized_dead sized_old sized_more few known =
    let hot = path_in d.basepath b hot_log in
    let died = path_in d.basepath b died_log in
    let a = append-records fs files d hot more on sized_more short in
    let in_died' : Logged (fs.content a.files' died) dead =
      rw (a.others died (λ e. logs_differ d.basepath b (sym e))) in_died in
    let in_hot' : fs.content a.files' hot ≡ some (images (old ++ more)) =
      a.holds (images old) in_hot ∙ ap some (sym (images-append old more)) in
    let listed' : Manifest.new fs a.files' (Manager.new d.basepath) ≡ ok manifester =
      new_same fs files a.files' (Manager.new d.basepath) b base
        (a.others (path_in d.basepath b manifist_file) (manifist_differs d.basepath b))
      ∙ listed in
    let (s, done, opened, found) =
      init_system-read fs tries heights a.files' d.basepath died hot manifester dead (old ++ more)
        text k high (died_path d.basepath b base) (hot_path d.basepath b base) listed' in_died'
        (inr in_hot') sized_dead (append-AllSized old more sized_old sized_more)
        (omega (arith, few, length-append old more)) known in
    (a.files', a.d', s, a.written, done, found)
