-- ===== src/Disk/Writing.antt =====
-- engine_race/DBSystem/io.cpp, `write_to_log`: records written one after the other.
use polardb_uncompleted.Base.{
  ℕ, ◌+◌, ◌*◌, ◌/◌, ◌^◌, ◌<◌, ◌≡◌, ◌≢◌, some, refl, ap, ◌∙◌, sym, true, List, [], ◌∷◌, ◌++◌, ltb,
  leb, length, arith,
}
use mathlib.Core.List.{append_assoc, append-nil}
use polardb_uncompleted.Base.Run.{Run, ok, ◌>>=◌}
use polardb_uncompleted.Buffer.Record.{Record}
use polardb_uncompleted.Disk.{DiskManager, append_to, write_to_log, max_log_record_num}
use polardb_uncompleted.Disk.Files.{FileSystem, FilePath}
use polardb_uncompleted.Disk.Paths.{same_path_self, other_path}
use polardb_uncompleted.Disk.Image.{record_size, image, IsSized, length-image}
use polardb_uncompleted.Disk.Log.{AllSized, sized_cons, images}

-- The calls of `write_to_log` for one record after the other.
unfoldable pub write_records :
    (fs : FileSystem) → fs.Files → DiskManager → List Record → Run (fs.Files × DiskManager)
write_records fs files d [] = ok (files, d)
write_records fs files d (r ∷ rs) =
    write_to_log fs files d (image r) >>= λ (full, files', d'). write_records fs files' d' rs

-- What `write_records` leaves behind in an open log.
pub record Appended (fs : FileSystem) (files : fs.Files) (d : DiskManager) (log : FilePath)
    (rs : List Record) : Type 0 where
  pub files' : fs.Files
  pub d' : DiskManager
  pub written : write_records fs files d rs ≡ ok (files', d')
  pub open_log : d'.curr_log_fd ≡ append_to log
  pub len : d'.curr_log_len ≡ d.curr_log_len + record_size * length rs
  pub holds :
      (x : List ℕ) → fs.content files log ≡ some x → fs.content files' log ≡ some (x ++ images rs)
  pub others : (q : FilePath) → q ≢ log → fs.content files' q ≡ fs.content files q

write_one :
    (fs : FileSystem) (files : fs.Files) (d : DiskManager) (log : FilePath) (r : Record)
    → d.curr_log_fd ≡ append_to log
    → IsSized r
    → d.curr_log_len + record_size < 2 ^ 31
    → write_to_log fs files d (image r)
      ≡ ok (
        leb max_log_record_num ((d.curr_log_len + record_size) / record_size),
        fs.append files log (image r),
        record d { curr_log_len = d.curr_log_len + record_size },
      )
unfolding write_to_log
write_one fs files d log r on z h =
    let fits : ltb (d.curr_log_len + record_size) (2 ^ 31) ≡ true = ground arith in
    rw (on, length-image r z, fits) refl

appended_bytes :
    (fs : FileSystem) (files : fs.Files) (log : FilePath) (b x : List ℕ)
    → fs.content files log ≡ some x
    → fs.content (fs.append files log b) log ≡ some (x ++ b)
appended_bytes fs files log b x there =
    rw (fs.content-append files log b log, same_path_self log, there) refl

pub append-records :
    (fs : FileSystem) (files : fs.Files) (d : DiskManager) (log : FilePath) (rs : List Record)
    → d.curr_log_fd ≡ append_to log
    → AllSized rs
    → d.curr_log_len + record_size * length rs < 2 ^ 31
    → Appended fs files d log rs
unfolding write_records images
append-records fs files d log [] on a h = record {
  files' = files;
  d' = d;
  written = refl;
  open_log = on;
  len = omega arith;
  holds = λ x there. there ∙ ap some (sym (append-nil x));
  others = λ q ne. refl;
}
append-records fs files d log (r ∷ rs) on (sized_cons z a) h =
    let files1 = fs.append files log (image r) in
    let d1 : DiskManager = record d { curr_log_len = d.curr_log_len + record_size } in
    let rest = append-records fs files1 d1 log rs on a (omega arith) in
    record {
      files' = rest.files';
      d' = rest.d';
      written = rw (write_one fs files d log r on z (omega arith)) rest.written;
      open_log = rest.open_log;
      len = omega (arith, rest.len);
      holds = λ x there.
          rest.holds (x ++ image r) (appended_bytes fs files log (image r) x there)
          ∙ ap some (append_assoc x (image r) (images rs));
      others = λ q ne.
          rest.others q ne
          ∙ fs.content-append files log (image r) q
          ∙ rw (other_path q log ne) refl;
    }
