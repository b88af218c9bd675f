-- ===== src/DbSystem/SortedFile.antt =====
-- The sorted file that `dump_all` writes.
use polardb_uncompleted.Base.{
  ℕ, ◌≡◌, ◌≢◌, refl, ap, ◌∙◌, subst, inl, inr, some, List, [], ◌∷◌, ◌++◌, map, arith, length,
  Bool-cases,
}
use polardb_uncompleted.Base.Run.{ok}
use polardb_uncompleted.Buffer.{Buffer}
use polardb_uncompleted.DbSystem.Call.{at_once, at_once-some, steps_back}
use polardb_uncompleted.DbSystem.Dump.{Dumping, last_of, dump_records, dump_all}
use polardb_uncompleted.Disk.{DiskManager, concat, dumpint_keys, end_dumping}
use polardb_uncompleted.Disk.Files.{FileSystem, FilePath}
use polardb_uncompleted.Disk.Paths.{path_in, same_path_self}
use polardb_uncompleted.IndexHashMap.Hash.{bytes_of}
use polardb_uncompleted.IndexHashMap.{KeyIdxPair}
use polardb_uncompleted.Disk.Switch.{removed_died}
use polardb_uncompleted.Disk.Paths.{died_path}
use polardb_uncompleted.Manifest.Restart.{insert_record-others}
use polardb_uncompleted.Utils.{last_byte}
use polardb_uncompleted.Disk.{died_log, exists}
use polardb_uncompleted.Manifest.{manifist_file, sst_name, insert_record}
use polardb_uncompleted.DbSystem.Dumped.{
  slot_values, dump_records-Appends, sst_differs, path_in-differs, sst_path,
}

-- The bytes of a sorted file: the number of records, the keys, and the values.
unfoldable pub sorted_bytes : Buffer → List KeyIdxPair → List ℕ
sorted_bytes b kvs =
    (bytes_of 4 (length kvs) ++ concat (map (λ (x : KeyIdxPair). bytes_of 8 x.key) kvs))
    ++ slot_values b kvs

dumped_keys :
    (fs : FileSystem) (files : fs.Files) (d : DiskManager) (b n : ℕ) (kvs : List KeyIdxPair)
    → last_byte d.basepath ≡ ok b
    → (files' : fs.Files) × (dumpint_keys fs files d (sst_name n) kvs
        ≡ ok (
          files',
          record d { dumping_sstable_file_fd = some (path_in d.basepath b (sst_name n)) },
        ))
      × (fs.content files' (path_in d.basepath b (sst_name n))
          ≡ some
              (bytes_of 4 (length kvs) ++ concat (map (λ (x : KeyIdxPair). bytes_of 8 x.key) kvs)))
unfolding dumpint_keys
dumped_keys fs files d b n kvs base =
    let p = path_in d.basepath b (sst_name n) in
    let count = bytes_of 4 (length kvs) in
    let keys = concat (map (λ (x : KeyIdxPair). bytes_of 8 x.key) kvs) in
    let emptied = fs.create_empty files p in
    let self = same_path_self p in
    (
      fs.append (fs.append emptied p count) p keys,
      rw (sst_path d.basepath b n base) refl,
      fs.content-append (fs.append emptied p count) p keys p
          ∙ rw
              (
                self,
                fs.content-append emptied p count p,
                self,
                fs.content-create_empty files p p,
                self,
              )
              refl,
    )

ended :
    (fs : FileSystem) (files files' : fs.Files) (d d' : DiskManager) (b : ℕ) (q : FilePath)
    → last_byte d.basepath ≡ ok b
    → q ≢ path_in d.basepath b died_log
    → end_dumping fs files d ≡ ok (files', d')
    → fs.content files' q ≡ fs.content files q
unfolding end_dumping
ended fs files files' d d' b q base ne h =
    let died = path_in d.basepath b died_log in
    let h' = rw (died_path d.basepath b base) at h in
    elim (Bool-cases (exists fs files died)) [
      | inl there ↦
          let h1 = rw there at h' in
          let e : fs.remove files died ≡ files' = cc in rw (← e) (removed_died fs files d b q ne)
      | inr gone ↦ let h1 = rw gone at h' in let e : files ≡ files' = cc in rw (← e) refl
    ]

-- When `dump_all` has returned, the sorted file, whose number is the number of files listed before,
-- has the number of records, then the keys and then the values of their slots, both in the order of
-- the list. The directory has a path.
pub dump_all-sorted_bytes :
    (fs : FileSystem) (unset : List ℕ) (s s' : Dumping fs) (kvs : List KeyIdxPair) (b : ℕ)
    → last_byte s.disk.basepath ≡ ok b
    → dump_all fs unset s kvs ≡ ok (some s')
    → fs.content s'.files (path_in s.disk.basepath b (sst_name (length s.manifester.all_records)))
      ≡ some (sorted_bytes s.buffer kvs)
unfolding dump_all sorted_bytes
dump_all-sorted_bytes fs unset s s' [] b base h = absurd cc
dump_all-sorted_bytes fs unset s s' (kv ∷ kvs) b base h =
    let n = length s.manifester.all_records in
    let all = kv ∷ kvs in
    let dir = s.disk.basepath in
    let p = path_in dir b (sst_name n) in
    let keyed = dumped_keys fs s.files s.disk b n all base in
    let opened : DiskManager = record (s.disk) { dumping_sstable_file_fd = some p } in
    let h0 = rw keyed.1 at h in
    let (s1, looped, h1) =
      steps_back (dump_records fs (record s { files = keyed.0; disk = opened }) 0 all) _ s' h0 in
    let a =
      dump_records-Appends fs (record s { files = keyed.0; disk = opened }) s1 0 all p _ refl
        keyed.2 looped in
    let ((listed, manifester), ins, h2) =
      steps_back
        (at_once (
          insert_record fs unset s1.files s1.disk s1.manifester 0 kv.key (last_of kv kvs).key
            (length all)))
        _ s' h1 in
    let ((files3, closed), end, h3) =
      steps_back (at_once (end_dumping fs listed s1.disk)) _ s' h2 in
    let same_dir : s1.disk.basepath ≡ dir = ap (λ (d : DiskManager). d.basepath) a.disk in
    let base1 : last_byte s1.disk.basepath ≡ ok b = ap last_byte same_dir ∙ base in
    let not_manifist : p ≢ path_in s1.disk.basepath b manifist_file =
      rw same_dir
        (path_in-differs dir b (sst_name n) manifist_file (sst_differs n b'm' _ (omega arith))) in
    let not_died : p ≢ path_in s1.disk.basepath b died_log =
      rw same_dir
        (path_in-differs dir b (sst_name n) died_log (sst_differs n b'd' _ (omega arith))) in
    let final : record s1 { files = files3; disk = closed; manifester = manifester } ≡ s' = cc h3 in
    subst (λ (r : Dumping fs). fs.content r.files p ≡ some (sorted_bytes s.buffer all)) final
      (ended fs listed files3 s1.disk closed b p base1 not_died
          (at_once-some _ (files3, closed) end)
        ∙ insert_record-others fs s1.files listed s1.disk b s1.manifester manifester unset 0 kv.key
            (last_of kv kvs).key (length all) p base1 not_manifist
            (at_once-some _ (listed, manifester) ins)
        ∙ a.bytes)
