-- ===== src/Manifest/Restart.antt =====
-- A restart reads the list of sorted files back.
use polardb_uncompleted.Base.{
  ℕ, suc, ◌^◌, ◌≤◌, ◌<◌, ◌≡◌, ◌≢◌, refl, ap, ◌∙◌, inl, inr, true, false, some, List, [], ◌∷◌, ◌++◌,
  ltb, length, length-append, map, replicate, write, Bool-cases, arith,
}
use polardb_uncompleted.Base.Run.{ok}
use polardb_uncompleted.Disk.{DiskManager, concat}
use polardb_uncompleted.Disk.Files.{FileSystem, FilePath}
use polardb_uncompleted.Disk.Paths.{path_in, path_join-in, same_path_self, other_path}
use polardb_uncompleted.Manifest.{
  Manifester, manifist_file, max_levels, iov_max, count_level, count_levels, recover_manifist,
  write_to_manifist, new, mf_record, insert_record,
}
use polardb_uncompleted.Manifest.Image.{MfRecord, file_name_size, mf_record_size, image}
use polardb_uncompleted.Utils.{last_byte, path_join}
use polardb_uncompleted.Manifest.Entries.{
  sized_nil, AllSized, snoc-AllSized, map-snoc, length-images, recover_loop-images,
  count_levels-snoc,
}
use polardb_uncompleted.Manifest.Name.{mf_record-IsSized}

manifist_path :
    (base : FilePath) (b : ℕ)
    → last_byte base ≡ ok b
    → path_join (base ∷ manifist_file ∷ []) ≡ ok (path_in base b manifist_file)
unfolding last_byte
manifist_path base b h = path_join-in base b b't' manifist_file h refl

abbrev pub no_counts : ℕ → ℕ
no_counts lvl = 0

module _ (fs : FileSystem) (files : fs.Files) (d : DiskManager) (b : ℕ)
    (base : last_byte d.basepath ≡ ok b) where
  abbrev manifist : FilePath
  manifist = path_in d.basepath b manifist_file

  -- The constructor reads the entries that the file holds.
  new-images :
      (rs : List MfRecord) (cnt : ℕ → ℕ)
      → fs.content files manifist ≡ some (concat (map image rs))
      → AllSized rs
      → count_levels rs no_counts ≡ ok cnt
      → new fs files d ≡ ok (record { all_records = rs; record_cnt = cnt })
  unfolding new recover_manifist
  new-images rs cnt holds a counted =
      let s = concat (map image rs) in
      let read_back =
        recover_loop-images (suc (length s)) rs (replicate mf_record_size 0) a
          (omega (arith, length-images rs a)) in
      rw (manifist_path d.basepath b base, holds, read_back, counted) refl

  written_bytes :
      (job : List (List ℕ))
      → length job ≤ iov_max
      → (files' : fs.Files) × (write_to_manifist fs files d job ≡ ok files')
        × (fs.content files' manifist ≡ some (concat job))
  unfolding write_to_manifist
  written_bytes job h =
      let fits : ltb iov_max (length job) ≡ false = ground arith in
      let emptied = fs.create_empty files manifist in
      (
        fs.append emptied manifist (concat job),
        rw (manifist_path d.basepath b base, fits) refl,
        fs.content-append emptied manifist (concat job) manifist
            ∙ rw
                (
                  same_path_self manifist,
                  fs.content-create_empty files manifist manifist,
                  same_path_self manifist,
                )
                refl,
      )

  lost_bytes :
      (job : List (List ℕ))
      → iov_max < length job
      → (files' : fs.Files) × (write_to_manifist fs files d job ≡ ok files')
        × (fs.content files' manifist ≡ some [])
  unfolding write_to_manifist
  lost_bytes job h =
      let over : ltb iov_max (length job) ≡ true = ground arith in
      (
        fs.create_empty files manifist,
        rw (manifist_path d.basepath b base, over) refl,
        fs.content-create_empty files manifist manifist ∙ rw (same_path_self manifist) refl,
      )

-- Only the manifest changes.
pub insert_record-others :
    (fs : FileSystem) (files files' : fs.Files) (d : DiskManager) (b : ℕ) (m m' : Manifester)
    (unset : List ℕ) (lvl kstart kend nrecord : ℕ) (q : FilePath)
    → last_byte d.basepath ≡ ok b
    → q ≢ path_in d.basepath b manifist_file
    → insert_record fs unset files d m lvl kstart kend nrecord ≡ ok (files', m')
    → fs.content files' q ≡ fs.content files q
unfolding insert_record write_to_manifist count_level
insert_record-others fs files files' d b m m' unset lvl kstart kend nrecord q base ne h =
    let mf = path_in d.basepath b manifist_file in
    let r = mf_record unset (length m.all_records) lvl kstart kend nrecord in
    let job = map image m.all_records ++ image r ∷ [] in
    let emptied = fs.create_empty files mf in
    let cleared = fs.content-create_empty files mf q in
    let wrote = fs.content-append emptied mf (concat job) q in
    let other = other_path q mf ne in
    let h' = rw (manifist_path d.basepath b base) at h in
    elim (Bool-cases (ltb lvl max_levels)) [
      | inr out ↦ let h1 = rw out at h' in absurd cc
      | inl level ↦
          let h1 = rw level at h' in
          elim (Bool-cases (ltb iov_max (length job))) [
            | inl over ↦
                let h2 = rw over at h1 in
                let e : emptied ≡ files' = cc in rw (← e) (cleared ∙ rw other refl)
            | inr fits ↦
                let h2 = rw fits at h1 in
                let e : fs.append emptied mf (concat job) ≡ files' = cc in
                rw (← e) (wrote ∙ rw (other, cleared, other) refl)
          ]
    ]

length-map-image : (rs : List MfRecord) → length (map image rs) ≡ length rs
length-map-image [] = refl
length-map-image (r ∷ rs) = ap suc (length-map-image rs)

-- After an `insert_record` that keeps the list at 1024 entries or fewer, the `Manifester` that a
-- restart builds from the file is the one in memory: the same entries in the same order, and the
-- same count for each level. The counts were those of the entries before, the level is one of the
-- 8192, and the fields fit their widths.
pub insert_record-new :
    (fs : FileSystem) (files : fs.Files) (d : DiskManager) (b : ℕ) (m : Manifester) (unset : List ℕ)
    (lvl kstart kend nrecord : ℕ)
    → last_byte d.basepath ≡ ok b
    → AllSized m.all_records
    → count_levels m.all_records no_counts ≡ ok m.record_cnt
    → length m.all_records < iov_max
    → length unset ≡ file_name_size
    → lvl < max_levels
    → kstart < 2 ^ 64
    → kend < 2 ^ 64
    → nrecord < 2 ^ 32
    → (files' : fs.Files) × (m' : Manifester) × (insert_record fs unset files d m lvl kstart kend
          nrecord
        ≡ ok (files', m'))
      × (m'.all_records
          ≡ m.all_records ++ mf_record unset (length m.all_records) lvl kstart kend nrecord ∷ [])
      × (new fs files' d ≡ ok m')
unfolding insert_record
insert_record-new fs files d b m unset lvl kstart kend nrecord base a counted few u l s e n =
    let r = mf_record unset (length m.all_records) lvl kstart kend nrecord in
    let z =
      mf_record-IsSized unset (length m.all_records) lvl kstart kend nrecord u (omega arith) s e
        n in
    let job = map image m.all_records ++ image r ∷ [] in
    let (files', wrote, holds) = written_bytes fs files d b base job (
      omega (
        arith,
        length-append (map image m.all_records) (image r ∷ []),
        length-map-image m.all_records,
      )) in
    let cnt : ℕ → ℕ = write m.record_cnt lvl (suc (m.record_cnt lvl)) in
    let in_range : ltb lvl max_levels ≡ true = ground arith in
    let one : count_level m.record_cnt lvl ≡ ok cnt = rw (count_level, in_range) refl in
    let same_lvl : r.lvl ≡ lvl = unfold mf_record in refl in
    (
      files',
      record { all_records = m.all_records ++ r ∷ []; record_cnt = cnt },
      rw (wrote, one) refl,
      refl,
      new-images fs files' d b base (m.all_records ++ r ∷ []) cnt
          (holds ∙ ap (λ (t : List (List ℕ)). some (concat t)) (map-snoc m.all_records r))
          (snoc-AllSized m.all_records r a z)
          (count_levels-snoc m.all_records r no_counts m.record_cnt cnt counted (rw same_lvl one)),
    )

-- After an `insert_record` that makes the list longer than 1024 entries, the manifest file is empty,
-- and a restart finds no entry at all, while the list in memory has them all. The level is one of
-- the 8192.
pub insert_record-lost :
    (fs : FileSystem) (files : fs.Files) (d : DiskManager) (b : ℕ) (m : Manifester) (unset : List ℕ)
    (lvl kstart kend nrecord : ℕ)
    → last_byte d.basepath ≡ ok b
    → iov_max ≤ length m.all_records
    → lvl < max_levels
    → (files' : fs.Files) × (m' : Manifester) × (insert_record fs unset files d m lvl kstart kend
          nrecord
        ≡ ok (files', m'))
      × (length m'.all_records ≡ suc (length m.all_records))
      × (new fs files' d ≡ ok (record { all_records = []; record_cnt = no_counts }))
unfolding insert_record
insert_record-lost fs files d b m unset lvl kstart kend nrecord base many l =
    let r = mf_record unset (length m.all_records) lvl kstart kend nrecord in
    let job = map image m.all_records ++ image r ∷ [] in
    let (files', wrote, holds) = lost_bytes fs files d b base job (
      omega (
        arith,
        length-append (map image m.all_records) (image r ∷ []),
        length-map-image m.all_records,
      )) in
    let cnt : ℕ → ℕ = write m.record_cnt lvl (suc (m.record_cnt lvl)) in
    let in_range : ltb lvl max_levels ≡ true = ground arith in
    let one : count_level m.record_cnt lvl ≡ ok cnt = rw (count_level, in_range) refl in
    (
      files',
      record { all_records = m.all_records ++ r ∷ []; record_cnt = cnt },
      rw (wrote, one) refl,
      omega (arith, length-append m.all_records (r ∷ [])),
      new-images fs files' d b base [] no_counts holds sized_nil (unfold count_levels in refl),
    )
