-- ===== src/Manifest.antt =====
-- engine_race/DBSystem/DBSystem.cpp, class Manifester, with `write_to_manifist` and
-- `recover_manifist` of io.cpp: the list of sorted files, in memory and in the file "manifist".
pub mod Image
pub mod Entries
pub mod Name
pub mod Restart
use Image.{MfRecord, file_name_size, mf_record_size, image, of_image}
use polardb_uncompleted.Base.{
  ℕ, zero, suc, ◌+◌, ◌/◌, ◌%◌, ◌^◌, Bool, Option, none, some, List, [], ◌∷◌, ◌++◌, map, ◌==◌, ltb,
  length, replicate, write, if◌then◌else◌,
}
use polardb_uncompleted.Base.Run.{Run, ok, assertion_failed, undefined, ◌>>=◌}
use polardb_uncompleted.Disk.{DiskManager, concat}
use polardb_uncompleted.Disk.Files.{FileSystem, bytes_or_nil}
use polardb_uncompleted.Disk.Image.{take, drop}
use polardb_uncompleted.Utils.{path_join}

abbrev pub manifist_file : List ℕ
manifist_file = b'm' ∷ b'a' ∷ b'n' ∷ b'i' ∷ b'f' ∷ b'i' ∷ b's' ∷ b't' ∷ []

-- `MAX_LOG_RECORD_NUM`, the length of `record_cnt`
abbrev pub max_levels : ℕ
max_levels = 8192

-- The most blocks that one `writev` takes on Linux (IOV_MAX).
abbrev pub iov_max : ℕ
iov_max = 1024

pub record Manifester : Type 0 where
  pub all_records : List MfRecord
  pub record_cnt : ℕ → ℕ

-- A `size_t` has at most 20 decimal digits.
unfoldable pub decimal : ℕ → ℕ → List ℕ → List ℕ
decimal zero n s = s
decimal (suc digits) n s =
    let rest : List ℕ = decimal digits (n / 10) ((b'0' + n % 10) ∷ s) in
    if ltb n 10 then (b'0' + n) ∷ s else rest

-- The name of sorted file number `n`: `sstream<<n<<SST_FILE_APPENDIX`.
unfoldable pub sst_name : ℕ → List ℕ
unfolding decimal
sst_name n = decimal 20 n (b'.' ∷ b's' ∷ b's' ∷ b't' ∷ [])

-- `record_cnt[lvl]++`; the last half of the words are negative levels.
unfoldable pub count_level : (ℕ → ℕ) → ℕ → Run (ℕ → ℕ)
count_level cnt lvl = if ltb lvl max_levels then ok (write cnt lvl (suc (cnt lvl))) else undefined

-- The for loop of the constructor.
unfoldable pub count_levels : List MfRecord → (ℕ → ℕ) → Run (ℕ → ℕ)
unfolding count_level
count_levels [] cnt = ok cnt
count_levels (r ∷ rs) cnt = count_level cnt r.lvl >>= λ cnt'. count_levels rs cnt'

abbrev read_block : List ℕ → List ℕ → List MfRecord → List MfRecord
read_block [] tmp rest = []
read_block (b ∷ s) tmp rest = of_image tmp ∷ rest

-- The while loop of `recover_manifist`: a block that is short leaves the rest of `tmp` as it was.
-- Each round takes a byte at least, so one round more than the bytes is enough.
unfoldable pub recover_loop : ℕ → List ℕ → List ℕ → List MfRecord
unfolding take drop
recover_loop zero s tmp = []
recover_loop (suc rounds) s tmp =
    let block : List ℕ = take mf_record_size s in
    let tmp' : List ℕ = take mf_record_size (block ++ drop (length block) tmp) in
    read_block block tmp' (recover_loop rounds (drop mf_record_size s) tmp')

-- `newmfR`; `unset` is what `file_name` has before the name is copied into it.
unfoldable pub mf_record : List ℕ → ℕ → ℕ → ℕ → ℕ → ℕ → MfRecord
unfolding sst_name
mf_record unset n lvl kstart kend nrecord = record {
  lvl = lvl;
  file_name = take file_name_size (sst_name n ++ drop (length (sst_name n)) unset);
  kstart = kstart;
  kend = kend;
  nrecord = nrecord;
}

module _ (fs : FileSystem) where
  open fs use {Files, content, create_empty, append}

  unfoldable pub recover_manifist : Files → DiskManager → List MfRecord → Run (List MfRecord)
  unfolding recover_loop
  recover_manifist files d all_records = path_join (d.basepath ∷ manifist_file ∷ []) >>= λ filename.
      elim (content files filename) [
        | none ↦ ok all_records
        | some s ↦ ok (all_records ++ recover_loop (suc (length s)) s (replicate mf_record_size 0))
      ]

  -- A `writev` of more than `iov_max` blocks writes nothing.
  unfoldable pub write_to_manifist : Files → DiskManager → List (List ℕ) → Run Files
  write_to_manifist files d job = path_join (d.basepath ∷ manifist_file ∷ []) >>= λ filename.
      let emptied : Files = create_empty files filename in
      ok (if ltb iov_max (length job) then emptied else append emptied filename (concat job))

  -- `Manifester()`
  unfoldable pub new : Files → DiskManager → Run Manifester
  unfolding recover_manifist count_levels
  new files d = recover_manifist files d [] >>= λ all_records.
      count_levels all_records (λ lvl. 0) >>= λ cnt.
      ok (record { all_records = all_records; record_cnt = cnt })

  unfoldable pub insert_record :
      List ℕ → Files → DiskManager → Manifester → ℕ → ℕ → ℕ → ℕ → Run (Files × Manifester)
  unfolding mf_record write_to_manifist count_level
  insert_record unset files d m lvl kstart kend nrecord =
      let r : MfRecord = mf_record unset (length m.all_records) lvl kstart kend nrecord in
      write_to_manifist files d (map image m.all_records ++ image r ∷ []) >>= λ files'.
      count_level m.record_cnt lvl >>= λ cnt.
      ok (files', record { all_records = m.all_records ++ r ∷ []; record_cnt = cnt })
