-- ===== src/Example/DataStore/Init.antt =====
-- engine_example/data_store.cc, `Init`: the store goes on behind the last data file.
pub mod Restart
use polardb_uncompleted.Base.{
  ℕ, ◌%◌, ◌^◌, Bool, true, false, not, Option, none, some, List, [], ◌∷◌, length, ltb,
  if◌then◌else◌,
}
use polardb_uncompleted.Disk.Files.{FileSystem, FilePath, same_path as same_bytes}
use polardb_uncompleted.Disk.Image.{take, drop}
use polardb_uncompleted.Example.DataStore.{DataStore, data_file_prefix, file_name, open_cur_file}
use polardb_uncompleted.Example.Util.{RetCode, succ, io_error}

-- `GetFileLength` as an `int`, and 0 where it is not positive or there is no file.
abbrev pub cur_offset : Option (List ℕ) → ℕ
cur_offset none = 0
cur_offset (some s) = let len : ℕ = length s % 2 ^ 32 in if ltb len (2 ^ 31) then len else 0

-- `std::stoul` and `std::stoi` of a text, `none` when it starts with no number; `stoi` throws from
-- 2 ^ 31 on.
module _ (stoul : List ℕ → Option ℕ) where
  abbrev pub larger : Option ℕ → ℕ → Option ℕ
  larger none last_no = none
  larger (some n) last_no =
      if ltb last_no n then if ltb n (2 ^ 31) then some n else none else some last_no

  -- The for loop over the names in the directory; `none` throws.
  unfoldable pub last_file_no : List (List ℕ) → ℕ → Option ℕ
  unfolding take drop
  last_file_no [] last_no = some last_no
  last_file_no (it ∷ files) last_no = elim (same_bytes (take 5 it) data_file_prefix) [
    | false ↦ last_file_no files last_no
    | true ↦ elim (larger (stoul (drop 5 it)) last_no) [
      | none ↦ none
      | some n ↦ last_file_no files n
    ]
  ]

  module _ (fs : FileSystem) where
    open fs use {Files, content}

    abbrev pub init_at : Files → DataStore → Option ℕ → Option (RetCode × Files × DataStore)
    init_at files d none = none
    init_at files d (some last_no) =
        let offset : ℕ = cur_offset (content files (file_name d.dir last_no)) in
        let (files', d') = open_cur_file fs files (record d {
          next_location = record (d.next_location) { file_no = last_no; offset = offset };
        }) in
        some (succ, files', d')

    -- `names` is what `GetDirFiles` gives, `none` when it fails; the directory exists or is made.
    unfoldable pub init :
        Files → DataStore → Option (List (List ℕ)) → Option (RetCode × Files × DataStore)
    unfolding last_file_no open_cur_file
    init files d none = some (io_error, files, d)
    init files d (some names) = init_at files d (last_file_no names 0)
