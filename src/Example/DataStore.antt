-- ===== src/Example/DataStore.antt =====
-- engine_example/data_store.cc, class DataStore: values are appended to files of 100 MB at most, and
-- read back from their locations. A file descriptor is the path of the open file; strings are lists
-- of bytes.
pub mod Name
pub mod Slice
pub mod Append
pub mod Written
pub mod Init
use polardb_uncompleted.Base.{
  ℕ, ◌+◌, ◌%◌, ◌^◌, Bool, true, false, Option, none, some, List, [], ◌∷◌, ◌++◌, length, ltb, ◌==◌,
  if◌then◌else◌,
}
use polardb_uncompleted.Disk.Files.{FileSystem, FilePath}
use polardb_uncompleted.Disk.Image.{take, drop}
use polardb_uncompleted.Example.DoorPlate.{Location, no_location}
use polardb_uncompleted.Example.Util.{RetCode, succ, invalid_argument, io_error}
use polardb_uncompleted.Manifest.{decimal}

-- "DATA_"
abbrev pub data_file_prefix : List ℕ
data_file_prefix = b'D' ∷ b'A' ∷ b'T' ∷ b'A' ∷ b'_' ∷ []

abbrev pub single_file_size : ℕ
single_file_size = 104857600

-- `dir + "/" + kDataFilePrefix + std::to_string(fileno)`
unfoldable pub file_name : FilePath → ℕ → FilePath
unfolding decimal
file_name dir fileno = dir ++ ((b'/' ∷ data_file_prefix) ++ decimal 20 fileno [])

-- `fd` is `none` for -1.
pub record DataStore : Type 0 where
  pub fd : Option FilePath
  pub dir : FilePath
  pub next_location : Location

-- `DataStore(dir)`
abbrev pub new_store : FilePath → DataStore
new_store dir = record { fd = none; dir = dir; next_location = no_location }

-- `len` bytes from `offset` on, or what there is of them.
unfoldable pub slice : List ℕ → ℕ → ℕ → List ℕ
unfolding take drop
slice s offset len = take len (drop offset s)

module _ (fs : FileSystem) where
  open fs use {Files, content, create, append}

  unfoldable pub open_cur_file : Files → DataStore → Files × DataStore
  open_cur_file files d =
      let name : FilePath = file_name d.dir d.next_location.file_no in
      (create files name, record d { fd = some name })

  -- A file is full: the next one is opened.
  unfoldable pub next_file : Files → DataStore → Files × DataStore
  unfolding open_cur_file
  next_file files d = open_cur_file files (record d {
    next_location = record (d.next_location) {
      file_no = (d.next_location.file_no + 1) % 2 ^ 32;
      offset = 0;
    };
  })

  -- `FileAppend`, `none` for -1
  unfoldable pub file_append : Files → Option FilePath → List ℕ → Option Files
  file_append files none value = none
  file_append files (some fd) value = some (append files fd value)

  -- The end of `Append`; `none` is a location that is left as it is.
  unfoldable pub append_write :
      Files → DataStore → List ℕ → RetCode × Option Location × Files × DataStore
  unfolding file_append
  append_write files d value = elim (file_append files d.fd value) [
    | none ↦ (io_error, none, files, d)
    | some written ↦ (
      succ,
      some (record (d.next_location) { len = length value }),
      written,
      record d {
        next_location = record (d.next_location) {
          offset = (d.next_location.offset + length value) % 2 ^ 32;
        };
      },
    )
  ]

  unfoldable pub append_value :
      Files → DataStore → List ℕ → RetCode × Option Location × Files × DataStore
  append_value files d value =
      if ltb single_file_size (length value)
      then (invalid_argument, none, files, d)
      else if ltb single_file_size (d.next_location.offset + length value)
      then (let (files', d') = next_file files d in append_write files' d' value)
      else append_write files d value

  -- `none` does not return: at the end of a file `read` gives no byte, and the loop goes on.
  unfoldable pub read_value : Files → DataStore → Location → Option (RetCode × Option (List ℕ))
  read_value files d l = elim (content files (file_name d.dir l.file_no)) [
    | none ↦ some (io_error, none)
    | some s ↦
        let got : List ℕ = slice s l.offset l.len in
        if length got == l.len then some (succ, some got) else none
  ]
