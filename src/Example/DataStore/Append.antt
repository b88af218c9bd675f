-- ===== src/Example/DataStore/Append.antt =====
-- What `Append` stores is what `Read` returns, and later appends keep it.
use polardb_uncompleted.Base.{
  ℕ, ◌+◌, ◌%◌, ◌^◌, ◌≤◌, ◌<◌, ◌≡◌, ◌≢◌, refl, ap, ◌∙◌, sym, subst, false, none, some, List, ◌++◌,
  length, length-append, ==_refl, ℕ_discrete, arith,
}
use polardb_uncompleted.Disk.Files.{FileSystem, FilePath, same_path}
use polardb_uncompleted.Disk.Paths.{same_path_self, other_path}
use polardb_uncompleted.Example.DataStore.{
  DataStore, single_file_size, file_name, slice, append_write, read_value,
}
use polardb_uncompleted.Example.DataStore.Name.{file_name-ne}
use polardb_uncompleted.Example.DataStore.Slice.{length-slice, slice-append, slice_appended}
use polardb_uncompleted.Example.DoorPlate.{Location}
use polardb_uncompleted.Example.Util.{succ}

module _ (fs : FileSystem) where
  -- The current file is open, its length is the next offset, and no file has a higher number.
  pub record IsValid (files : fs.Files) (d : DataStore) : Type 0 where
    pub fd : d.fd ≡ some (file_name d.dir d.next_location.file_no)
    pub number : d.next_location.file_no < 2 ^ 32
    pub bytes : List ℕ
    pub content : fs.content files (file_name d.dir d.next_location.file_no) ≡ some bytes
    pub end : length bytes ≡ d.next_location.offset
    pub bound : d.next_location.offset ≤ single_file_size
    pub later :
        (n : ℕ)
        → d.next_location.file_no < n
        → n < 2 ^ 32
        → fs.content files (file_name d.dir n) ≡ none

  -- The bytes of a location are in its file.
  pub record Stored (files : fs.Files) (d : DataStore) (l : Location) : Type 0 where
    pub number : l.file_no < 2 ^ 32
    pub bytes : List ℕ
    pub content : fs.content files (file_name d.dir l.file_no) ≡ some bytes
    pub fits : l.offset + l.len ≤ length bytes

  -- The locations that could be read can still be read, with the same result.
  pub record Keeps (files : fs.Files) (d : DataStore) (files' : fs.Files) (d' : DataStore)
      : Type 0 where
    pub stored : (l : Location) → Stored files d l → Stored files' d' l
    pub same :
        (l : Location) → Stored files d l → read_value fs files' d' l ≡ read_value fs files d l

  pub read_stored :
      (files : fs.Files) (d : DataStore) (l : Location) (s : List ℕ)
      → fs.content files (file_name d.dir l.file_no) ≡ some s
      → l.offset + l.len ≤ length s
      → read_value fs files d l ≡ some (succ, some (slice s l.offset l.len))
  unfolding read_value
  read_stored files d l s at fits =
      rw (read_value, at) (rw (length-slice s l.offset l.len fits, ==_refl l.len) refl)

  module _ (files : fs.Files) (d : DataStore) (valid : IsValid files d) where
    abbrev pub current : ℕ
    current = d.next_location.file_no

    abbrev pub name : FilePath
    name = file_name d.dir current

    pub differs : (n : ℕ) → n < 2 ^ 32 → n ≢ current → same_path (file_name d.dir n) name ≡ false
    differs n h ne =
        other_path (file_name d.dir n) name (file_name-ne d.dir n current h valid.number ne)

    module _ (value : List ℕ) where
      abbrev pub written : fs.Files
      written = fs.append files name value

      content_here : fs.content written name ≡ some (valid.bytes ++ value)
      content_here =
          fs.content-append files name value name ∙ rw (same_path_self name, valid.content) refl

      content_there :
          (n : ℕ)
          → n < 2 ^ 32
          → n ≢ current
          → fs.content written (file_name d.dir n) ≡ fs.content files (file_name d.dir n)
      content_there n h ne =
          fs.content-append files name value (file_name d.dir n) ∙ rw (differs n h ne) refl

      -- A location that is stored, before and after.
      pub kept :
          (d' : DataStore) (l : Location)
          → d'.dir ≡ d.dir
          → Stored files d l
          → Stored written d' l × (read_value fs written d' l ≡ read_value fs files d l)
      kept d' l dir z = elim (ℕ_discrete l.file_no current) [
        | no ne ↦
            let same : fs.content written (file_name d'.dir l.file_no) ≡ some z.bytes =
              rw dir (content_there l.file_no z.number ne ∙ z.content) in
            (
              record { number = z.number; bytes = z.bytes; content = same; fits = z.fits },
              read_stored written d' l z.bytes same z.fits
                  ∙ sym (read_stored files d l z.bytes z.content z.fits),
            )
        | yes e ↦
            let here : fs.content files (file_name d.dir l.file_no) ≡ some valid.bytes =
              rw e valid.content in
            let bytes : z.bytes ≡ valid.bytes = cc (here, z.content) in
            let fits : l.offset + l.len ≤ length valid.bytes = rw (← bytes) z.fits in
            let more : l.offset + l.len ≤ length (valid.bytes ++ value) =
              omega (arith, length-append valid.bytes value) in
            let same : fs.content written (file_name d'.dir l.file_no)
                ≡ some (valid.bytes ++ value) =
              rw (dir, e) content_here in
            (
              record {
                number = z.number;
                bytes = valid.bytes ++ value;
                content = same;
                fits = more;
              },
              read_stored written d' l (valid.bytes ++ value) same more
                  ∙ ap (λ (s : List ℕ). some (succ, some s))
                      (slice-append valid.bytes value l.offset l.len fits)
                  ∙ sym (read_stored files d l valid.bytes here fits),
            )
      ]

      abbrev pub placed_at : Location
      placed_at = record (d.next_location) { len = length value }

      abbrev pub grown : DataStore
      grown = record d {
        next_location = record (d.next_location) {
          offset = (d.next_location.offset + length value) % 2 ^ 32;
        };
      }

      module _ (room : d.next_location.offset + length value ≤ single_file_size) where
        pub grows : append_write fs files d value ≡ (succ, some placed_at, written, grown)
        unfolding append_write
        grows = rw valid.fd refl

        pub grown-IsValid : IsValid written grown
        grown-IsValid = record {
          fd = valid.fd;
          number = valid.number;
          bytes = valid.bytes ++ value;
          content = content_here;
          end = omega (arith, valid.end, length-append valid.bytes value);
          bound = omega arith;
          later = λ n above h. content_there n h (λ e. omega (arith, e)) ∙ valid.later n above h;
        }

        pub grown-Stored : Stored written grown placed_at
        grown-Stored = record {
          number = valid.number;
          bytes = valid.bytes ++ value;
          content = content_here;
          fits = omega (arith, valid.end, length-append valid.bytes value);
        }

        pub grown-read : read_value fs written grown placed_at ≡ some (succ, some value)
        unfolding grown-Stored
        grown-read =
            read_stored written grown placed_at (valid.bytes ++ value) content_here
              grown-Stored.fits
            ∙ ap (λ (s : List ℕ). some (succ, some s))
                (subst (λ (n : ℕ). slice (valid.bytes ++ value) n (length value) ≡ value) valid.end
                  (slice_appended valid.bytes value))
