-- ===== src/Example/DataStore/Written.antt =====
-- `Append` with the change to the next file.
use polardb_uncompleted.Base.{
  ℕ, ◌+◌, ◌%◌, ◌^◌, ◌≤◌, ◌<◌, ◌≡◌, ◌≢◌, refl, ◌∙◌, sym, inl, inr, false, none, some, List, [],
  length, ltb, Bool-cases, ℕ_discrete, arith,
}
use polardb_uncompleted.Disk.Files.{FileSystem}
use polardb_uncompleted.Disk.Paths.{same_path_self, other_path}
use polardb_uncompleted.Example.DataStore.{
  DataStore, single_file_size, file_name, next_file, append_value, read_value,
}
use polardb_uncompleted.Example.DataStore.Append.{
  IsValid, Stored, Keeps, read_stored, kept, placed_at, grown, written, grows, grown-IsValid,
  grown-Stored, grown-read,
}
use polardb_uncompleted.Example.DataStore.Name.{file_name-ne}
use polardb_uncompleted.Example.DoorPlate.{Location}
use polardb_uncompleted.Example.Util.{succ}

module _ (fs : FileSystem) (files : fs.Files) (d : DataStore) where
  -- What an `Append` that succeeds does.
  pub record Appended (value : List ℕ) (l : Location) (files' : fs.Files) (d' : DataStore)
      : Type 0 where
    pub dir : d'.dir ≡ d.dir
    pub valid : IsValid fs files' d'
    pub stored : Stored fs files' d' l
    pub reads : read_value fs files' d' l ≡ some (succ, some value)
    pub keeps : Keeps fs files d files' d'

  -- The manager of the next file.
  abbrev turned : DataStore
  turned = record d {
    next_location = record (d.next_location) { file_no = d.next_location.file_no + 1; offset = 0 };
    fd = some (file_name d.dir (d.next_location.file_no + 1));
  }

  abbrev opened : fs.Files
  opened = fs.create files (file_name d.dir (d.next_location.file_no + 1))

  module _ (valid : IsValid fs files d) where
    -- The value fits into the current file.
    grown-Appended :
        (value : List ℕ)
        → d.next_location.offset + length value ≤ single_file_size
        → Appended value
            (placed_at fs files d valid value)
            (written fs files d valid value)
            (grown fs files d valid value)
    grown-Appended value room = record {
      dir = refl;
      valid = grown-IsValid fs files d valid value room;
      stored = grown-Stored fs files d valid value room;
      reads = grown-read fs files d valid value room;
      keeps = record {
        stored = λ l z. (kept fs files d valid value (grown fs files d valid value) l refl z).0;
        same = λ l z. (kept fs files d valid value (grown fs files d valid value) l refl z).1;
      };
    }

    module _ (more : d.next_location.file_no + 1 < 2 ^ 32) where
      turns : next_file fs files d ≡ (opened, turned)
      unfolding next_file
      turns =
          let no_wrap : (d.next_location.file_no + 1) % 2 ^ 32 ≡ d.next_location.file_no + 1 =
            omega arith in
          rw no_wrap refl

      opened_there :
          (n : ℕ)
          → n < 2 ^ 32
          → n ≢ d.next_location.file_no + 1
          → fs.content opened (file_name d.dir n) ≡ fs.content files (file_name d.dir n)
      opened_there n h ne =
          let name = file_name d.dir (d.next_location.file_no + 1) in
          fs.content-create files name (file_name d.dir n)
          ∙ rw
              (other_path (file_name d.dir n) name
                (file_name-ne d.dir n (d.next_location.file_no + 1) h more ne))
              refl

      turned-IsValid : IsValid fs opened turned
      turned-IsValid =
          let name = file_name d.dir (d.next_location.file_no + 1) in
          let gone = valid.later (d.next_location.file_no + 1) (omega arith) more in
          record {
            fd = refl;
            number = more;
            bytes = [];
            content = fs.content-create files name name ∙ rw (same_path_self name, gone) refl;
            end = refl;
            bound = omega arith;
            later = λ n above h.
                opened_there n h (λ e. omega (arith, e)) ∙ valid.later n (omega (arith, above)) h;
          }

      -- The location is in another file than the one that is opened.
      turned_stored :
          (l : Location) (z : Stored fs files d l)
          → fs.content opened (file_name d.dir l.file_no) ≡ some z.bytes
      turned_stored l z = elim (ℕ_discrete l.file_no (d.next_location.file_no + 1)) [
        | yes e ↦
            let gone : fs.content files (file_name d.dir l.file_no) ≡ none =
              rw e (valid.later (d.next_location.file_no + 1) (omega arith) more) in
            absurd (cc (gone, z.content))
        | no ne ↦ opened_there l.file_no z.number ne ∙ z.content
      ]

      turned-Keeps : Keeps fs files d opened turned
      turned-Keeps = record {
        stored = λ l z. record {
          number = z.number;
          bytes = z.bytes;
          content = turned_stored l z;
          fits = z.fits;
        };
        same = λ l z.
            read_stored fs opened turned l z.bytes (turned_stored l z) z.fits
            ∙ sym (read_stored fs files d l z.bytes z.content z.fits);
      }

Keeps-trans :
    (fs : FileSystem) (f1 f2 f3 : fs.Files) (d1 d2 d3 : DataStore)
    → Keeps fs f1 d1 f2 d2
    → Keeps fs f2 d2 f3 d3
    → Keeps fs f1 d1 f3 d3
Keeps-trans fs f1 f2 f3 d1 d2 d3 a b = record {
  stored = λ l z. b.stored l (a.stored l z);
  same = λ l z. b.same l (a.stored l z) ∙ a.same l z;
}

-- `Append` of a value of at most 100 MB to a well-formed store whose file numbers do not run out
-- succeeds, in the current file or in a new one: `Read` of the location that it returns gives the
-- value, `Read` of every location that was stored gives what it gave before, and the store stays
-- well formed.
pub append_value-read_value :
    (fs : FileSystem) (files : fs.Files) (d : DataStore) (value : List ℕ)
    → IsValid fs files d
    → length value ≤ single_file_size
    → d.next_location.file_no + 1 < 2 ^ 32
    → (l : Location) × (files' : fs.Files) × (d' : DataStore) × (append_value fs files d value
        ≡ (succ, some l, files', d'))
      × Appended fs files d value l files' d'
unfolding append_value
append_value-read_value fs files d value valid short more =
    let fits : ltb single_file_size (length value) ≡ false = ground arith in
    elim (Bool-cases (ltb single_file_size (d.next_location.offset + length value))) [
      | inr room ↦
          let room' : d.next_location.offset + length value ≤ single_file_size = ground arith in
          (
            placed_at fs files d valid value,
            written fs files d valid value,
            grown fs files d valid value,
            rw (append_value, fits, room) (grows fs files d valid value room'),
            grown-Appended fs files d valid value room',
          )
      | inl over ↦
          let short0 : 0 + length value ≤ single_file_size = omega arith in
          let f1 = opened fs files d in
          let d1 = turned fs files d in
          let v1 = turned-IsValid fs files d valid more in
          let done = grown-Appended fs f1 d1 v1 value short0 in
          (
            placed_at fs f1 d1 v1 value,
            written fs f1 d1 v1 value,
            grown fs f1 d1 v1 value,
            rw (append_value, fits, over, turns fs files d valid more)
                (grows fs f1 d1 v1 value short0),
            record {
              dir = refl;
              valid = done.valid;
              stored = done.stored;
              reads = done.reads;
              keeps =
                  Keeps-trans fs files f1 (written fs f1 d1 v1 value) d d1 (grown fs f1 d1 v1 value)
                    (turned-Keeps fs files d valid more) done.keeps;
            },
          )
    ]
