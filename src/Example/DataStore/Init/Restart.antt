-- ===== src/Example/DataStore/Init/Restart.antt =====
-- `Init` makes a well-formed store of the data files that are there.
use polardb_uncompleted.Base.{
  ℕ, ◌%◌, ◌^◌, ◌≤◌, ◌<◌, ◌≡◌, ◌≢◌, refl, ap, ◌∙◌, sym, ◌⊎◌, inl, inr, true, false, Option, none,
  some, List, [], ◌∷◌, ◌++◌, length, ltb, if◌then◌else◌, Bool-cases, Option-cases, ℕ_discrete,
  arith,
}
use polardb_uncompleted.Disk.Files.{
  FileSystem, FilePath, bytes_or_nil, same_path as same_bytes, same_path_iff as same_bytes_iff,
}
use polardb_uncompleted.Disk.Image.{take, drop, take-append, drop-append}
use polardb_uncompleted.Disk.Paths.{same_path_self, other_path}
use polardb_uncompleted.Example.DataStore.{
  DataStore, data_file_prefix, single_file_size, file_name, open_cur_file,
}
use polardb_uncompleted.Example.DataStore.Append.{IsValid, Stored, Keeps, read_stored}
use polardb_uncompleted.Example.DataStore.Init.{last_file_no, cur_offset, init}
use polardb_uncompleted.Example.DataStore.Name.{file_name-ne, number, number-decimal_word}
use mathlib.Core.List.{append_cancel_left}
use polardb_uncompleted.Example.DoorPlate.{Location}
use polardb_uncompleted.Example.Util.{succ}
use polardb_uncompleted.Manifest.{decimal}

-- The name of a data file in its directory.
abbrev pub data_name : ℕ → List ℕ
data_name n = data_file_prefix ++ decimal 20 n []

abbrev pub Listed : List ℕ → List (List ℕ) → Type 0
Listed s [] = ⊥
Listed s (x ∷ xs) = (s ≡ x) ⊎ Listed s xs

-- Each name that starts with the prefix is that of a data file with a number below 2 ^ 31.
abbrev pub Named : List (List ℕ) → Type 0
Named [] = Unit {0}
Named (x ∷ xs) =
    ((same_bytes (take 5 x) data_file_prefix ≡ false)
      ⊎ ((n : ℕ) × (n < 2 ^ 31) × (x ≡ data_name n)))
    × Named xs

data_name-inj : (n m : ℕ) → n < 2 ^ 32 → m < 2 ^ 31 → data_name n ≡ data_name m → n ≡ m
data_name-inj n m h k e =
    sym (number-decimal_word n h)
    ∙ ap (number 0) (append_cancel_left data_file_prefix (decimal 20 n []) (decimal 20 m []) e)
    ∙ number-decimal_word m (omega arith)

module _ (stoul : List ℕ → Option ℕ)
    (reads : (n : ℕ) → n < 2 ^ 31 → stoul (decimal 20 n []) ≡ some n) where
  prefix_of : (n : ℕ) → same_bytes (take 5 (data_name n)) data_file_prefix ≡ true
  prefix_of n =
      (same_bytes_iff (take 5 (data_name n)) data_file_prefix).1
        (take-append 5 data_file_prefix (decimal 20 n []) refl)

  number_of : (n : ℕ) → n < 2 ^ 31 → stoul (drop 5 (data_name n)) ≡ some n
  number_of n h = ap stoul (drop-append 5 data_file_prefix (decimal 20 n []) refl) ∙ reads n h

  -- The loop gives a number that is at least each of the numbers listed.
  record Greatest (names : List (List ℕ)) (start : ℕ) (last : ℕ) : Type 0 where
    pub result : last_file_no stoul names start ≡ some last
    pub above : start ≤ last
    pub small : last < 2 ^ 31
    pub largest : (n : ℕ) → n < 2 ^ 32 → Listed (data_name n) names → n ≤ last

  last_step :
      (x : List ℕ) (names : List (List ℕ)) (start : ℕ)
      → same_bytes (take 5 x) data_file_prefix ≡ false
      → last_file_no stoul (x ∷ names) start ≡ last_file_no stoul names start
  unfolding last_file_no
  last_step x names start off = rw (last_file_no, off) refl

  last_number :
      (x : List ℕ) (n : ℕ) (names : List (List ℕ)) (start : ℕ)
      → same_bytes (take 5 x) data_file_prefix ≡ true
      → stoul (drop 5 x) ≡ some n
      → n < 2 ^ 31
      → last_file_no stoul (x ∷ names) start
        ≡ last_file_no stoul names (if ltb start n then n else start)
  unfolding last_file_no
  last_number x n names start is e h =
      let small : ltb n (2 ^ 31) ≡ true = ground arith in
      elim (Bool-cases (ltb start n)) [
        | inl b ↦ rw (last_file_no, is, e, b, small) refl
        | inr b ↦ rw (last_file_no, is, e, b) refl
      ]

  last_file_no-Greatest :
      (names : List (List ℕ)) (start : ℕ)
      → Named names
      → start < 2 ^ 31
      → (last : ℕ) × Greatest names start last
  unfolding last_file_no
  last_file_no-Greatest [] start named h =
      (start, record { result = refl; above = omega arith; small = h; largest = λ n k z. absurd z })
  last_file_no-Greatest (x ∷ names) start (inl off, named) h =
      let (last, z) = last_file_no-Greatest names start named h in
      (
        last,
        record {
          result = last_step x names start off ∙ z.result;
          above = z.above;
          small = z.small;
          largest = λ n k. elim [
            | inl same ↦
                absurd
                  (cc (prefix_of n, off, ap (λ s. same_bytes (take 5 s) data_file_prefix) same))
            | inr more ↦ z.largest n k more
          ];
        },
      )
  last_file_no-Greatest (x ∷ names) start (inr (m, small, e), named) h =
      let next : ℕ = if ltb start m then m else start in
      let next_small : next < 2 ^ 31 = ground arith in
      let (last, z) = last_file_no-Greatest names next named next_small in
      let is : same_bytes (take 5 x) data_file_prefix ≡ true = rw e (prefix_of m) in
      let value : stoul (drop 5 x) ≡ some m = rw e (number_of m small) in
      let first : m ≤ next = ground arith in
      let grows : start ≤ next = ground arith in
      (
        last,
        record {
          result = last_number x m names start is value small ∙ z.result;
          above = omega (arith, z.above);
          small = z.small;
          largest = λ n k. elim [
            | inl same ↦ omega (arith, z.above, data_name-inj n m k small (same ∙ e))
            | inr more ↦ z.largest n k more
          ];
        },
      )

module _ (fs : FileSystem) (files : fs.Files) (d : DataStore) (last : ℕ) where
  abbrev name : FilePath
  name = file_name d.dir last

  abbrev opened : fs.Files
  opened = fs.create files name

  abbrev begun : DataStore
  begun = record d {
    next_location = record (d.next_location) {
      file_no = last;
      offset = cur_offset (fs.content files name);
    };
    fd = some name;
  }

  length-bytes_or_nil :
      (c : Option (List ℕ))
      → ((s : List ℕ) → c ≡ some s → length s ≤ single_file_size)
      → length (bytes_or_nil c) ≡ cur_offset c
  length-bytes_or_nil none h = refl
  length-bytes_or_nil (some s) h =
      let short = h s refl in
      let no_wrap : length s % 2 ^ 32 ≡ length s = omega arith in
      let small : ltb (length s) (2 ^ 31) ≡ true = ground arith in rw (no_wrap, small) refl

  module _ (small : last < 2 ^ 31)
      (short : (n : ℕ) (s : List ℕ)
        → n < 2 ^ 32
        → fs.content files (file_name d.dir n) ≡ some s
        → (n ≤ last) × (length s ≤ single_file_size)) where
    opened_last : fs.content opened name ≡ some (bytes_or_nil (fs.content files name))
    opened_last = fs.content-create files name name ∙ rw (same_path_self name) refl

    opened_other :
        (n : ℕ)
        → n < 2 ^ 32
        → n ≢ last
        → fs.content opened (file_name d.dir n) ≡ fs.content files (file_name d.dir n)
    opened_other n h ne =
        fs.content-create files name (file_name d.dir n)
        ∙ rw (other_path (file_name d.dir n) name (file_name-ne d.dir n last h (omega arith) ne))
            refl

    last_bytes : length (bytes_or_nil (fs.content files name)) ≡ cur_offset (fs.content files name)
    last_bytes =
        length-bytes_or_nil (fs.content files name) (λ s e. (short last s (omega arith) e).1)

    no_later : (n : ℕ) → last < n → n < 2 ^ 32 → fs.content files (file_name d.dir n) ≡ none
    no_later n above h = elim (Option-cases (fs.content files (file_name d.dir n))) [
      | inl e ↦ e
      | inr (s, e) ↦ absurd (omega (arith, above, (short n s h e).0))
    ]

    last_bound : cur_offset (fs.content files name) ≤ single_file_size
    last_bound = elim (Option-cases (fs.content files name)) [
      | inl e ↦ rw e (omega arith)
      | inr (s, e) ↦
          let bound : length (bytes_or_nil (fs.content files name)) ≤ single_file_size =
            rw e ((short last s (omega arith) e).1) in
          omega (arith, bound, last_bytes)
    ]

    begun-IsValid : IsValid fs opened begun
    begun-IsValid = record {
      fd = refl;
      number = omega arith;
      bytes = bytes_or_nil (fs.content files name);
      content = opened_last;
      end = last_bytes;
      bound = last_bound;
      later = λ n above h. opened_other n h (λ e. omega (arith, above, e)) ∙ no_later n above h;
    }

    opened_stored :
        (l : Location) (z : Stored fs files d l)
        → fs.content opened (file_name d.dir l.file_no) ≡ some z.bytes
    opened_stored l z = elim (ℕ_discrete l.file_no last) [
      | no ne ↦ opened_other l.file_no z.number ne ∙ z.content
      | yes e ↦
          let here : fs.content files name ≡ some z.bytes = rw (← e) z.content in
          rw e (opened_last ∙ ap (λ c. some (bytes_or_nil c)) here)
    ]

    begun-Keeps : Keeps fs files d opened begun
    begun-Keeps = record {
      stored = λ l z. record {
        number = z.number;
        bytes = z.bytes;
        content = opened_stored l z;
        fits = z.fits;
      };
      same = λ l z.
          read_stored fs opened begun l z.bytes (opened_stored l z) z.fits
          ∙ sym (read_stored fs files d l z.bytes z.content z.fits);
    }

-- `Init` of a directory whose data files are listed, at most 100 MB long and numbered below 2 ^ 31,
-- whatever other files it holds.
pub init-IsValid :
    (stoul : List ℕ → Option ℕ) (fs : FileSystem) (files : fs.Files) (d : DataStore)
    (names : List (List ℕ))
    → ((n : ℕ) → n < 2 ^ 31 → stoul (decimal 20 n []) ≡ some n)
    → Named names
    → ((n : ℕ) (s : List ℕ)
        → n < 2 ^ 32
        → fs.content files (file_name d.dir n) ≡ some s
        → Listed (data_name n) names × (length s ≤ single_file_size))
    → (files' : fs.Files) × (d' : DataStore) × (init stoul fs files d (some names)
        ≡ some (succ, files', d'))
      × IsValid fs files' d'
      × Keeps fs files d files' d'
unfolding init open_cur_file
init-IsValid stoul fs files d names reads named files_listed =
    let (last, z) = last_file_no-Greatest stoul reads names 0 named (omega arith) in
    let short : (n : ℕ) (s : List ℕ)
        → n < 2 ^ 32
        → fs.content files (file_name d.dir n) ≡ some s
        → (n ≤ last) × (length s ≤ single_file_size) =
      λ n s h e. (z.largest n h (files_listed n s h e).0, (files_listed n s h e).1) in
    (
      opened fs files d last,
      begun fs files d last,
      rw z.result refl,
      begun-IsValid fs files d last z.small short,
      begun-Keeps fs files d last z.small short,
    )
