-- ===== src/Disk/Files.antt =====
-- What the code relies on of the file system: the content of each file, and the calls that change
-- it. A `write` takes all its bytes, and calls do not fail.
use polardb_uncompleted.Base.{
  ℕ, ◌≡◌, ◌≢◌, ◌↔◌, refl, Bool, true, false, ◌&&◌, Option, none, some, List, [], ◌∷◌, ◌++◌, ◌==◌,
  if◌then◌else◌, arith,
}

abbrev pub FilePath : Type 0
FilePath = List ℕ

abbrev pub same_path : FilePath → FilePath → Bool
same_path [] [] = true
same_path [] (y ∷ q) = false
same_path (x ∷ p) [] = false
same_path (x ∷ p) (y ∷ q) = (x == y) && same_path p q

pub same_path_iff : (p q : FilePath) → (same_path p q ≡ true) ↔ (p ≡ q)
same_path_iff [] [] = (λ h. refl, λ e. refl)
same_path_iff [] (y ∷ q) = (λ h. cc, λ e. cc)
same_path_iff (x ∷ p) [] = (λ h. cc, λ e. cc)
same_path_iff (x ∷ p) (y ∷ q) = ground (arith, same_path_iff p q)

abbrev pub bytes_or_nil : Option (List ℕ) → List ℕ
bytes_or_nil none = []
bytes_or_nil (some b) = b

pub record FileSystem : Type 1 where
  pub Files : Type 0
  -- `none` for a file that does not exist
  pub content : Files → FilePath → Option (List ℕ)
  -- `open` with O_CREAT, with O_CREAT | O_TRUNC, and `write` to the end of an open file
  pub create : Files → FilePath → Files
  pub create_empty : Files → FilePath → Files
  pub append : Files → FilePath → List ℕ → Files
  pub remove : Files → FilePath → Files
  pub rename : Files → FilePath → FilePath → Files
  pub content-create :
      (f : Files) (p q : FilePath)
      → content (create f p) q
        ≡ (if same_path q p then some (bytes_or_nil (content f p)) else content f q)
  pub content-create_empty :
      (f : Files) (p q : FilePath)
      → content (create_empty f p) q ≡ (if same_path q p then some [] else content f q)
  pub content-append :
      (f : Files) (p : FilePath) (b : List ℕ) (q : FilePath)
      → content (append f p b) q
        ≡ (if same_path q p then some (bytes_or_nil (content f p) ++ b) else content f q)
  pub content-remove :
      (f : Files) (p q : FilePath)
      → content (remove f p) q ≡ (if same_path q p then none else content f q)
  pub content-rename :
      (f : Files) (p r q : FilePath)
      → p ≢ r
      → content (rename f p r) q
        ≡ (if same_path q r then content f p else if same_path q p then none else content f q)

abbrev at_path :
    (FilePath → Option (List ℕ)) → FilePath → Option (List ℕ) → FilePath → Option (List ℕ)
at_path f p v q = if same_path q p then v else f q

-- Files as a function from paths.
abbrev pub in_memory : FileSystem
in_memory = record {
  Files = FilePath → Option (List ℕ);
  content = λ f p. f p;
  create = λ f p. at_path f p (some (bytes_or_nil (f p)));
  create_empty = λ f p. at_path f p (some []);
  append = λ f p b. at_path f p (some (bytes_or_nil (f p) ++ b));
  remove = λ f p. at_path f p none;
  rename = λ f p r. at_path (at_path f p none) r (f p);
  content-create = λ f p q. refl;
  content-create_empty = λ f p q. refl;
  content-append = λ f p b q. refl;
  content-remove = λ f p q. refl;
  content-rename = λ f p r q ne. refl;
}
