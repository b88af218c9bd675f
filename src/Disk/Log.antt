-- ===== src/Disk/Log.antt =====
-- engine_race/DBSystem/io.cpp, the logs: the bytes of several records, one after the other.
use polardb_uncompleted.Base.{
  ℕ, zero, suc, ◌+◌, ◌≤◌, ◌≡◌, refl, ap, ◌∙◌, sym, List, [], ◌∷◌, ◌++◌, length, arith,
}
use mathlib.Core.List.{append_assoc}
use polardb_uncompleted.Buffer.Record.{Record}
use polardb_uncompleted.Disk.Image.{take, drop, image, IsSized}

pub data AllSized : List Record → Type 0 where
  sized_nil : AllSized []
  sized_cons : {r : Record} {rs : List Record} → IsSized r → AllSized rs → AllSized (r ∷ rs)

-- The bytes of several records.
unfoldable pub images : List Record → List ℕ
images [] = []
images (r ∷ rs) = image r ++ images rs

pub images-append : (rs ts : List Record) → images (rs ++ ts) ≡ images rs ++ images ts
unfolding images
images-append [] ts = refl
images-append (r ∷ rs) ts =
    ap (λ (s : List ℕ). image r ++ s) (images-append rs ts)
    ∙ sym (append_assoc (image r) (images rs) (images ts))

pub append-AllSized : (rs ts : List Record) → AllSized rs → AllSized ts → AllSized (rs ++ ts)
append-AllSized [] ts a b = b
append-AllSized (r ∷ rs) ts (sized_cons z a) b = sized_cons z (append-AllSized rs ts a b)

pub length-take : (n : ℕ) (s : List ℕ) → n ≤ length s → length (take n s) ≡ n
unfolding take
length-take zero s h = refl
length-take (suc n) [] h = absurd (omega arith)
length-take (suc n) (b ∷ s) h = ap suc (length-take n s (omega arith))

pub take-short : (n : ℕ) (s : List ℕ) → length s ≤ n → take n s ≡ s
unfolding take
take-short zero [] h = refl
take-short zero (b ∷ s) h = absurd (omega arith)
take-short (suc n) [] h = refl
take-short (suc n) (b ∷ s) h = ap (λ (t : List ℕ). b ∷ t) (take-short n s (omega arith))

pub length-drop : (n : ℕ) (s : List ℕ) → n ≤ length s → length (drop n s) + n ≡ length s
unfolding drop
length-drop zero s h = omega arith
length-drop (suc n) [] h = absurd (omega arith)
length-drop (suc n) (b ∷ s) h = omega (arith, length-drop n s (omega arith))
