-- ===== src/Manifest/Entries.antt =====
-- The entries of the manifest as bytes, and the count of their levels.
use polardb_uncompleted.Base.{
  ℕ, zero, suc, ◌*◌, ◌<◌, ◌≡◌, refl, ap, inl, inr, List, [], ◌∷◌, ◌++◌, length, length-append, map,
  arith,
}
use polardb_uncompleted.Base.Run.{ok, Run-cases}
use polardb_uncompleted.Disk.{concat}
use polardb_uncompleted.Disk.Image.{drop, take-append, drop-append}
use polardb_uncompleted.Manifest.{count_level, count_levels, recover_loop, read_block}
use polardb_uncompleted.Manifest.Image.{
  MfRecord, IsSized, mf_record_size, image, of_image, length-image, of_image-image,
}

pub data AllSized : List MfRecord → Type 0 where
  sized_nil : AllSized []
  sized_cons : {r : MfRecord} {rs : List MfRecord} → IsSized r → AllSized rs → AllSized (r ∷ rs)

pub snoc-AllSized :
    (rs : List MfRecord) (r : MfRecord) → AllSized rs → IsSized r → AllSized (rs ++ r ∷ [])
snoc-AllSized [] r a z = sized_cons z a
snoc-AllSized (x ∷ rs) r (sized_cons y a) z = sized_cons y (snoc-AllSized rs r a z)

pub map-snoc :
    (rs : List MfRecord) (r : MfRecord) → map image rs ++ image r ∷ [] ≡ map image (rs ++ r ∷ [])
map-snoc [] r = refl
map-snoc (x ∷ rs) r = ap (λ (t : List (List ℕ)). image x ∷ t) (map-snoc rs r)

read_block-some :
    (s tmp : List ℕ) (rest : List MfRecord)
    → 0 < length s
    → read_block s tmp rest ≡ of_image tmp ∷ rest
read_block-some [] tmp rest h = absurd (omega arith)
read_block-some (b ∷ s) tmp rest h = refl

pub length-images :
    (rs : List MfRecord) → AllSized rs → length (concat (map image rs)) ≡ mf_record_size * length rs
length-images [] a = refl
length-images (r ∷ rs) (sized_cons z a) =
    omega
      (arith, length-append (image r) (concat (map image rs)), length-image r z, length-images rs a)

-- The bytes of entries are read as these entries, whatever `tmp` was.
pub recover_loop-images :
    (rounds : ℕ) (rs : List MfRecord) (tmp : List ℕ)
    → AllSized rs
    → length rs < rounds
    → recover_loop rounds (concat (map image rs)) tmp ≡ rs
unfolding recover_loop
recover_loop-images zero rs tmp a h = absurd (omega arith)
recover_loop-images (suc rounds) [] tmp a h = refl
recover_loop-images (suc rounds) (r ∷ rs) tmp (sized_cons z a) h =
    let len = length-image r z in
    let more = concat (map image rs) in
    rw
      (
        take-append mf_record_size (image r) more len,
        drop-append mf_record_size (image r) more len,
        take-append mf_record_size (image r) (drop (length (image r)) tmp) len,
        recover_loop-images rounds rs (image r) a (omega arith),
        read_block-some (image r) (image r) rs (omega (arith, len)),
        of_image-image r z,
      )
      refl

pub count_levels-snoc :
    (rs : List MfRecord) (r : MfRecord) (c cnt cnt' : ℕ → ℕ)
    → count_levels rs c ≡ ok cnt
    → count_level cnt r.lvl ≡ ok cnt'
    → count_levels (rs ++ r ∷ []) c ≡ ok cnt'
unfolding count_levels
count_levels-snoc [] r c cnt cnt' h k = let e : c ≡ cnt = cc in rw (e, k) refl
count_levels-snoc (x ∷ rs) r c cnt cnt' h k = elim (Run-cases (count_level c x.lvl)) [
  | inl (c', one) ↦
      let h' = rw (one, count_levels) at h in rw one (count_levels-snoc rs r c' cnt cnt' h' k)
  | inr (inl bad) ↦ let h' = rw (bad, count_levels) at h in absurd cc
  | inr (inr bad) ↦ let h' = rw (bad, count_levels) at h in absurd cc
]
