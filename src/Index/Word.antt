-- ===== src/Index/Word.antt =====
-- A status word as three numbers: index, status bits, file number. The bit operations act on each
-- of them apart.
use Prim.Native.Nat.{bit_and, bit_or}
use polardb_uncompleted.Base.{
  ℕ, zero, suc, ◌+◌, ◌*◌, ◌/◌, ◌%◌, ◌^◌, ◌<◌, ◌≡◌, refl, sym, ap, ap₂, subst, ◌∙◌, Bool, true,
  false, not, ◌||◌, arith, ◌==◌, if◌then◌else◌,
}
use polardb_uncompleted.Base.Bits.{
  bit_and_split, bit_or_split, bit_and-zero, bit_or-zero, zero-bit_or, bit_and_ones, bit_and-le,
  bit_or-lt,
}
use polardb_uncompleted.Index.{Index, if_valid, if_in_hash, set_in_hash, if_writing, set_if_writing}

abbrev pub bit : Bool → ℕ
bit true = 1
bit false = 0

abbrev pub flags : Bool → Bool → Bool → Bool → ℕ
flags r w h f = bit r * 8 + bit w * 4 + bit h * 2 + bit f

unfoldable pub word : ℕ → ℕ → ℕ → ℕ
word i f d = i * 2 ^ 12 + (f * 2 ^ 8 + d)

module _ (i f d j g e : ℕ) (hf : f < 2 ^ 4) (hd : d < 2 ^ 8) (hg : g < 2 ^ 4) (he : e < 2 ^ 8) where
  pub word-bit_and :
      bit_and (word i f d) (word j g e) ≡ word (bit_and i j) (bit_and f g) (bit_and d e)
  unfolding word
  word-bit_and =
      rw (bit_and_split 12 i (f * 2 ^ 8 + d) j (g * 2 ^ 8 + e) (omega arith) (omega arith))
        (rw (bit_and_split 8 f d g e hd he))

  pub word-bit_or : bit_or (word i f d) (word j g e) ≡ word (bit_or i j) (bit_or f g) (bit_or d e)
  unfolding word
  word-bit_or =
      rw (bit_or_split 12 i (f * 2 ^ 8 + d) j (g * 2 ^ 8 + e) (omega arith) (omega arith))
        (rw (bit_or_split 8 f d g e hd he))

pub top_bits : (i : ℕ) → i < 2 ^ 20 → bit_and i 0xc0000 ≡ i / 2 ^ 18 * 2 ^ 18
top_bits i h =
    let q : ℕ = i / 2 ^ 18 in
    let r : ℕ = i % 2 ^ 18 in
    let e : q * 2 ^ 18 + r ≡ i = omega arith in
    rw (← e) (
      omega
        (arith, bit_and_split 18 q r 3 0, bit_and_ones 2 q 3 refl (omega arith), bit_and-zero r))

pub high_or_low : (q i : ℕ) → i < 2 ^ 18 → bit_or (q * 2 ^ 18) i ≡ q * 2 ^ 18 + i
high_or_low q i h =
    let e : bit_or (q * 2 ^ 18 + 0) (0 * 2 ^ 18 + i) ≡ q * 2 ^ 18 + i =
      rw (bit_or_split 18 q 0 0 i (omega arith) h, bit_or-zero q, zero-bit_or i) in
    ap₂ bit_or (omega arith) (omega arith) ∙ e

pub zero_fields : (d : ℕ) → d ≡ word 0 0 d
unfolding word
zero_fields d = omega arith

pub low_fields : (d : ℕ) → 2 ^ 8 + d ≡ word 0 1 d
unfolding word
low_fields d = omega arith

pub flags-lt : (r w h f : Bool) → flags r w h f < 2 ^ 4
flags-lt r w h f = ground arith

-- The status bits under the masks of the methods.
module _ (r w h f : Bool) where
  pub flags-bit_and :
      (bit_and (flags r w h f) 2 ≡ bit h * 2)
      × (bit_and (flags r w h f) 1 ≡ bit f)
      × (bit_and (flags r w h f) 4 ≡ bit w * 4)
      × (bit_and (flags r w h f) 12 ≡ flags r w false false)
      × (bit_and (flags r w h f) 14 ≡ flags r w h false)
      × (bit_and (flags r w h f) 10 ≡ flags r false h false)
  flags-bit_and = ground arith

  pub flags-bit_or :
      (bit_or (flags r w h f) 2 ≡ flags r w true f)
      × (bit_or (flags r w h f) 1 ≡ flags r w h true)
      × (bit_or (flags r w h f) 4 ≡ flags r true h f)
      × (bit_or (flags r w h f) 0 ≡ flags r w h f)
  flags-bit_or = ground arith

-- Facts about any status word, whatever its index bits.
check_below : ℕ → (ℕ → Bool) → Bool
check_below zero p = true
check_below (suc n) p = if p n then check_below n p else false

check_below_lem : (n : ℕ) (p : ℕ → Bool) (x : ℕ) → check_below n p ≡ true → x < n → p x ≡ true
unfolding check_below
check_below_lem zero p x h lt = absurd (omega arith)
check_below_lem (suc n) p x h lt = ground (arith, check_below_lem n p x)

-- A status bit read back after `|` and after `&`.
module _ (h g d m n : ℕ) (hg : g < 2 ^ 4) (hd : d < 2 ^ 8) (hm : m < 2 ^ 4) (hn : n < 2 ^ 4) where
  flag_of_or :
      bit_and (bit_or (word h g d) (word 0 m 0)) (word 0 n 0) ≡ bit_and (bit_or g m) n * 2 ^ 8
  flag_of_or =
      ap (λ (t : ℕ). bit_and t (word 0 n 0)) (word-bit_or h g d 0 m 0 hg hd hm (omega arith))
      ∙ word-bit_and (bit_or h 0) (bit_or g m) (bit_or d 0) 0 n 0 (bit_or-lt 4 g m hg hm)
          (bit_or-lt 8 d 0 hd (omega arith)) hn (omega arith)
      ∙ unfold word in omega (arith, bit_and-zero (bit_or h 0), bit_and-zero (bit_or d 0))

  flag_of_and :
      (j e : ℕ)
      → e < 2 ^ 8
      → bit_and (bit_and (word h g d) (word j m e)) (word 0 n 0) ≡ bit_and (bit_and g m) n * 2 ^ 8
  flag_of_and j e he =
      ap (λ (t : ℕ). bit_and t (word 0 n 0)) (word-bit_and h g d j m e hg hd hm he)
      ∙ word-bit_and (bit_and h j) (bit_and g m) (bit_and d e) 0 n 0 (omega (arith, bit_and-le g m))
          (omega (arith, bit_and-le d e)) hn (omega arith)
      ∙ unfold word in omega (arith, bit_and-zero (bit_and h j), bit_and-zero (bit_and d e))

  flag_of : bit_and (word h g d) (word 0 n 0) ≡ bit_and g n * 2 ^ 8
  flag_of =
      word-bit_and h g d 0 n 0 hg hd hn (omega arith)
      ∙ unfold word in omega (arith, bit_and-zero h, bit_and-zero d)

on_word : (P : ℕ → Type 0) → ((h g d : ℕ) → g < 2 ^ 4 → d < 2 ^ 8 → P (word h g d)) → (s : ℕ) → P s
on_word P each s =
    let e : s ≡ word (s / 2 ^ 12) (s / 2 ^ 8 % 2 ^ 4) (s % 2 ^ 8) = unfold word in omega arith in
    subst P (sym e) (each _ _ _ (omega arith) (omega arith))

abbrev Nibble : (ℕ → Bool) → Type 0
Nibble p = (g : ℕ) → g < 2 ^ 4 → p g ≡ true

Nibble-check : (p : ℕ → Bool) → check_below 16 p ≡ true → Nibble p
Nibble-check p h g lt = check_below_lem 16 p g h lt

in_hash_set : Nibble (λ g. bit_and (bit_or g 2) 2 == 2)
unfolding check_below
in_hash_set = Nibble-check _ refl

pub set_in_hash-if_in_hash : (i : Index) → if_in_hash (set_in_hash i true) ≡ 0x200
unfolding set_in_hash if_in_hash word
set_in_hash-if_in_hash i =
    on_word (λ s. bit_and (bit_or s 0x200) 0x200 ≡ 0x200)
      (λ h g d hg hd.
        flag_of_or h g d 2 2 hg hd (omega arith) (omega arith) ∙ ground (arith, in_hash_set g hg))
      i.status

valid_flags : Nibble (λ g. not (bit_and g 2 == 2) || not (bit_and g 15 == 0))
unfolding check_below
valid_flags = Nibble-check _ refl

-- A word with its `in_hash` bit set is in use.
pub if_in_hash-if_valid : (i : Index) → if_in_hash i ≡ 0x200 → (if_valid i == 0) ≡ false
unfolding if_in_hash if_valid word
if_in_hash-if_valid i =
    on_word (λ s. bit_and s 0x200 ≡ 0x200 → (bit_and s 0xf00 == 0) ≡ false)
      (λ h g d hg hd e. ground (
        arith,
        flag_of h g d 0 2 hg hd (omega arith) (omega arith),
        flag_of h g d 0 15 hg hd (omega arith) (omega arith),
        valid_flags g hg,
      ))
      i.status

hash_after_set : Nibble (λ g. bit_and (bit_or g 4) 2 == bit_and g 2)
unfolding check_below
hash_after_set = Nibble-check _ refl

hash_after_clear : Nibble (λ g. bit_and (bit_and g 10) 2 == bit_and g 2)
unfolding check_below
hash_after_clear = Nibble-check _ refl

writing_after_set : Nibble (λ g. bit_and (bit_or g 4) 4 == 4)
unfolding check_below
writing_after_set = Nibble-check _ refl

writing_after_clear : Nibble (λ g. bit_and (bit_and g 10) 4 == 0)
unfolding check_below
writing_after_clear = Nibble-check _ refl

-- `set_if_writing` leaves the `in_hash` bit.
pub set_if_writing-if_in_hash :
    (i : Index) (b : Bool) → if_in_hash (set_if_writing i b) ≡ if_in_hash i
unfolding set_if_writing if_in_hash word
set_if_writing-if_in_hash i true =
    on_word (λ s. bit_and (bit_or s 0x400) 0x200 ≡ bit_and s 0x200)
      (λ h g d hg hd. ground (
        arith,
        flag_of_or h g d 4 2 hg hd (omega arith) (omega arith),
        flag_of h g d 0 2 hg hd (omega arith) (omega arith),
        hash_after_set g hg,
      ))
      i.status
set_if_writing-if_in_hash i false =
    on_word (λ s. bit_and (bit_and s 0xfffffaff) 0x200 ≡ bit_and s 0x200)
      (λ h g d hg hd. ground (
        arith,
        flag_of_and h g d 10 2 hg hd (omega arith) (omega arith) 0xfffff 0xff (omega arith),
        flag_of h g d 0 2 hg hd (omega arith) (omega arith),
        hash_after_clear g hg,
      ))
      i.status

-- `set_if_writing` is read back by `if_writing`.
pub if_writing-set_if_writing :
    (i : Index) (b : Bool) → (if_writing (set_if_writing i b) == 0) ≡ not b
unfolding set_if_writing if_writing word
if_writing-set_if_writing i true =
    on_word (λ s. (bit_and (bit_or s 0x400) 0x400 == 0) ≡ false)
      (λ h g d hg hd.
        ground
          (arith, flag_of_or h g d 4 4 hg hd (omega arith) (omega arith), writing_after_set g hg))
      i.status
if_writing-set_if_writing i false =
    on_word (λ s. (bit_and (bit_and s 0xfffffaff) 0x400 == 0) ≡ true)
      (λ h g d hg hd. ground (
        arith,
        flag_of_and h g d 10 4 hg hd (omega arith) (omega arith) 0xfffff 0xff (omega arith),
        writing_after_clear g hg,
      ))
      i.status
