-- ===== src/Disk/Image.antt =====
-- The bytes of struct Record in memory and in the log (x86-64: little endian, `key` at 8, the value
-- at 16, `check_field` behind it, and 4 bytes of padding in front of `key` and at the end).
use polardb_uncompleted.Base.{
  ℕ, zero, suc, ◌+◌, ◌*◌, ◌/◌, ◌^◌, ◌<◌, ◌≡◌, refl, ap, ◌∙◌, List, [], ◌∷◌, ◌++◌, length,
  length-append, arith,
}
use mathlib.Core.List.{append_assoc}
use polardb_uncompleted.Buffer.Record.{Record, record_value_len}
use polardb_uncompleted.IndexHashMap.Hash.{bytes_of}

-- The number whose bytes these are, the lowest first.
unfoldable pub of_bytes : List ℕ → ℕ
of_bytes [] = 0
of_bytes (b ∷ s) = b + 256 * of_bytes s

unfoldable pub take : ℕ → List ℕ → List ℕ
take zero s = []
take (suc n) [] = []
take (suc n) (b ∷ s) = b ∷ take n s

unfoldable pub drop : ℕ → List ℕ → List ℕ
drop zero s = s
drop (suc n) [] = []
drop (suc n) (b ∷ s) = drop n s

-- `sizeof(Record)`
abbrev pub record_size : ℕ
record_size = 4120

-- The padding is left as zeros here; nothing reads it.
unfoldable pub image : Record → List ℕ
image r =
    bytes_of 4 r.magic
    ++ (bytes_of 4 0
        ++ (bytes_of 8 r.key ++ (r.value_ptr ++ (bytes_of 4 r.check_field ++ bytes_of 4 0))))

-- The record that a block of bytes stands for.
unfoldable pub of_image : List ℕ → Record
of_image s = record {
  magic = of_bytes (take 4 s);
  key = of_bytes (take 8 (drop 8 s));
  value_ptr = take record_value_len (drop 16 s);
  check_field = of_bytes (take 4 (drop (16 + record_value_len) s));
}

-- The values that the fields can have.
pub record IsSized (r : Record) : Type 0 where
  pub magic : r.magic < 2 ^ 32
  pub key : r.key < 2 ^ 64
  pub value : length r.value_ptr ≡ record_value_len
  pub check : r.check_field < 2 ^ 32

pub length-bytes_of : (n x : ℕ) → length (bytes_of n x) ≡ n
unfolding bytes_of
length-bytes_of zero x = refl
length-bytes_of (suc n) x = ap suc (length-bytes_of n (x / 256))

pub take-append : (n : ℕ) (a b : List ℕ) → length a ≡ n → take n (a ++ b) ≡ a
unfolding take
take-append zero [] b e = refl
take-append zero (x ∷ a) b e = absurd (omega arith)
take-append (suc n) [] b e = absurd (omega arith)
take-append (suc n) (x ∷ a) b e = ap (λ (s : List ℕ). x ∷ s) (take-append n a b (omega arith))

pub drop-append : (n : ℕ) (a b : List ℕ) → length a ≡ n → drop n (a ++ b) ≡ b
unfolding drop
drop-append zero [] b e = refl
drop-append zero (x ∷ a) b e = absurd (omega arith)
drop-append (suc n) [] b e = absurd (omega arith)
drop-append (suc n) (x ∷ a) b e = drop-append n a b (omega arith)

pub of_bytes-4 : (x : ℕ) → x < 2 ^ 32 → of_bytes (bytes_of 4 x) ≡ x
unfolding of_bytes bytes_of
of_bytes-4 x h = omega arith

pub of_bytes-8 : (x : ℕ) → x < 2 ^ 64 → of_bytes (bytes_of 8 x) ≡ x
unfolding of_bytes bytes_of
of_bytes-8 x h = omega arith

-- Behind several parts.
pub drop-two : (k : ℕ) (a b c : List ℕ) → length a + length b ≡ k → drop k (a ++ (b ++ c)) ≡ c
drop-two k a b c e = rw (← append_assoc a b c) (drop-append k (a ++ b) c (length-append a b ∙ e))

pub drop-three :
    (k : ℕ) (a b c d : List ℕ)
    → length a + length b + length c ≡ k
    → drop k (a ++ (b ++ (c ++ d))) ≡ d
drop-three k a b c d e =
    rw (← append_assoc a b (c ++ d)) (drop-two k (a ++ b) c d (omega (arith, length-append a b)))

pub drop-four :
    (k : ℕ) (a b c d e : List ℕ)
    → length a + length b + length c + length d ≡ k
    → drop k (a ++ (b ++ (c ++ (d ++ e)))) ≡ e
drop-four k a b c d e h =
    rw (← append_assoc a b (c ++ (d ++ e)))
      (drop-three k (a ++ b) c d e (omega (arith, length-append a b)))

pub length-image : (r : Record) → IsSized r → length (image r) ≡ record_size
unfolding image
length-image r z = omega (arith, z.value, length-append {0} {A = ℕ}, length-bytes_of)

-- A record is what its own bytes stand for.
pub of_image-image : (r : Record) → IsSized r → of_image (image r) ≡ r
unfolding of_image image
of_image-image r z =
    let magic = bytes_of 4 r.magic in
    let pad = bytes_of 4 0 in
    let key = bytes_of 8 r.key in
    let check = bytes_of 4 r.check_field in
    let lm = length-bytes_of 4 r.magic in
    let lp = length-bytes_of 4 0 in
    let lk = length-bytes_of 8 r.key in
    let lc = length-bytes_of 4 r.check_field in
    rw
      (
        take-append 4 magic (pad ++ (key ++ (r.value_ptr ++ (check ++ pad)))) lm,
        drop-two 8 magic pad (key ++ (r.value_ptr ++ (check ++ pad))) (omega arith),
        take-append 8 key (r.value_ptr ++ (check ++ pad)) lk,
        drop-three 16 magic pad key (r.value_ptr ++ (check ++ pad)) (omega arith),
        take-append record_value_len r.value_ptr (check ++ pad) z.value,
        drop-four (16 + record_value_len) magic pad key r.value_ptr (check ++ pad)
            (omega (arith, z.value)),
        take-append 4 check pad lc,
        of_bytes-4 r.magic z.magic,
        of_bytes-8 r.key z.key,
        of_bytes-4 r.check_field z.check,
      )
      refl
