-- ===== src/Base/Bits.antt =====
-- `&`, `|` and `^` of machine words at variables: the law for the lowest digit, and the splitting
-- of a word at a bit position into a high and a low field.
use Prim.Native.Nat.{
  ℕ, zero, suc, ◌+◌, ◌*◌, ◌/◌, ◌%◌, ◌^◌, ◌≤◌, ◌<◌, min, max, bit_and, bit_or, digits, bitwise,
  bit_and-bitwise, bit_or-bitwise,
}
use mathlib.Core.Path.{◌≡◌, refl, ap}
use native.Mathlib.Nat.{pow-suc, le_refl}
use native.Mathlib.Omega.{arith}

-- The count of digits to go does not matter, once it is as large as the first number.
module _ (z : ℕ → ℕ) (f : ℕ → ℕ → ℕ) where
  digits_enough : (n m a b : ℕ) → a ≤ n → a ≤ m → digits z f n a b ≡ digits z f m a b
  digits_enough zero zero a b p q = refl
  digits_enough zero (suc m) zero b p q = refl
  digits_enough zero (suc m) (suc a) b p q = absurd (omega arith)
  digits_enough (suc n) zero zero b p q = refl
  digits_enough (suc n) zero (suc a) b p q = absurd (omega arith)
  digits_enough (suc n) (suc m) zero b p q = refl
  digits_enough (suc n) (suc m) (suc a) b p q =
      omega (arith, digits_enough n m (suc a / 2) (b / 2) (omega arith) (omega arith))

  bitwise_halved :
      (a b : ℕ)
      → bitwise z f (suc a) b ≡ bitwise z f (suc a / 2) (b / 2) * 2 + f (suc a % 2) (b % 2)
  bitwise_halved a b =
      omega (arith, digits_enough a (suc a / 2) (suc a / 2) (b / 2) (omega arith) (le_refl _))

bit_and_halved : (a b : ℕ) → bit_and a b ≡ bit_and (a / 2) (b / 2) * 2 + min (a % 2) (b % 2)
bit_and_halved zero b = simp bit_and-bitwise (omega arith)
bit_and_halved (suc a) b = simp bit_and-bitwise (bitwise_halved (λ y. 0) min a b)

bit_or_halved : (a b : ℕ) → bit_or a b ≡ bit_or (a / 2) (b / 2) * 2 + max (a % 2) (b % 2)
bit_or_halved zero b = simp bit_or-bitwise (omega arith)
bit_or_halved (suc a) b = simp bit_or-bitwise (bitwise_halved (λ y. y) max a b)

double_pow : (q k : ℕ) → q * 2 ^ suc k ≡ 2 * (q * 2 ^ k)
double_pow q k = omega (arith, ap (λ (t : ℕ). q * t) (pow-suc 2 k))

-- The two halves of a word that is split above its lowest bit.
field_half : (k q r : ℕ) → (q * 2 ^ suc k + r) / 2 ≡ q * 2 ^ k + r / 2
field_half k q r = omega (arith, double_pow q k)

field_lowest : (k q r : ℕ) → (q * 2 ^ suc k + r) % 2 ≡ r % 2
field_lowest k q r = omega (arith, double_pow q k)

pub zero-bit_and : (b : ℕ) → bit_and 0 b ≡ 0
zero-bit_and b = bit_and-bitwise 0 b

pub zero-bit_or : (b : ℕ) → bit_or 0 b ≡ b
zero-bit_or b = bit_or-bitwise 0 b

-- `&` works on the high and the low field apart.
pub bit_and_split :
    (k q r c d : ℕ)
    → r < 2 ^ k
    → d < 2 ^ k
    → bit_and (q * 2 ^ k + r) (c * 2 ^ k + d) ≡ bit_and q c * 2 ^ k + bit_and r d
bit_and_split zero q zero c zero h g = ground arith
bit_and_split zero q r c d h g = absurd (omega arith)
bit_and_split (suc k) q r c d h g =
    rw
      (
        bit_and_halved (q * 2 ^ suc k + r) (c * 2 ^ suc k + d),
        field_half k q r,
        field_half k c d,
        field_lowest k q r,
        field_lowest k c d,
      )
      (omega (
        arith,
        bit_and_split k q (r / 2) c (d / 2),
        bit_and_halved r d,
        double_pow (bit_and q c) k,
      ))

-- `|` works on the high and the low field apart.
pub bit_or_split :
    (k q r c d : ℕ)
    → r < 2 ^ k
    → d < 2 ^ k
    → bit_or (q * 2 ^ k + r) (c * 2 ^ k + d) ≡ bit_or q c * 2 ^ k + bit_or r d
bit_or_split zero q zero c zero h g = ground arith
bit_or_split zero q r c d h g = absurd (omega arith)
bit_or_split (suc k) q r c d h g =
    rw
      (
        bit_or_halved (q * 2 ^ suc k + r) (c * 2 ^ suc k + d),
        field_half k q r,
        field_half k c d,
        field_lowest k q r,
        field_lowest k c d,
      )
      (omega
        (arith, bit_or_split k q (r / 2) c (d / 2), bit_or_halved r d, double_pow (bit_or q c) k))

half_induction : (P : ℕ → Type 0) → P 0 → ((a : ℕ) → P (a / 2) → P a) → (n a : ℕ) → a ≤ n → P a
half_induction P base step n zero h = base
half_induction P base step zero (suc a) h = absurd (omega arith)
half_induction P base step (suc n) (suc a) h =
    step (suc a) (half_induction P base step n (suc a / 2) (omega arith))

pub bit_and-zero : (a : ℕ) → bit_and a 0 ≡ 0
bit_and-zero a =
    half_induction (λ n. bit_and n 0 ≡ 0) (zero-bit_and 0)
      (λ n ih. omega (arith, bit_and_halved n 0)) a a (le_refl a)

pub bit_or-zero : (a : ℕ) → bit_or a 0 ≡ a
bit_or-zero a =
    half_induction (λ n. bit_or n 0 ≡ n) (zero-bit_or 0) (λ n ih. omega (arith, bit_or_halved n 0))
      a a (le_refl a)

-- `& (2^k - 1)` keeps a number of at most `k` bits.
pub bit_and_ones : (k a m : ℕ) → m + 1 ≡ 2 ^ k → a < 2 ^ k → bit_and a m ≡ a
bit_and_ones zero zero m e h = zero-bit_and m
bit_and_ones zero (suc a) m e h = absurd (omega arith)
bit_and_ones (suc k) a m e h = omega (
  arith,
  bit_and_halved a m,
  bit_and_ones k (a / 2) (m / 2) (omega (arith, pow-suc 2 k)) (omega (arith, pow-suc 2 k)),
  pow-suc 2 k,
)

-- `&` is at most its first operand.
pub bit_and-le : (a b : ℕ) → bit_and a b ≤ a
bit_and-le a =
    half_induction (λ n. (b : ℕ) → bit_and n b ≤ n) (λ b. omega (arith, zero-bit_and b))
      (λ n ih b. omega (arith, bit_and_halved n b, ih (b / 2))) a a (le_refl a)

-- `|` of two numbers of `k` bits has `k` bits.
pub bit_or-lt : (k a b : ℕ) → a < 2 ^ k → b < 2 ^ k → bit_or a b < 2 ^ k
bit_or-lt zero zero zero h g = omega (arith, zero-bit_or 0)
bit_or-lt zero a b h g = absurd (omega arith)
bit_or-lt (suc k) a b h g = omega (
  arith,
  bit_or_halved a b,
  bit_or-lt k (a / 2) (b / 2) (omega (arith, pow-suc 2 k)) (omega (arith, pow-suc 2 k)),
  pow-suc 2 k,
)
