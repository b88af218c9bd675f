-- ===== src/PolarString.antt =====
-- include/polar_string.h, class PolarString: a pointer to bytes and a size.
pub mod Order
use polardb_uncompleted.Base.{
  ℕ, zero, suc, ◌-◌, Bool, true, false, not, List, [], ◌∷◌, ◌==◌, leb, ltb, if◌then◌else◌, length,
}
use polardb_uncompleted.Base.Run.{Run, ok, undefined, ◌>>=◌}

-- The sign of an `int` that a comparison returns.
pub data Sign : Type 0 where
  negative : Sign
  zero_sign : Sign
  positive : Sign

abbrev pub is_zero : Sign → Bool
is_zero zero_sign = true
is_zero _ = false

-- `data` is the memory block from `data_` on, byte by byte.
pub record PolarString : Type 0 where
  pub bytes : List ℕ
  pub size : ℕ

-- `memcmp` of the C library: the first difference among `n` bytes, compared as unsigned numbers
unfoldable pub memcmp : List ℕ → List ℕ → ℕ → Run Sign
memcmp a b zero = ok zero_sign
memcmp (x ∷ a) (y ∷ b) (suc n) =
    let rest = memcmp a b n in if x == y then rest else if ltb x y then ok negative else ok positive
memcmp [] b (suc n) = undefined
memcmp (x ∷ a) [] (suc n) = undefined

unfoldable pub drop : ℕ → List ℕ → List ℕ
drop zero xs = xs
drop (suc n) [] = []
drop (suc n) (x ∷ xs) = drop n xs

-- `PolarString(const std::string& s)`
unfoldable pub of_string : List ℕ → PolarString
of_string s = record { bytes = s; size = length s }

unfoldable pub empty : PolarString → Bool
empty s = s.size == 0

-- The byte at an index is undefined outside the block.
unfoldable pub char_at : List ℕ → ℕ → Run ℕ
char_at [] n = undefined
char_at (x ∷ xs) zero = ok x
char_at (x ∷ xs) (suc n) = char_at xs n

unfoldable pub clear : PolarString → PolarString
clear s = record { bytes = 0 ∷ []; size = 0 }

unfoldable pub starts_with : PolarString → PolarString → Run Bool
unfolding memcmp
starts_with s x =
    if leb x.size s.size then memcmp s.bytes x.bytes x.size >>= (λ r. ok (is_zero r)) else ok false

unfoldable pub ends_with : PolarString → PolarString → Run Bool
unfolding memcmp drop
ends_with s x =
    if leb x.size s.size
    then memcmp (drop (s.size - x.size) s.bytes) x.bytes x.size >>= (λ r. ok (is_zero r))
    else ok false

-- `operator==` and `operator!=`
unfoldable pub equal : PolarString → PolarString → Run Bool
unfolding memcmp
equal x y =
    if x.size == y.size then memcmp x.bytes y.bytes x.size >>= (λ r. ok (is_zero r)) else ok false

unfoldable pub not_equal : PolarString → PolarString → Run Bool
unfolding equal
not_equal x y = equal x y >>= (λ r. ok (not r))

-- `std::string::assign(data_, size_)`
unfoldable pub assign : List ℕ → ℕ → Run (List ℕ)
assign a zero = ok []
assign [] (suc n) = undefined
assign (x ∷ a) (suc n) = assign a n >>= (λ s. ok (x ∷ s))

unfoldable pub to_string : PolarString → Run (List ℕ)
unfolding assign
to_string s = assign s.bytes s.size

-- The test on the sizes when the common part is the same.
unfoldable pub break_tie : ℕ → ℕ → Sign → Sign
break_tie m n r =
    if is_zero r then if ltb m n then negative else if ltb n m then positive else r else r

unfoldable pub compare : PolarString → PolarString → Run Sign
unfolding memcmp break_tie
compare s b =
    let min_len : ℕ = if ltb s.size b.size then s.size else b.size in
    memcmp s.bytes b.bytes min_len >>= (λ r. ok (break_tie s.size b.size r))
