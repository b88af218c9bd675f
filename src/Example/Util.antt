-- ===== src/Example/Util.antt =====
-- include/engine.h, the return codes; engine_example/util.cc, `StrHash`.
use Prim.Native.Nat.{bit_xor}
use polardb_uncompleted.Base.{ℕ, ◌-◌, ◌*◌, ◌%◌, ◌^◌, List, [], ◌∷◌, ltb, if◌then◌else◌}

pub data RetCode : Type 0 where
  succ : RetCode
  not_found : RetCode
  corruption : RetCode
  not_supported : RetCode
  invalid_argument : RetCode
  io_error : RetCode
  incomplete : RetCode
  timed_out : RetCode
  full : RetCode
  out_of_memory : RetCode

abbrev pub prime_a : ℕ
prime_a = 54059

abbrev pub prime_b : ℕ
prime_b = 76963

abbrev pub hash_finish : ℕ
hash_finish = 37

-- `s[0] * kB` as the unsigned number that it is converted to: a `char` of 128 or more is negative.
unfoldable pub char_times_b : ℕ → ℕ
char_times_b c = if ltb c 128 then c * prime_b else (2 ^ 32 - (256 - c) * prime_b)

unfoldable pub hash_loop : List ℕ → ℕ → ℕ
unfolding char_times_b
hash_loop [] h = h
hash_loop (c ∷ s) h = hash_loop s (bit_xor (h * prime_a % 2 ^ 32) (char_times_b c))

unfoldable pub str_hash : List ℕ → ℕ
unfolding hash_loop
str_hash s = hash_loop s hash_finish
