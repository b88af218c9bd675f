-- ===== src/Utils.antt =====
-- engine_race/DBSystem/utils.cpp, `get_key`: the key of a record from the first eight bytes of a
-- string.
use polardb_uncompleted.Base.{
  ℕ, zero, suc, ◌+◌, ◌-◌, ◌*◌, ◌%◌, ◌^◌, List, [], ◌∷◌, ◌++◌, ◌==◌, ltb, if◌then◌else◌,
}
use Prim.Native.Nat.{bit_or}
use polardb_uncompleted.Base.Run.{Run, ok, undefined, ◌>>=◌}

-- `(KEY_T)data[i]`: a `char` is signed on x86-64, so a byte of 128 or more stands for a negative
-- number.
unfoldable pub sign_extended : ℕ → ℕ
sign_extended c = if ltb c 128 then c else 2 ^ 64 - 256 + c

-- The for loop, by the rounds left: `7-i` of them follow. A block that is too short is read past
-- its end.
unfoldable pub key_loop : ℕ → List ℕ → ℕ → Run ℕ
unfolding sign_extended
key_loop zero text ret = ok ret
key_loop (suc rounds) [] ret = undefined
key_loop (suc rounds) (c ∷ text) ret =
    key_loop rounds text (bit_or ret (sign_extended c * 2 ^ (rounds * 8) % 2 ^ 64))

-- `data()` ends with a zero byte behind the string.
unfoldable pub get_key : List ℕ → Run ℕ
unfolding key_loop
get_key text = key_loop 8 (text ++ 0 ∷ []) 0

-- `item[item.length()-1]`, outside an empty string
unfoldable pub last_byte : List ℕ → Run ℕ
last_byte [] = undefined
last_byte (b ∷ []) = ok b
last_byte (b ∷ c ∷ item) = last_byte (c ∷ item)

-- The loop writes each item, and a slash behind it unless it ends with one or is the last.
unfoldable pub path_join : List (List ℕ) → Run (List ℕ)
unfolding last_byte
path_join [] = ok []
path_join (item ∷ []) = last_byte item >>= λ b. ok item
path_join (item ∷ next ∷ items) = last_byte item >>= λ b. path_join (next ∷ items) >>= λ path.
    ok (item ++ ((if b == b'/' then [] else b'/' ∷ []) ++ path))
