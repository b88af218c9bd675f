-- ===== src/WaitQueue.antt =====
-- engine_race/DBSystem/WaitQueue.h: a bounded queue behind one mutex, so that each method is one
-- step; `none` means that the caller waits on a condition variable, with nothing changed. The
-- three overloads of `wait_and_push` do the same.
pub mod Fifo
use polardb_uncompleted.Base.{
  ℕ, Bool, true, false, Option, none, some, List, [], ◌∷◌, ◌++◌, length, ltb, leb, if◌then◌else◌,
}

-- `data_queue`, the front first
abbrev pub WaitQueue {ℓ} : Type ℓ → Type ℓ
WaitQueue A = List A

module _ {ℓ} {A : Type ℓ} where
  unfoldable pub empty : WaitQueue A → Bool
  empty [] = true
  empty (x ∷ q) = false

  unfoldable pub size : WaitQueue A → ℕ
  size q = length q

  -- The value is left as it is, `none`, when the queue is empty.
  unfoldable pub try_pop : WaitQueue A → Option A × WaitQueue A
  try_pop [] = (none, [])
  try_pop (x ∷ q) = (some x, q)

  unfoldable pub wait_and_pop : WaitQueue A → Option (A × WaitQueue A)
  wait_and_pop [] = none
  wait_and_pop (x ∷ q) = some (x, q)

  unfoldable pub try_push : ℕ → WaitQueue A → A → Bool × WaitQueue A
  try_push capacity q new_value =
      if leb capacity (length q) then (false, q) else (true, q ++ new_value ∷ [])

  unfoldable pub wait_and_push : ℕ → WaitQueue A → A → Option (WaitQueue A)
  wait_and_push capacity q new_value =
      if leb capacity (length q)
      then if ltb (length q) capacity then some (q ++ new_value ∷ []) else none
      else some (q ++ new_value ∷ [])
