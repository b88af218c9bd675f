-- ===== src/WaitQueue/Fifo.antt =====
-- The order in which values leave a queue, whatever the threads call.
use polardb_uncompleted.Base.{
  ℕ, ◌≤◌, ◌<◌, ◌≡◌, refl, sym, ap, ◌∙◌, true, some, List, [], ◌∷◌, ◌++◌, length, length-append,
  arith,
}
use mathlib.Core.List.{append_assoc}
use polardb_uncompleted.WaitQueue.{WaitQueue, try_pop, wait_and_pop, try_push, wait_and_push}

module _ {ℓ} {A : Type ℓ} (capacity : ℕ) where
  -- The queues that calls lead to from the empty one, with the values pushed and popped so far,
  -- the first one first. A call that waits or fails is no step.
  pub data Reached : WaitQueue A → List A → List A → Type ℓ where
    start : Reached [] [] []
    pushed :
        {q q' : WaitQueue A} {ins outs : List A} (v : A)
        → Reached q ins outs
        → wait_and_push capacity q v ≡ some q'
        → Reached q' (ins ++ v ∷ []) outs
    try_pushed :
        {q q' : WaitQueue A} {ins outs : List A} (v : A)
        → Reached q ins outs
        → try_push capacity q v ≡ (true, q')
        → Reached q' (ins ++ v ∷ []) outs
    popped :
        {q q' : WaitQueue A} {ins outs : List A} (v : A)
        → Reached q ins outs
        → wait_and_pop q ≡ some (v, q')
        → Reached q' ins (outs ++ v ∷ [])
    try_popped :
        {q q' : WaitQueue A} {ins outs : List A} (v : A)
        → Reached q ins outs
        → try_pop q ≡ (some v, q')
        → Reached q' ins (outs ++ v ∷ [])

  abbrev pub InOrder : WaitQueue A → List A → List A → Type ℓ
  InOrder q ins outs = (ins ≡ outs ++ q) × (length q ≤ capacity)

  push-lem :
      (q q' : WaitQueue A) (v : A)
      → wait_and_push capacity q v ≡ some q'
      → (q' ≡ q ++ v ∷ []) × (length q < capacity)
  unfolding wait_and_push
  push-lem q q' v e = (ground arith, ground arith)

  try_push-lem :
      (q q' : WaitQueue A) (v : A)
      → try_push capacity q v ≡ (true, q')
      → (q' ≡ q ++ v ∷ []) × (length q < capacity)
  unfolding try_push
  try_push-lem q q' v e = (ground arith, ground arith)

  pop-lem : (q q' : WaitQueue A) (v : A) → wait_and_pop q ≡ some (v, q') → q ≡ v ∷ q'
  unfolding wait_and_pop
  pop-lem [] q' v e = cc
  pop-lem (x ∷ q) q' v e = cc

  try_pop-lem : (q q' : WaitQueue A) (v : A) → try_pop q ≡ (some v, q') → q ≡ v ∷ q'
  unfolding try_pop
  try_pop-lem [] q' v e = cc
  try_pop-lem (x ∷ q) q' v e = cc

  push-InOrder :
      (q q' : WaitQueue A) (ins outs : List A) (v : A)
      → InOrder q ins outs
      → (q' ≡ q ++ v ∷ []) × (length q < capacity)
      → InOrder q' (ins ++ v ∷ []) outs
  push-InOrder q q' ins outs v (order, bound) (e, room) = rw e (
    ap (λ xs. xs ++ v ∷ []) order ∙ append_assoc outs q (v ∷ []),
    omega (arith, length-append q (v ∷ [])),
  )

  pop-InOrder :
      (q q' : WaitQueue A) (ins outs : List A) (v : A)
      → InOrder q ins outs
      → q ≡ v ∷ q'
      → InOrder q' ins (outs ++ v ∷ [])
  pop-InOrder q q' ins outs v (order, bound) e = (
    order ∙ ap (λ xs. outs ++ xs) e ∙ sym (append_assoc outs (v ∷ []) q'),
    omega (arith, ap length e),
  )

  -- After any calls from the empty queue the values pushed are the values popped followed by those
  -- in the queue, in order, and the queue holds at most `capacity` values.
  pub Reached-InOrder :
      {q : WaitQueue A} {ins outs : List A} → Reached q ins outs → InOrder q ins outs
  Reached-InOrder start = (refl, omega arith)
  Reached-InOrder (pushed v r e) = push-InOrder _ _ _ _ v (Reached-InOrder r) (push-lem _ _ v e)
  Reached-InOrder (try_pushed v r e) =
      push-InOrder _ _ _ _ v (Reached-InOrder r) (try_push-lem _ _ v e)
  Reached-InOrder (popped v r e) = pop-InOrder _ _ _ _ v (Reached-InOrder r) (pop-lem _ _ v e)
  Reached-InOrder (try_popped v r e) =
      pop-InOrder _ _ _ _ v (Reached-InOrder r) (try_pop-lem _ _ v e)
