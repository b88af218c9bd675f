-- ===== src/Tests/Queues.antt =====
-- The buffer, the wait queue and strings at concrete contents.
use polardb_uncompleted.Base.{
  ℕ, ◌<◌, ◌≡◌, refl, ◌⊎◌, true, false, none, some, [], ◌∷◌, ◌==◌, if◌then◌else◌, arith, write,
}
use polardb_uncompleted.Base.Run.{ok, assertion_failed}
use polardb_uncompleted.Buffer.{
  Buffer, record_buff_size, new, member, request_record_buff, release_buff, if_full,
  wait_for_access, end_access,
}
use polardb_uncompleted.Buffer.Slots.{
  IsValid, new-IsValid, request-Moves, release-Moves, access-excludes,
}
use polardb_uncompleted.WaitQueue.{wait_and_push, wait_and_pop}
use polardb_uncompleted.WaitQueue.Fifo.{Reached, start, pushed, popped, InOrder, Reached-InOrder}
use polardb_uncompleted.PolarString.{of_string, compare}
use polardb_uncompleted.PolarString.Order.{lexicographic, compare-lexicographic}

request-Moves_example :
    ((if_full new ≡ true) × (request_record_buff new ≡ none))
    ⊎ ((r : ℕ) × (b' : Buffer) × (request_record_buff new ≡ some (r, b'))
        × (r < record_buff_size)
        × (member r [] ≡ false)
        × (b'.idxes_wrote ≡ r ∷ [])
        × IsValid b')
unfolding new
request-Moves_example = request-Moves new new-IsValid

release-Moves_example :
    ((member 3 [] ≡ true)
      × (b' : Buffer) × (release_buff new 3 ≡ ok b')
      × IsValid b'
      × ((a : ℕ) → member a b'.idxes_wrote ≡ (if a == 3 then false else member a [])))
    ⊎ ((member 3 [] ≡ false) × (release_buff new 3 ≡ assertion_failed))
unfolding new
release-Moves_example = release-Moves new 3 new-IsValid

abbrev accessed : Buffer
accessed = record new { accessing = write new.accessing 3 true }

access_three : wait_for_access new 3 ≡ some (3, accessed)
unfolding wait_for_access new
access_three = refl

access-excludes_example :
    (wait_for_access accessed 3 ≡ none)
    × (wait_for_access (end_access accessed 4) 3 ≡ none)
    × ((again : Buffer) × (wait_for_access (end_access accessed 3) 3 ≡ some (3, again)))
access-excludes_example = access-excludes new accessed 3 3 4 access_three (λ e. omega arith)

after_three : Reached {A = ℕ} 2 (6 ∷ []) (5 ∷ 6 ∷ []) (5 ∷ [])
unfolding wait_and_push wait_and_pop
after_three = popped 5 (pushed 6 (pushed 5 start refl) refl) refl

Reached-InOrder_example : InOrder {A = ℕ} 2 (6 ∷ []) (5 ∷ 6 ∷ []) (5 ∷ [])
Reached-InOrder_example = Reached-InOrder 2 after_three

compare-lexicographic_example :
    compare (of_string (97 ∷ 98 ∷ [])) (of_string (97 ∷ 200 ∷ 97 ∷ []))
    ≡ ok (lexicographic (97 ∷ 98 ∷ []) (97 ∷ 200 ∷ 97 ∷ []))
unfolding of_string
compare-lexicographic_example =
    compare-lexicographic (of_string (97 ∷ 98 ∷ [])) (of_string (97 ∷ 200 ∷ 97 ∷ [])) (omega arith)
      (omega arith)
