-- ===== src/SortedList/Thread.antt =====
-- Thread_operation of mutex_linked_list.c, where one thread runs.
use pthread_benchmark.Prelude.{
  ℕ, ◌+◌, ◌%◌, Bool, Option, none, some, List, [], ◌∷◌, ◌==◌, ltb, ◌&&◌, ◌||◌, if◌then◌else◌,
}
use pthread_benchmark.SortedList.{Heap, member, insert, delete}

abbrev pub max_number : ℕ
max_number = 65535

-- The counts of a thread, and with the same names their limits.
pub record Numbers : Type 0 where
  pub member_number : ℕ
  pub insert_number : ℕ
  pub delete_number : ℕ

-- The condition of the loop.
abbrev pub has_more : Numbers → Numbers → Bool
has_more limits n =
    ltb n.member_number limits.member_number
    || ltb n.insert_number limits.insert_number
    || ltb n.delete_number limits.delete_number

-- What the next operation of a round is.
pub data Choice : Type 0 where
  members inserts deletes skips : Choice

abbrev pub choose : Numbers → ℕ → Numbers → Choice
choose limits random_number n =
    if random_number % 3 == 0 && ltb n.member_number limits.member_number
    then members
    else if random_number % 3 == 1 && ltb n.insert_number limits.insert_number
    then inserts
    else if random_number % 3 == 2 && ltb n.delete_number limits.delete_number
    then deletes
    else skips

abbrev pub counted : Choice → Numbers → Numbers
counted members n = record n { member_number = n.member_number + 1 }
counted inserts n = record n { insert_number = n.insert_number + 1 }
counted deletes n = record n { delete_number = n.delete_number + 1 }
counted skips n = n

-- The heap that a function leaves; its result is not used.
abbrev pub only_heap : Option (Heap × Bool) → Option Heap
only_heap none = none
only_heap (some (h, b)) = some h

abbrev pub if_some : Option Bool → Heap → Option Heap
if_some none h = none
if_some (some b) h = some h

-- `fuel` is for the loop of the function that is called, `temp` is what malloc gives.
unfoldable pub apply : Choice → ℕ → ℕ → ℕ → Heap → Option Heap
apply members fuel value temp h = if_some (member fuel value h) h
apply inserts fuel value temp h = only_heap (insert fuel value temp h)
apply deletes fuel value temp h = only_heap (delete fuel value h)
apply skips fuel value temp h = some h

-- The loop, over the values of rand and malloc for its rounds; it stops where these end.
unfoldable pub thread_operation :
    Numbers → ℕ → List (ℕ × ℕ) → Numbers → Heap → Option (Numbers × Heap)
thread_operation limits fuel [] n h = some (n, h)
thread_operation limits fuel ((rand, temp) ∷ inputs) n h =
    let random_number = rand % (max_number + 1) in
    let choice = choose limits random_number n in
    if has_more limits n
    then elim (apply choice fuel random_number temp h) [
      | none ↦ none
      | some h' ↦ thread_operation limits fuel inputs (counted choice n) h'
    ]
    else some (n, h)
