-- ===== src/SortedList.antt =====
-- The sorted linked list of Faulty/ManyBugs/mutex_linked_list.c. A pointer is a number, 0 is NULL,
-- and the heap is what the nodes at all addresses hold.
mod Chain
mod Relink
mod Insert
mod Delete
mod Refine
mod Thread
mod Rounds
mod Tests
use pthread_benchmark.Prelude.{
  ℕ, zero, suc, Bool, true, false, Option, none, some, ◌==◌, ltb, ◌&&◌, ◌||◌, not, if◌then◌else◌,
  update,
}

-- `struct node` at each address, and `*head`.
pub record Heap : Type 0 where
  pub data_ : ℕ → ℕ
  pub next : ℕ → ℕ
  pub head : ℕ

-- The loop that the three functions share: it ends with `prev` and `curr`. The first argument is
-- fuel.
unfoldable pub walk : ℕ → Heap → ℕ → ℕ → ℕ → Option (ℕ × ℕ)
walk zero h value prev curr = none
walk (suc fuel) h value prev curr =
    let rest = walk fuel h value curr (h.next curr) in
    if curr == 0
    then some (prev, curr)
    else if ltb (h.data_ curr) value
    then rest
    else some (prev, curr)

-- The test of `Member` and `Insert` after the loop is the negation of this.
unfoldable pub found : Heap → ℕ → ℕ → Bool
found h value curr = not (curr == 0 || ltb value (h.data_ curr))

-- The test of `Delete`.
unfoldable pub to_delete : Heap → ℕ → ℕ → Bool
to_delete h value curr = not (curr == 0) && h.data_ curr == value

-- `prev->next = p`, or `*head = p` where there is no `prev`.
unfoldable pub link : Heap → ℕ → ℕ → Heap
link h prev p =
    if prev == 0 then record h { head = p } else record h { next = update h.next prev p }

-- `Member` walks without `prev`.
unfoldable pub member : ℕ → ℕ → Heap → Option Bool
member fuel value h = elim (walk fuel h value 0 h.head) [
  | none ↦ none
  | some (prev, curr) ↦ some (found h value curr)
]

-- `temp` is the address that malloc gives.
unfoldable pub place : Heap → ℕ → ℕ → ℕ → ℕ → Heap × Bool
place h value temp prev curr = if found h value curr then (h, false) else (
  link (record h { data_ = update h.data_ temp value; next = update h.next temp curr }) prev temp,
  true,
)

unfoldable pub insert : ℕ → ℕ → ℕ → Heap → Option (Heap × Bool)
insert fuel value temp h = elim (walk fuel h value 0 h.head) [
  | none ↦ none
  | some (prev, curr) ↦ some (place h value temp prev curr)
]

unfoldable pub unlink : Heap → ℕ → ℕ → ℕ → Heap × Bool
unlink h value prev curr =
    if to_delete h value curr then (link h prev (h.next curr), true) else (h, false)

unfoldable pub delete : ℕ → ℕ → Heap → Option (Heap × Bool)
delete fuel value h = elim (walk fuel h value 0 h.head) [
  | none ↦ none
  | some (prev, curr) ↦ some (unlink h value prev curr)
]
