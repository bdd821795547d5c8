-- ===== src/SortedList/Refine.antt =====
-- The three functions of mutex_linked_list.c as operations on a set.
use pthread_benchmark.Prelude.{ℕ, ◌<◌, ◌≡◌, ◌≢◌, not, some, List, length}
use pthread_benchmark.SortedList.{Heap, member, insert, delete}
use pthread_benchmark.SortedList.Chain.{Chain, Fresh, values, has, add, remove, member-has}
use pthread_benchmark.SortedList.Insert.{insert-add}
use pthread_benchmark.SortedList.Delete.{delete-remove}

-- Where the heap holds a sorted list and the fuel is more than the nodes, Member tells whether the
-- value is in the list. Delete ends, the heap then holds the sorted list without the value, and the
-- result tells whether the value was there. Insert, where malloc gives a new address other than
-- NULL, ends, the heap then holds the sorted list with the value, and the result tells whether the
-- value was new.
pub list_is_set :
    (fuel x t : ℕ) (h : Heap) (xs : List ℕ)
    → Chain h 0 h.head xs
    → Fresh t xs
    → t ≢ 0
    → length xs < fuel
    → (member fuel x h ≡ some (has x (values h xs)))
      × ((h' : Heap) × (ys : List ℕ) × (insert fuel x t h ≡ some (h', not (has x (values h xs))))
          × Chain h' 0 h'.head ys
          × (values h' ys ≡ add x (values h xs)))
      × ((h' : Heap) × (ys : List ℕ) × (delete fuel x h ≡ some (h', has x (values h xs)))
          × Chain h' 0 h'.head ys
          × (values h' ys ≡ remove x (values h xs)))
list_is_set fuel x t h xs c f nz enough = (
  member-has fuel x h xs c enough,
  insert-add fuel x t h xs c f nz enough,
  delete-remove fuel x h xs c enough,
)
