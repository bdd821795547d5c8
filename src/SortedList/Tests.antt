-- ===== src/SortedList/Tests.antt =====
-- Runs of the list of mutex_linked_list.c.
use pthread_benchmark.Prelude.{
  ℕ, ◌+◌, ◌≡◌, ◌≢◌, refl, sym, ap, ◌∙◌, subst, not, some, List, [], ◌∷◌, update, arith,
}
use pthread_benchmark.SortedList.{
  Heap, member, insert, delete, walk, found, place, link, unlink, to_delete,
}
use pthread_benchmark.SortedList.Thread.{Numbers, apply, thread_operation}
use pthread_benchmark.SortedList.Rounds.{Allocates, Rounds, thread_operation-Rounds}
use pthread_benchmark.SortedList.Chain.{Chain, Fresh, values, has, add, remove}
use pthread_benchmark.SortedList.Refine.{list_is_set}

-- 10 and 20, at the addresses 5 and 9.
abbrev two_nodes : Heap
two_nodes = record {
  data_ = update (update (λ _. 0) 5 10) 9 20;
  next = update (λ _. 0) 5 9;
  head = 5;
}

two_nodes-Chain : Chain two_nodes 0 5 (5 ∷ 9 ∷ [])
two_nodes-Chain =
    (refl, (λ e. omega arith), omega arith, (refl, (λ e. omega arith), omega arith, refl))

list_is_set_example :
    (member 3 15 two_nodes ≡ some (has 15 (values two_nodes (5 ∷ 9 ∷ []))))
    × ((h' : Heap) × (ys : List ℕ) × (insert 3 15 7 two_nodes
          ≡ some (h', not (has 15 (values two_nodes (5 ∷ 9 ∷ [])))))
        × Chain h' 0 h'.head ys
        × (values h' ys ≡ add 15 (values two_nodes (5 ∷ 9 ∷ []))))
    × ((h' : Heap) × (ys : List ℕ) × (delete 3 15 two_nodes
          ≡ some (h', has 15 (values two_nodes (5 ∷ 9 ∷ []))))
        × Chain h' 0 h'.head ys
        × (values h' ys ≡ remove 15 (values two_nodes (5 ∷ 9 ∷ []))))
list_is_set_example =
    list_is_set 3 15 7 two_nodes (5 ∷ 9 ∷ []) two_nodes-Chain
      ((λ e. omega arith), ((λ e. omega arith), tt)) (λ e. omega arith) (omega arith)

abbrev empty_heap : Heap
empty_heap = record { data_ = λ _. 0; next = λ _. 0; head = 0 }

no_node-Fresh : (h : Heap) (low t : ℕ) (xs : List ℕ) → Chain h low 0 xs → Fresh t xs
no_node-Fresh h low t [] c = tt
no_node-Fresh h low t (a ∷ xs) (e, nz, lo, c) = absurd (nz (sym e))

one_node-Fresh :
    (h : Heap) (p t : ℕ) (xs : List ℕ) → h.next p ≡ 0 → p ≢ t → Chain h 0 p xs → Fresh t xs
one_node-Fresh h p t [] e ne c = tt
one_node-Fresh h p t (a ∷ xs) e ne (q, nz, lo, c) = (
  λ z. ne (q ∙ z),
  no_node-Fresh h (h.data_ a + 1) t xs
      (subst (λ n. Chain h (h.data_ a + 1) n xs) (ap h.next (sym q) ∙ e) c),
)

-- 4 goes in, and 5 is not there.
abbrev two_rounds : List (ℕ × ℕ)
two_rounds = (4, 5) ∷ (5, 7) ∷ []

-- The heap after the first round.
abbrev four_in : Heap
four_in = record {
  data_ = update empty_heap.data_ 5 4;
  next = update empty_heap.next 5 0;
  head = 5;
}

abbrev limits : Numbers
limits = record { member_number = 0; insert_number = 1; delete_number = 1 }

abbrev no_rounds : Numbers
no_rounds = record { member_number = 0; insert_number = 0; delete_number = 0 }

two_rounds-Allocates : Allocates limits 3 two_rounds no_rounds empty_heap
unfolding Allocates apply insert delete walk found place link unlink to_delete
two_rounds-Allocates = (
  (λ e. omega arith),
  no_node-Fresh empty_heap 0 5,
  ((λ e. omega arith), (λ xs. one_node-Fresh four_in 5 7 xs refl (λ e. omega arith)), tt),
)

thread_operation-Rounds_example :
    (n' : Numbers) × (h' : Heap) × (ys : List ℕ) × (thread_operation limits 3 two_rounds no_rounds
        empty_heap
      ≡ some (n', h'))
    × Chain h' 0 h'.head ys
    × Rounds limits two_rounds no_rounds [] n' (values h' ys)
thread_operation-Rounds_example =
    thread_operation-Rounds limits 3 two_rounds no_rounds empty_heap [] refl two_rounds-Allocates
      (omega arith)
