-- ===== src/SortedList/Rounds.antt =====
-- A thread that runs alone does to the list what its operations do to a set.
use pthread_benchmark.Prelude.{
  ℕ, suc, ◌+◌, ◌%◌, ◌<◌, ◌≤◌, ◌≡◌, ◌≢◌, refl, ap, true, false, ◌==◌, ◌&&◌, ltb, subst, Bool-cases,
  inl, inr, none, some, List, [], ◌∷◌, length, arith,
}
use pthread_benchmark.SortedList.{Heap}
use pthread_benchmark.SortedList.Chain.{Chain, Fresh, values, add, remove, member-has}
use pthread_benchmark.SortedList.Insert.{insert-add}
use pthread_benchmark.SortedList.Delete.{delete-remove}
use pthread_benchmark.SortedList.Thread.{
  Numbers, has_more, Choice, members, inserts, deletes, skips, choose, counted, apply,
  thread_operation, max_number,
}

abbrev pub on_set : Choice → ℕ → List ℕ → List ℕ
on_set members x ys = ys
on_set inserts x ys = add x ys
on_set deletes x ys = remove x ys
on_set skips x ys = ys

-- A round over a set with the number `x`: an operation of the kind that x chooses, where the thread
-- may make one more of it, or nothing.
pub data Turn (limits : Numbers) (x : ℕ) (n : Numbers) (ys : List ℕ)
    : Numbers → List ℕ → Type 0 where
  looks :
      x % 3 ≡ 0
      → n.member_number < limits.member_number
      → Turn limits x n ys (record n { member_number = n.member_number + 1 }) ys
  adds :
      x % 3 ≡ 1
      → n.insert_number < limits.insert_number
      → Turn limits x n ys (record n { insert_number = n.insert_number + 1 }) (add x ys)
  removes :
      x % 3 ≡ 2
      → n.delete_number < limits.delete_number
      → Turn limits x n ys (record n { delete_number = n.delete_number + 1 }) (remove x ys)
  passes :
      (x % 3 ≡ 0 → limits.member_number ≤ n.member_number)
      → (x % 3 ≡ 1 → limits.insert_number ≤ n.insert_number)
      → (x % 3 ≡ 2 → limits.delete_number ≤ n.delete_number)
      → Turn limits x n ys n ys

abbrev pub IsFull : Numbers → Numbers → Type 0
IsFull limits n =
    (limits.member_number ≤ n.member_number)
    × (limits.insert_number ≤ n.insert_number)
    × (limits.delete_number ≤ n.delete_number)

-- Rounds until all limits are reached or the inputs end. The numbers are below 65536.
pub data Rounds (limits : Numbers)
    : List (ℕ × ℕ) → Numbers → List ℕ → Numbers → List ℕ → Type 0 where
  ends : (n : Numbers) (ys : List ℕ) → Rounds limits [] n ys n ys
  stops :
      (inputs : List (ℕ × ℕ)) (n : Numbers) (ys : List ℕ)
      → IsFull limits n
      → Rounds limits inputs n ys n ys
  goes_on :
      (rand temp : ℕ) (inputs : List (ℕ × ℕ)) (n n' n'' : Numbers) (ys ys' ys'' : List ℕ)
      → ¬ IsFull limits n
      → Turn limits (rand % 65536) n ys n' ys'
      → Rounds limits inputs n' ys' n'' ys''
      → Rounds limits ((rand, temp) ∷ inputs) n ys n'' ys''

not-IsFull : (limits n : Numbers) → has_more limits n ≡ true → ¬ IsFull limits n
not-IsFull limits n h (a, b, c) = ground arith

full : (limits n : Numbers) → has_more limits n ≡ false → IsFull limits n
full limits n h = (ground arith, ground arith, ground arith)

choose-Turn :
    (limits : Numbers) (x : ℕ) (n : Numbers) (ys : List ℕ)
    → Turn limits x n ys (counted (choose limits x n) n) (on_set (choose limits x n) x ys)
choose-Turn limits x n ys =
    elim (Bool-cases (x % 3 == 0 && ltb n.member_number limits.member_number)) [
      | inl looked ↦ rw looked (looks (ground arith) (ground arith))
      | inr a ↦ elim (Bool-cases (x % 3 == 1 && ltb n.insert_number limits.insert_number)) [
        | inl added ↦ rw (a, added) (adds (ground arith) (ground arith))
        | inr b ↦ elim (Bool-cases (x % 3 == 2 && ltb n.delete_number limits.delete_number)) [
          | inl removed ↦ rw (a, b, removed) (removes (ground arith) (ground arith))
          | inr c ↦
              rw (a, b, c) (passes (λ e. ground arith) (λ e. ground arith) (λ e. ground arith))
        ]
      ]
    ]

-- In each round that the thread comes to, malloc gives an address that is neither NULL nor a node.
unfoldable pub Allocates : Numbers → ℕ → List (ℕ × ℕ) → Numbers → Heap → Type 0
Allocates limits fuel [] n h = Unit
Allocates limits fuel ((rand, temp) ∷ inputs) n h =
    (temp ≢ 0)
    × ((xs : List ℕ) → Chain h 0 h.head xs → Fresh temp xs)
    × (elim (apply (choose limits (rand % (max_number + 1)) n) fuel (rand % (max_number + 1)) temp
        h) [
          | none ↦ Unit
          | some h' ↦
              Allocates limits fuel inputs (counted (choose limits (rand % (max_number + 1)) n) n)
                h'
        ])

length-values : (h : Heap) (xs : List ℕ) → length (values h xs) ≡ length xs
length-values h [] = refl
length-values h (a ∷ xs) = ap suc (length-values h xs)

length-add : (x : ℕ) (ys : List ℕ) → length (add x ys) ≤ length ys + 1
length-add x [] = omega arith
length-add x (y ∷ ys) = ground (arith, length-add x ys)

length-remove : (x : ℕ) (ys : List ℕ) → length (remove x ys) ≤ length ys + 1
length-remove x [] = omega arith
length-remove x (y ∷ ys) = ground (arith, length-remove x ys)

length-on_set : (k : Choice) (x : ℕ) (ys : List ℕ) → length (on_set k x ys) ≤ length ys + 1
length-on_set members x ys = omega arith
length-on_set inserts x ys = length-add x ys
length-on_set deletes x ys = length-remove x ys
length-on_set skips x ys = omega arith

-- One operation.
apply-on_set :
    (k : Choice) (fuel x t : ℕ) (h : Heap) (xs : List ℕ)
    → Chain h 0 h.head xs
    → Fresh t xs
    → t ≢ 0
    → length xs < fuel
    → (h' : Heap) × (ys : List ℕ) × (apply k fuel x t h ≡ some h')
      × Chain h' 0 h'.head ys
      × (values h' ys ≡ on_set k x (values h xs))
unfolding apply
apply-on_set members fuel x t h xs c f nz lt =
    (h, xs, rw (member-has fuel x h xs c lt) refl, c, refl)
apply-on_set inserts fuel x t h xs c f nz lt =
    let (h', ys, e, c', v) = insert-add fuel x t h xs c f nz lt in (h', ys, rw e refl, c', v)
apply-on_set deletes fuel x t h xs c f nz lt =
    let (h', ys, e, c', v) = delete-remove fuel x h xs c lt in (h', ys, rw e refl, c', v)
apply-on_set skips fuel x t h xs c f nz lt = (h, xs, refl, c, refl)

-- Where one thread runs, the heap holds a sorted list, malloc gives addresses that are neither NULL
-- nor nodes then, and the fuel is more than the nodes and rounds: for every outcome of rand,
-- Thread_operation ends with a sorted list and counts that rounds over a set of numbers lead to. In
-- each such round the random number below 65536 chooses by its remainder by 3 whether to look, add
-- or remove; this is done and counted only below its limit, else nothing happens; and the rounds
-- stop when all limits are reached or the inputs end.
pub thread_operation-Rounds :
    (limits : Numbers) (fuel : ℕ) (inputs : List (ℕ × ℕ)) (n : Numbers) (h : Heap) (xs : List ℕ)
    → Chain h 0 h.head xs
    → Allocates limits fuel inputs n h
    → length xs + length inputs < fuel
    → (n' : Numbers) × (h' : Heap) × (ys : List ℕ) × (thread_operation limits fuel inputs n h
        ≡ some (n', h'))
      × Chain h' 0 h'.head ys
      × Rounds limits inputs n (values h xs) n' (values h' ys)
unfolding thread_operation Allocates
thread_operation-Rounds limits fuel [] n h xs c f lt = (n, h, xs, refl, c, ends n (values h xs))
thread_operation-Rounds limits fuel ((rand, temp) ∷ inputs) n h xs c (nz, f, more) lt =
    elim (Bool-cases (has_more limits n)) [
      | inl go ↦
          let x = rand % (max_number + 1) in
          let k = choose limits x n in
          let (h', ys, e, c', v) = apply-on_set k fuel x temp h xs c (f xs c) nz (omega arith) in
          let (n', h'', zs, e', c'', v') =
            thread_operation-Rounds limits fuel inputs (counted k n) h' ys c' (rw e at more) (
              omega (
                arith,
                length-values h' ys,
                length-values h xs,
                ap length v,
                length-on_set k x (values h xs),
              )) in
          (
            n',
            h'',
            zs,
            rw (go, e) e',
            c'',
            goes_on rand temp inputs n (counted k n) n' (values h xs) (on_set k x (values h xs))
                (values h'' zs) (not-IsFull limits n go) (choose-Turn limits x n (values h xs))
                (subst (λ zs'. Rounds limits inputs (counted k n) zs' n' (values h'' zs)) v v'),
          )
      | inr stop ↦ (
        n,
        h,
        xs,
        rw stop refl,
        c,
        stops ((rand, temp) ∷ inputs) n (values h xs) (full limits n stop),
      )
    ]
