-- ===== src/QueueCyclic/Order.antt =====
-- The cyclic queue of queue_cyclic.c as a bounded first-in first-out list.
use pthread_benchmark.Prelude.{
  ℕ, ◌+◌, ◌-◌, ◌%◌, ◌<◌, ◌≤◌, ◌≡◌, refl, sym, ap, ◌∙◌, inl, inr, Bool, true, false, Option, none,
  List, [], ◌∷◌, ◌++◌, ◌==◌, ltb, if◌then◌else◌, update, length, arith, Bool-cases, eq_of_==,
  ne_of_==,
}
use mathlib.Core.Path.{ap₂}
use pthread_benchmark.Prelude.Cyclic.{
  turn_cases, window, length-window, window-update, window-snoc, window-pop,
}
use pthread_benchmark.QueueCyclic.{
  Queue, queue_size, queue_is_full, queue_is_empty, queue_enqueue, queue_dequeue,
}

module _ {A : Type 0} where
  -- Both indices are in range.
  pub record IsValid (q : Queue A) : Type 0 where
    pub front_in : q.front < q.max_size
    pub tail_in : q.tail < q.max_size

  -- The entries from the front to the tail, oldest first.
  abbrev pub contents : Queue A → List (Option A)
  contents q = window q.cyclic_buf q.max_size q.front (queue_size q)

  -- A first-in first-out list of at most `bound` entries.
  abbrev pub put : ℕ → Option A → List (Option A) → List (Option A) × Bool
  put bound x xs = if ltb (length xs) bound then (xs ++ (x ∷ []), true) else (xs, false)

  abbrev pub get : List (Option A) → List (Option A) × Option A
  get [] = ([], none)
  get (x ∷ xs) = (xs, x)

  pub tail-at : (q : Queue A) → IsValid q → (q.front + queue_size q) % q.max_size ≡ q.tail
  unfolding queue_size
  tail-at q w =
      ground (arith, turn_cases q.max_size q.front (queue_size q) w.front_in, w.front_in, w.tail_in)

  pub size_lt : (q : Queue A) → IsValid q → queue_size q < q.max_size
  unfolding queue_size
  size_lt q w = ground (arith, w.front_in, w.tail_in)

  pub is_full-size : (q : Queue A) → IsValid q → queue_is_full q ≡ (queue_size q + 1 == q.max_size)
  unfolding queue_size queue_is_full
  is_full-size q w = ground (arith, turn_cases q.max_size q.tail 1 w.tail_in, w.front_in, w.tail_in)

  pub is_empty-size : (q : Queue A) → IsValid q → queue_is_empty q ≡ (queue_size q == 0)
  unfolding queue_size queue_is_empty
  is_empty-size q w = ground (arith, w.front_in, w.tail_in)

  pub length-contents : (q : Queue A) → length (contents q) ≡ queue_size q
  length-contents q = length-window q.cyclic_buf q.max_size q.front (queue_size q)

  -- `queue_enqueue` past its test.
  abbrev stored : Queue A → Option A → Queue A
  stored q x = record q {
    cyclic_buf = update q.cyclic_buf q.tail x;
    tail = (q.tail + 1) % q.max_size;
  }

  stored-size :
      (q : Queue A) (x : Option A)
      → IsValid q
      → queue_size q + 1 < q.max_size
      → ((q.tail + 1) % q.max_size < q.max_size) × (queue_size (stored q x) ≡ queue_size q + 1)
  unfolding queue_size
  stored-size q x w h =
      ground (arith, turn_cases q.max_size q.tail 1 w.tail_in, w.front_in, w.tail_in)

  stored-contents :
      (q : Queue A) (x : Option A)
      → IsValid q
      → queue_size q + 1 < q.max_size
      → contents (stored q x) ≡ contents q ++ (x ∷ [])
  stored-contents q x w h =
      ap (λ n. window (update q.cyclic_buf q.tail x) q.max_size q.front n) (stored-size q x w h).1
      ∙ (ap (λ t. window (update q.cyclic_buf t x) q.max_size q.front (queue_size q + 1))
            (sym (tail-at q w))
          ∙ window-snoc q.cyclic_buf q.max_size q.front (queue_size q) x w.front_in (size_lt q w))

  put-room :
      (bound : ℕ) (x : Option A) (xs : List (Option A))
      → length xs < bound
      → put bound x xs ≡ (xs ++ (x ∷ []), true)
  put-room bound x xs h = ground arith

  put-full :
      (bound : ℕ) (x : Option A) (xs : List (Option A))
      → bound ≤ length xs
      → put bound x xs ≡ (xs, false)
  put-full bound x xs h = ground arith

  has_room : (q : Queue A) → IsValid q → queue_is_full q ≡ false → queue_size q + 1 < q.max_size
  has_room q w h =
      omega
        (arith, size_lt q w, ne_of_== (queue_size q + 1) q.max_size (sym (is_full-size q w) ∙ h))

  -- Where both indices are in range, queue_enqueue keeps them so and puts the pointer at the end of
  -- a first-in first-out list of at most max_size - 1 entries, or refuses it when that many stand
  -- in it.
  pub enqueue-put :
      (q : Queue A) (x : Option A)
      → IsValid q
      → IsValid (queue_enqueue q x).0
        × ((contents (queue_enqueue q x).0, (queue_enqueue q x).1)
            ≡ put (q.max_size - 1) x (contents q))
  unfolding queue_enqueue
  enqueue-put q x w = elim (Bool-cases (queue_is_full q)) [
    | inl full ↦ rw full (
      w,
      sym (
          put-full (q.max_size - 1) x (contents q) (
            omega (
              arith,
              length-contents q,
              eq_of_== (queue_size q + 1) q.max_size (sym (is_full-size q w) ∙ full),
            ))),
    )
    | inr room ↦ rw room (
      record { front_in = w.front_in; tail_in = (stored-size q x w (has_room q w room)).0 },
      ap (λ xs. (xs, true)) (stored-contents q x w (has_room q w room))
          ∙ sym (
              put-room (q.max_size - 1) x (contents q)
                (omega (arith, length-contents q, has_room q w room))),
    )
  ]

  -- `queue_dequeue` past its test.
  abbrev taken : Queue A → Queue A
  taken q = record q {
    cyclic_buf = update q.cyclic_buf q.front none;
    front = (q.front + 1) % q.max_size;
  }

  taken-size :
      (q : Queue A)
      → IsValid q
      → 0 < queue_size q
      → ((q.front + 1) % q.max_size < q.max_size) × (queue_size (taken q) ≡ queue_size q - 1)
  unfolding queue_size
  taken-size q w h =
      ground (arith, turn_cases q.max_size q.front 1 w.front_in, w.front_in, w.tail_in)

  -- The place before the next front is the front.
  last :
      (q : Queue A)
      → IsValid q
      → 0 < queue_size q
      → ((q.front + 1) % q.max_size + (q.max_size - 1)) % q.max_size ≡ q.front
  last q w h = ground (
    arith,
    turn_cases q.max_size q.front 1 w.front_in,
    turn_cases q.max_size ((q.front + 1) % q.max_size) (q.max_size - 1) (taken-size q w h).0,
    w.front_in,
  )

  taken-contents :
      (q : Queue A)
      → IsValid q
      → 0 < queue_size q
      → contents q ≡ q.cyclic_buf q.front ∷ contents (taken q)
  taken-contents q w h =
      window-pop q.cyclic_buf q.max_size q.front (queue_size q) w.front_in h
        (omega (arith, size_lt q w))
      ∙ ap (λ xs. q.cyclic_buf q.front ∷ xs)
          (sym (
              window-update q.cyclic_buf q.max_size ((q.front + 1) % q.max_size) (q.max_size - 1)
                (queue_size q - 1) none (taken-size q w h).0 (omega (arith, size_lt q w))
                (omega (arith, size_lt q w)))
            ∙ ap₂
                (λ i n.
                  window (update q.cyclic_buf i none) q.max_size ((q.front + 1) % q.max_size) n)
                (last q w h) (sym (taken-size q w h).1))

  contents-empty : (q : Queue A) → queue_size q ≡ 0 → contents q ≡ []
  unfolding window
  contents-empty q h = rw h refl

  has_more : (q : Queue A) → IsValid q → queue_is_empty q ≡ false → 0 < queue_size q
  has_more q w h = omega (arith, ne_of_== (queue_size q) 0 (sym (is_empty-size q w) ∙ h))

  -- Where both indices are in range, queue_dequeue keeps them so and takes the first entry of that
  -- list, or gives NULL and leaves the empty list.
  pub dequeue-get :
      (q : Queue A)
      → IsValid q
      → IsValid (queue_dequeue q).0
        × ((contents (queue_dequeue q).0, (queue_dequeue q).1) ≡ get (contents q))
  unfolding queue_dequeue
  dequeue-get q w = elim (Bool-cases (queue_is_empty q)) [
    | inl bare ↦
        rw bare (
          w,
          rw (contents-empty q (eq_of_== (queue_size q) 0 (sym (is_empty-size q w) ∙ bare))) refl,
        )
    | inr more ↦ rw more (
      record { front_in = (taken-size q w (has_more q w more)).0; tail_in = w.tail_in },
      ap get (sym (taken-contents q w (has_more q w more))),
    )
  ]

  -- Where both indices are in range: queue_enqueue keeps them so and puts the pointer at the end of
  -- a first-in first-out list of at most max_size - 1 entries, or refuses it when that many stand
  -- in it; queue_dequeue keeps them so and takes the first entry of that list, or gives NULL and
  -- leaves the empty list.
  pub queue-fifo :
      (q : Queue A) (x : Option A)
      → IsValid q
      → (IsValid (queue_enqueue q x).0
          × ((contents (queue_enqueue q x).0, (queue_enqueue q x).1)
              ≡ put (q.max_size - 1) x (contents q)))
        × (IsValid (queue_dequeue q).0
            × ((contents (queue_dequeue q).0, (queue_dequeue q).1) ≡ get (contents q)))
  queue-fifo q x w = (enqueue-put q x w, dequeue-get q w)
