-- ===== src/QueueCyclic/Drain.antt =====
-- `queue_dequeueall` of queue_cyclic.c: the whole queue goes into a vector, in order.
use native.Mathlib.Numerals.{add-one}
use pthread_benchmark.Prelude.{
  ℕ, zero, suc, ◌+◌, ◌<◌, ◌≤◌, ◌≡◌, refl, sym, ap, ◌∙◌, true, Option, none, some, List, [], ◌∷◌,
  ◌++◌, update, length, map, append-nil, append_assoc, arith,
}
use pthread_benchmark.QueueCyclic.{
  Vector, Queue, Outcome, returned, queue_size, queue_dequeue, vector_init, vector_push_back, drain,
  queue_dequeueall,
}
use pthread_benchmark.QueueCyclic.Order.{IsValid, contents, length-contents, get, dequeue-get}

length-map : {B C : Type 0} (f : B → C) (xs : List B) → length (map f xs) ≡ length xs
length-map f [] = refl
length-map f (x ∷ xs) = ap suc (length-map f xs)

module _ {A : Type 0} where
  -- The first `n` entries of a table.
  unfoldable pub entries : (ℕ → Option A) → ℕ → List (Option A)
  entries f zero = []
  entries f (suc n) = entries f n ++ (f n ∷ [])

  entries-update :
      (f : ℕ → Option A) (x : Option A) (n m : ℕ) → n ≤ m → entries (update f m x) n ≡ entries f n
  unfolding entries
  entries-update f x zero m h = refl
  entries-update f x (suc n) m h = ground (arith, entries-update f x n m)

  pub entries-snoc :
      (f : ℕ → Option A) (x : Option A) (n : ℕ)
      → entries (update f n x) (n + 1) ≡ entries f n ++ (x ∷ [])
  unfolding entries
  entries-snoc f x n = rw add-one (rw (entries-update f x n n (omega arith)) (ground arith))

  -- A vector with room takes the entry at its end.
  push-room :
      (v : Vector A) (x : Option A)
      → v.tail < v.size
      → vector_push_back v x ≡ (record v { buf = update v.buf v.tail x; tail = v.tail + 1 }, true)
  unfolding vector_push_back
  push-room v x h = ground arith

  -- That the queue is emptied into a vector that held `ys` and now holds `ys ++ xs`.
  pub record Emptied (q : Queue A) (ys : List (Option A)) (o : Outcome A) : Type 0 where
    pub queue : Queue A
    pub vector : Vector A
    pub ends : o ≡ returned queue vector
    pub valid : IsValid queue
    pub empty : contents queue ≡ []
    pub holds : entries vector.buf vector.tail ≡ ys ++ contents q
    pub full : vector.tail ≤ vector.size

  dequeue-parts :
      (q : Queue A) (xs : List (Option A)) (x : Option A)
      → IsValid q
      → get (contents q) ≡ (xs, x)
      → IsValid (queue_dequeue q).0
        × (contents (queue_dequeue q).0 ≡ xs)
        × ((queue_dequeue q).1 ≡ x)
  dequeue-parts q xs x w e =
      let (v, h) = dequeue-get q w in (v, ap (λ p. p.0) (h ∙ e), ap (λ p. p.1) (h ∙ e))

  pushed :
      (q : Queue A) (x : A) (v : Vector A) (xs : List A) {o : Outcome A}
      → contents q ≡ map some (x ∷ xs)
      → contents (queue_dequeue q).0 ≡ map some xs
      → Emptied (queue_dequeue q).0 (entries (update v.buf v.tail (some x)) (v.tail + 1)) o
      → Emptied q (entries v.buf v.tail) o
  pushed q x v xs e others r = record {
    queue = r.queue;
    vector = r.vector;
    ends = r.ends;
    valid = r.valid;
    empty = r.empty;
    full = r.full;
    holds =
        r.holds
        ∙ (rw others (
            rw (entries-snoc v.buf (some x) v.tail)
              (rw e (append_assoc (entries v.buf v.tail) (some x ∷ []) (map some xs)))));
  }

  drain-Emptied :
      (xs : List A) (fuel : ℕ) (q : Queue A) (v : Vector A)
      → IsValid q
      → contents q ≡ map some xs
      → v.tail + length xs ≤ v.size
      → length xs < fuel
      → Emptied q (entries v.buf v.tail) (drain fuel q v)
  unfolding drain
  drain-Emptied xs zero q v w e room enough = absurd (omega arith)
  drain-Emptied [] (suc fuel) q v w e room enough =
      let (v', none_left, null) = dequeue-parts q [] none w (ap get e) in
      rw (null, drain)
        record {
          queue = (queue_dequeue q).0;
          vector = v;
          ends = refl;
          valid = v';
          empty = none_left;
          holds = rw e (sym (append-nil (entries v.buf v.tail)));
          full = omega arith;
        }
  drain-Emptied (x ∷ xs) (suc fuel) q v w e room enough =
      let (valid', others, first) = dequeue-parts q (map some xs) (some x) w (ap get e) in
      rw (first, drain)
        (rw (push-room v (some x) (omega arith), drain)
          (rw (push-room v (some x) (omega arith)) (
            pushed q x v xs e others (
              drain-Emptied xs fuel (queue_dequeue q).0
                (record v { buf = update v.buf v.tail (some x); tail = v.tail + 1 }) valid' others
                (omega arith) (omega arith)))))

  -- With both indices in range, no NULL in the queue and more fuel than entries, queue_dequeueall
  -- returns and does not exit; the queue is then empty and in range, and the vector has all its
  -- entries in order.
  pub queue_dequeueall-Emptied :
      (xs : List A) (fuel : ℕ) (q : Queue A)
      → IsValid q
      → contents q ≡ map some xs
      → length xs < fuel
      → Emptied q [] (queue_dequeueall fuel q)
  unfolding queue_dequeueall vector_init entries
  queue_dequeueall-Emptied xs fuel q w e enough =
      drain-Emptied xs fuel q (vector_init (queue_size q)) w e
        (omega (arith, length-contents q, ap length e, length-map {B = A} {C = Option A} some xs))
        enough
