-- ===== src/ArraySum/Frames.antt =====
-- The writes of the array program, and what the other threads keep of their assertions.
use pthread_benchmark.Prelude.{ℕ, ◌<◌, ◌≡◌, ◌≢◌, true, List, arith}
use pthread_benchmark.Prelude.Int.{ℤ, ◌≤ℤ◌}
use pthread_benchmark.Pthread.Model.{Status, unborn, running, sleeping, relocking, done}
use pthread_benchmark.Pthread.Outline.{Apart}
use pthread_benchmark.ArraySum.{
  Shared, scan, sum_enter, sum_load, sum_store, sum_leave, min_enter, min_test, min_store,
  min_leave, max_enter, max_test, max_store, max_leave, over, Main, fill, spawn, await, Local, main,
  worker,
}
use pthread_benchmark.ArraySum.Discipline.{held, fits, absent}
use pthread_benchmark.ArraySum.Assertions.{Inv, Filled, Joined, Delivered, At, size}

module _ (n m : ℕ) (g : ℕ → ℤ) where
  abbrev Beside : ℕ → Local → ℕ → Status Local → Type 0
  Beside = Apart (fits n m) held (absent n m)

  -- A write of thread `t` to result `q`, and what the others keep.
  pub record Improves (t q : ℕ) (d d' : Shared) : Type 0 where
    pub marks : (j : ℕ) → j ≢ t → d'.merged j ≡ d.merged j
    pub lower : d'.min ≤ℤ d.min
    pub higher : d.max ≤ℤ d'.max
    pub same_out : d'.out ≡ d.out
    pub same_arr : d'.arr ≡ d.arr
    pub same_marks : q ≢ 0 → d'.merged ≡ d.merged
    pub same_sum : q ≢ 0 → d'.sum ≡ d.sum
    pub same_min : q ≢ 1 → d'.min ≡ d.min
    pub same_max : q ≢ 2 → d'.max ≡ d.max

  module _ (t q : ℕ) (d d' : Shared) (i : Improves t q d d') where
    Improves-Delivered : (j : ℕ) → j ≢ t → Delivered n m g j d → Delivered n m g j d'
    Improves-Delivered j ne h = record {
      summed = rw (i.marks j ne) h.summed;
      low = omega (arith, h.low, i.lower);
      high = omega (arith, h.high, i.higher);
    }

    Improves-Filled : (k : ℕ) → Filled n m g k d → Filled n m g k d'
    Improves-Filled k h = record { entry = λ j lt. rw i.same_arr (h.entry j lt) }

    Improves-Joined : (k : ℕ) → k < t → Joined n m g k d → Joined n m g k d'
    Improves-Joined k lt h = record {
      each = λ j lo hi. Improves-Delivered j (λ e. absurd (omega arith)) (h.each j lo hi);
    }

    pub Improves-Inv : (k : ℕ) → k ≢ q → Inv n m g k d → Inv n m g k d'
    Improves-Inv k ne h = (
      λ z.
          let other : q ≢ 0 = λ e. ne (omega arith) in
          rw (i.same_sum other, i.same_marks other) (h.0 z),
      λ z. rw (i.same_min (λ e. ne (omega arith))) (h.1 z),
      λ z. rw (i.same_max (λ e. ne (omega arith))) (h.2 z),
    )

    module _ (l : Local) (pos_ : t ≢ 0) (own : held t l q ≡ true) where
      pub frame :
          (j : ℕ) (s : Status Local) → j ≢ t → Beside t l j s → At n m g j s d → At n m g j s d'
      frame j unborn ne a h = rw (i.marks j ne) h
      frame j done ne a h = λ gt. Improves-Delivered j ne (h gt)
      frame j (sleeping c k l') ne a h = h
      frame j (relocking k l') ne a h = h
      frame j (running (main (fill x))) ne a h = (Improves-Filled x h.0, rw i.same_out h.1)
      frame j (running (main (spawn x y))) ne a h =
          (Improves-Filled (size n m g) h.0, rw i.same_out h.1)
      frame j (running (main (await x))) ne a h =
          (Improves-Joined x (ground (arith, a.unknown, a.placed)) h.0, rw i.same_out h.1)
      frame j (running (main _)) ne a h = absurd (ground (arith, a.unknown, a.placed))
      frame j (running (worker lo p (scan x))) ne a h =
          (h.0, h.1, h.2, rw (i.marks j ne) h.3, Improves-Filled (size n m g) h.4)
      frame j (running (worker lo p sum_enter)) ne a h = (h.0, rw (i.marks j ne) h.1)
      frame j (running (worker lo p sum_load)) ne a h =
          (h.0, rw (i.marks j ne) h.1, Improves-Inv 0 (λ e. ground (arith, a.disjoint q)) h.2)
      frame j (running (worker lo p (sum_store x))) ne a h = (
        h.0,
        rw (i.marks j ne) h.1,
        Improves-Inv 0 (λ e. ground (arith, a.disjoint q)) h.2,
        rw (i.same_sum (λ e. ground (arith, a.disjoint q))) h.3,
      )
      frame j (running (worker lo p sum_leave)) ne a h =
          (h.0, rw (i.marks j ne) h.1, Improves-Inv 0 (λ e. ground (arith, a.disjoint q)) h.2)
      frame j (running (worker lo p min_enter)) ne a h = (h.0, rw (i.marks j ne) h.1)
      frame j (running (worker lo p min_test)) ne a h =
          (h.0, rw (i.marks j ne) h.1, Improves-Inv 1 (λ e. ground (arith, a.disjoint q)) h.2)
      frame j (running (worker lo p min_store)) ne a h = (
        h.0,
        rw (i.marks j ne) h.1,
        Improves-Inv 1 (λ e. ground (arith, a.disjoint q)) h.2,
        rw (i.same_min (λ e. ground (arith, a.disjoint q))) h.3,
      )
      frame j (running (worker lo p min_leave)) ne a h = (
        h.0,
        rw (i.marks j ne) h.1,
        Improves-Inv 1 (λ e. ground (arith, a.disjoint q)) h.2,
        omega (arith, h.3, i.lower),
      )
      frame j (running (worker lo p max_enter)) ne a h =
          (h.0, rw (i.marks j ne) h.1, omega (arith, h.2, i.lower))
      frame j (running (worker lo p max_test)) ne a h = (
        h.0,
        rw (i.marks j ne) h.1,
        omega (arith, h.2, i.lower),
        Improves-Inv 2 (λ e. ground (arith, a.disjoint q)) h.3,
      )
      frame j (running (worker lo p max_store)) ne a h = (
        h.0,
        rw (i.marks j ne) h.1,
        omega (arith, h.2, i.lower),
        Improves-Inv 2 (λ e. ground (arith, a.disjoint q)) h.3,
        rw (i.same_max (λ e. ground (arith, a.disjoint q))) h.4,
      )
      frame j (running (worker lo p max_leave)) ne a h = (
        h.0,
        rw (i.marks j ne) h.1,
        omega (arith, h.2, i.lower),
        Improves-Inv 2 (λ e. ground (arith, a.disjoint q)) h.3,
        omega (arith, h.4, i.higher),
      )
      frame j (running (worker lo p over)) ne a h = Improves-Delivered j ne h

  -- What the other threads see of a write of `main` to the array or the output.
  pub quiet_frame :
      (t : ℕ) (l : Main) (d d' : Shared)
      → d'.merged ≡ d.merged
      → d'.min ≡ d.min
      → d'.max ≡ d.max
      → ((j : ℕ) → j ≢ t → absent n m t (main l) j ≡ true)
      → (j : ℕ) (s : Status Local) → j ≢ t
      → Beside t (main l) j s
      → At n m g j s d
      → At n m g j s d'
  quiet_frame t l d d' e1 e2 e3 alone j unborn ne a h = rw e1 h
  quiet_frame t l d d' e1 e2 e3 alone j done ne a h = λ gt. record {
    summed = rw e1 (h gt).summed;
    low = rw e2 (h gt).low;
    high = rw e3 (h gt).high;
  }
  quiet_frame t l d d' e1 e2 e3 alone j (sleeping c k l') ne a h = h
  quiet_frame t l d d' e1 e2 e3 alone j (relocking k l') ne a h = h
  quiet_frame t l d d' e1 e2 e3 alone j (running l') ne a h =
      absurd (ground (arith, a.gone (alone j ne)))

  -- What is printed does not matter to them.
  pub Joined-out :
      (i : ℕ) (xs : List ℤ) (d : Shared) → Joined n m g i d → Joined n m g i (record d { out = xs })
  Joined-out i xs d h = record {
    each = λ t lo hi.
        (let r = h.each t lo hi in record { summed = r.summed; low = r.low; high = r.high });
  }
