-- ===== src/HotPlate/Workers.antt =====
-- All threads together make one sweep, in whatever order they run.
use pthread_benchmark.Prelude.{
  ℕ, ◌+◌, ◌*◌, ◌-◌, ◌<◌, ◌≡◌, refl, sym, ap, ◌∙◌, Bool, true, false, not, ◌&&◌, ◌||◌, ◌==◌, ltb,
  List, [], ◌∷◌, if◌then◌else◌, arith, Bool-cases, inl, inr, false≢true, eq_of_==,
}
use pthread_benchmark.HotPlate.{Floats, Plate, allocate_workload, worker, workers}
use pthread_benchmark.HotPlate.Loops.{in_range}
use pthread_benchmark.HotPlate.Shares.{share, allocate_workload-at, in_share, share-below}
use pthread_benchmark.HotPlate.Sweep.{
  Sweeping, reheated, is_open, update_plate-at, update_plate-Sweeping,
}

-- Every thread has its turn, and nobody else.
abbrev pub Among : ℕ → List ℕ → Type 0
Among t [] = Unit
Among t (k ∷ ks) = (k < t) × Among t ks

abbrev pub takes_part : ℕ → List ℕ → Bool
takes_part k [] = false
takes_part k (x ∷ xs) = x == k || takes_part k xs

abbrev covered : ℕ → ℕ → List ℕ → Bool
covered step i [] = false
covered step i (k ∷ ks) = in_range (k * step) step i || covered step i ks

covered_by :
    (step i k : ℕ) (ks : List ℕ)
    → takes_part k ks ≡ true
    → in_range (k * step) step i ≡ true
    → covered step i ks ≡ true
covered_by step i k [] m r = absurd (false≢true m)
covered_by step i k (x ∷ xs) m r = elim (Bool-cases (x == k)) [
  | inl here ↦ ground (arith, ap (λ y. in_range (y * step) step i) (eq_of_== x k here))
  | inr away ↦ ground (arith, covered_by step i k xs)
]

covered-below : (step t i : ℕ) (ks : List ℕ) → Among t ks → covered step i ks ≡ true → i < t * step
covered-below step t i [] a c = absurd (false≢true c)
covered-below step t i (k ∷ ks) (lt, a) c = elim (Bool-cases (in_range (k * step) step i)) [
  | inl here ↦ share-below step t i k lt here
  | inr away ↦ covered-below step t i ks a (ground arith)
]

covered-all :
    (step t i : ℕ) (ks : List ℕ)
    → Among t ks
    → ((k : ℕ) → k < t → takes_part k ks ≡ true)
    → covered step i ks ≡ ltb i (t * step)
covered-all step t i ks a all = elim (Bool-cases (ltb i (t * step))) [
  | inl low ↦
      let (k, lt, r) = in_share step t i (ground arith) in
      covered_by step i k ks (all k lt) r ∙ sym low
  | inr high ↦ elim (Bool-cases (covered step i ks)) [
    | inl c ↦ absurd (ground (arith, covered-below step t i ks a c))
    | inr c ↦ c ∙ sym high
  ]
]

module _ (F : Floats) (p : Plate F) (n nthreads i j : ℕ) where
  worker-at :
      (k : ℕ) (q : Plate F)
      → k < nthreads
      → Sweeping F p q
      → worker F n nthreads k q i j ≡ (
          if in_range (k * share n nthreads) (share n nthreads) i
            && (in_range 0 n j && is_open F p i j)
          then reheated F p i j (q i j)
          else q i j)
  unfolding worker
  worker-at k q lt r =
      let (first, second) = allocate_workload-at n nthreads k lt in
      let width : (k + 1) * share n nthreads - k * share n nthreads ≡ share n nthreads =
        omega arith in
      rw (first, second)
        (rw width at
          (update_plate-at F p n i j (k * share n nthreads) ((k + 1) * share n nthreads) q r))

  worker-Sweeping : (k : ℕ) (q : Plate F) → Sweeping F p q → Sweeping F p (worker F n nthreads k q)
  unfolding worker
  worker-Sweeping k q r =
      update_plate-Sweeping F p n i j (allocate_workload n nthreads (λ _. 0) (k * 2))
        (allocate_workload n nthreads (λ _. 0) (k * 2 + 1)) q r

  workers-at :
      (order : List ℕ) (q : Plate F)
      → Among nthreads order
      → Sweeping F p q
      → workers F n nthreads order q i j ≡ (
          if covered (share n nthreads) i order && (in_range 0 n j && is_open F p i j)
          then reheated F p i j (q i j)
          else q i j)
  unfolding workers
  workers-at [] q a r = refl
  workers-at (k ∷ ks) q (lt, a) r =
      ground (
        arith,
        workers-at ks (worker F n nthreads k q) a (worker-Sweeping k q r),
        worker-at k q lt r,
      )

  -- For a plate of any size and any number of threads, in whatever order the threads make their
  -- sweeps, a cell that is not locked, in the rows below nthreads * (n / nthreads), gets an eighth
  -- of the sum of the previous heats of its four neighbours and four times its own, in the
  -- operations and the order of the source, and every other cell stays.
  pub workers_sweep :
      (order : List ℕ)
      → Among nthreads order
      → ((k : ℕ) → k < nthreads → takes_part k order ≡ true)
      → workers F n nthreads order p i j ≡ (
          if ltb i (nthreads * share n nthreads) && (ltb j n && not (p i j).locked)
          then record (p i j) {
            now =
                F.times
                  (F.plus
                    (F.plus
                      (F.plus (F.plus (p (i + 1) j).prev (p i (j + 1)).prev) (p (i - 1) j).prev)
                      (p i (j - 1)).prev)
                    (F.times (F.whole 4) (p i j).prev))
                  F.eighth;
          }
          else p i j)
  workers_sweep order a all = ground (
    arith,
    workers-at order p a (λ i j. (refl, refl)),
    covered-all (share n nthreads) nthreads i order a all,
  )
