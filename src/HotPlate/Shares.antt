-- ===== src/HotPlate/Shares.antt =====
-- The rows that each thread has.
use pthread_benchmark.Prelude.{
  ℕ, zero, suc, ◌+◌, ◌*◌, ◌/◌, ◌<◌, ◌≡◌, refl, ◌∙◌, true, ◌==◌, ltb, arith, Bool-cases, inl, inr,
  update, eq_of_==,
}
use pthread_benchmark.HotPlate.{allocate_from, allocate_workload}
use pthread_benchmark.HotPlate.Loops.{in_range}

allocate_from-below :
    (turns step i b x : ℕ) (table : ℕ → ℕ) → x < i → allocate_from turns step i b table x ≡ table x
unfolding allocate_from
allocate_from-below zero step i b x table lt = refl
allocate_from-below (suc turns) step i b x table lt = ground (
  arith,
  allocate_from-below turns step (i + 2) (b + step) x (update (update table i b) (i + 1) (b + step))
      (omega (arith, lt)),
)

-- The two entries of thread k.
allocate_from-at :
    (turns step i b k : ℕ) (table : ℕ → ℕ)
    → k < turns
    → (allocate_from turns step i b table (i + k * 2) ≡ b + k * step)
      × (allocate_from turns step i b table (i + k * 2 + 1) ≡ b + (k + 1) * step)
unfolding allocate_from
allocate_from-at zero step i b k table lt = absurd (omega (arith, lt))
allocate_from-at (suc turns) step i b zero table lt = (
  ground (
    arith,
    allocate_from-below turns step (i + 2) (b + step) (i + 0)
        (update (update table i b) (i + 1) (b + step)) (omega arith),
  ),
  ground (
    arith,
    allocate_from-below turns step (i + 2) (b + step) (i + 0 + 1)
        (update (update table i b) (i + 1) (b + step)) (omega arith),
  ),
)
allocate_from-at (suc turns) step i b (suc k) table lt =
    let (first, second) =
      allocate_from-at turns step (i + 2) (b + step) k
        (update (update table i b) (i + 1) (b + step)) (omega (arith, lt)) in
    let place : i + suc k * 2 ≡ i + 2 + k * 2 = omega arith in
    (rw place (first ∙ omega arith), rw place (second ∙ omega arith))

module _ (n nthreads : ℕ) where
  abbrev pub share : ℕ
  share = n / nthreads

  -- Thread k has the rows from k shares on and before k + 1 shares.
  pub allocate_workload-at :
      (k : ℕ)
      → k < nthreads
      → (allocate_workload n nthreads (λ _. 0) (k * 2) ≡ k * share)
        × (allocate_workload n nthreads (λ _. 0) (k * 2 + 1) ≡ (k + 1) * share)
  unfolding allocate_workload
  allocate_workload-at k lt =
      let place : 0 + k * 2 ≡ k * 2 = omega arith in
      let (first, second) = allocate_from-at nthreads share 0 0 k (λ _. 0) lt in
      ((rw place at first) ∙ omega arith, (rw place at second) ∙ omega arith)

-- Rows below `t` shares are in one of the first `t` shares.
pub in_share :
    (step t i : ℕ) → i < t * step → (k : ℕ) × (k < t) × (in_range (k * step) step i ≡ true)
in_share step zero i lt = absurd (omega (arith, lt))
in_share step (suc t) i lt = elim (Bool-cases (ltb i (t * step))) [
  | inl low ↦ let (k, lt', r) = in_share step t i (ground arith) in (k, omega (arith, lt'), r)
  | inr high ↦ (t, omega arith, ground arith)
]

pub share-below : (step t i k : ℕ) → k < t → in_range (k * step) step i ≡ true → i < t * step
share-below step zero i k lt r = absurd (omega (arith, lt))
share-below step (suc t) i k lt r = elim (Bool-cases (k == t)) [
  | inl last ↦ ground (arith, eq_of_== k t last)
  | inr early ↦
      let lower : i < t * step = share-below step t i k (ground arith) r in omega (arith, lower)
]
