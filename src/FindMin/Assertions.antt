-- ===== src/FindMin/Assertions.antt =====
-- What holds where in find_min and main.
use pthread_benchmark.Prelude.{ℕ, ◌-◌, ◌*◌, ◌<◌, ◌≤◌, ◌≡◌, ◌≢◌, arith}
use pthread_benchmark.Prelude.Int.{ℤ, ◌≤ℤ◌}
use pthread_benchmark.Pthread.Model.{Status, unborn, running, sleeping, relocking, done}
use pthread_benchmark.Pthread.Outline.{Apart}
use pthread_benchmark.FindMin.{
  Search, start, scan, enter, test, store, leave, over, Main, spawn, await, look, print, Local,
  main, search,
}
use pthread_benchmark.FindMin.Discipline.{held, fits, absent}

module _ (n size : ℕ) (list : ℕ → ℤ) where
  -- The number is not above the entries from `lo` up to `hi`.
  pub record Low (lo hi : ℕ) (v : ℤ) : Type 0 where
    pub each : (k : ℕ) → lo ≤ k → k < hi → v ≤ℤ list k

  abbrev pub Part : ℕ → ℤ → Type 0
  Part my_id v = Low ((my_id - 1) * size) (my_id * size) v

  -- The number is one of the entries.
  abbrev pub Real : ℤ → Type 0
  Real v = (k : ℕ) × (k < n * size) × (v ≡ list k)

  abbrev pub AtSearch : ℕ → Search → ℤ → Type 0
  AtSearch my_id start d = Unit
  AtSearch my_id (scan c v) d = Low ((my_id - 1) * size) c v × Real v
  AtSearch my_id (enter v) d = Part my_id v × Real v
  AtSearch my_id (test v) d = Part my_id v × Real v
  AtSearch my_id (store v) d = Part my_id v × Real v × (v ≤ℤ d)
  AtSearch my_id leave d = Part my_id d
  AtSearch my_id over d = Part my_id d

  abbrev pub AtMain : Main → ℤ → Type 0
  AtMain (spawn i) d = Real d
  AtMain (await i) d = Real d × Low 0 (i * size) d
  AtMain look d = Real d × Low 0 (n * size) d
  AtMain (print v) d = Real v × Low 0 (n * size) v

  abbrev pub At : ℕ → Status Local → ℤ → Type 0
  At t (running (main p)) d = AtMain p d
  At t (running (search my_id p)) d = AtSearch my_id p d
  At t (sleeping c m l) d = ⊥
  At t (relocking m l) d = ⊥
  At t unborn d = Unit
  At t done d = 0 < t → Part t d

  abbrev pub Inv : ℕ → ℤ → Type 0
  Inv m d = Unit

  pub lower : (lo hi : ℕ) (v w : ℤ) → w ≤ℤ v → Low lo hi v → Low lo hi w
  lower lo hi v w le h = record { each = λ k a b. omega (arith, h.each k a b) }

  -- The store of a number that is not above minimum_value.
  pub frame :
      (t my_id : ℕ) (v d : ℤ)
      → Real v
      → v ≤ℤ d
      → (j : ℕ) (s : Status Local) → j ≢ t
      → Apart (fits n size list) held (absent n size list) t (search my_id (store v)) j s
      → At j s d
      → At j s v
  frame t my_id v d r le j unborn ne a h = tt
  frame t my_id v d r le j done ne a h = λ gt. lower ((j - 1) * size) (j * size) d v le (h gt)
  frame t my_id v d r le j (sleeping c m l) ne a h = h
  frame t my_id v d r le j (relocking m l) ne a h = h
  frame t my_id v d r le j (running (main (spawn i))) ne a h = r
  frame t my_id v d r le j (running (main (await i))) ne a h = (r, lower 0 (i * size) d v le h.1)
  frame t my_id v d r le j (running (main look)) ne a h = (r, lower 0 (n * size) d v le h.1)
  frame t my_id v d r le j (running (main (print w))) ne a h = h
  frame t my_id v d r le j (running (search i start)) ne a h = tt
  frame t my_id v d r le j (running (search i (scan c w))) ne a h = h
  frame t my_id v d r le j (running (search i (enter w))) ne a h = h
  frame t my_id v d r le j (running (search i (test w))) ne a h = h
  frame t my_id v d r le j (running (search i (store w))) ne a h =
      absurd (ground (arith, a.disjoint 0))
  frame t my_id v d r le j (running (search i leave)) ne a h = absurd (ground (arith, a.disjoint 0))
  frame t my_id v d r le j (running (search i over)) ne a h =
      lower ((i - 1) * size) (i * size) d v le h
