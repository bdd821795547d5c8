-- ===== src/ArraySum/Assertions.antt =====
-- The assertions of the array program: what a thread has computed, and what it has left in the three
-- results.
use pthread_benchmark.Prelude.{ℕ, suc, ◌+◌, ◌-◌, ◌*◌, ◌<◌, ◌≤◌, ◌≡◌, ◌⊎◌, true, false, [], ◌∷◌}
use pthread_benchmark.Prelude.Int.{ℤ, pos, ◌≤ℤ◌, ltb_ℤ}
use pthread_benchmark.Pthread.Model.{Status, unborn, running, sleeping, relocking, done}
use pthread_benchmark.ArraySum.{
  Shared, Partial, Worker, scan, sum_enter, sum_load, sum_store, sum_leave, min_enter, min_test,
  min_store, min_leave, max_enter, max_test, max_store, max_leave, over, Main, fill, spawn, await,
  sum_look, sum_print, max_look, max_print, min_look, min_print, finish, Local, main, worker,
}
use pthread_benchmark.ArraySum.Parts.{scanned, part, part_sum, marked_sum}

module _ (n m : ℕ) (g : ℕ → ℤ) where
  abbrev pub size : ℕ
  size = n * suc m

  -- `x` is 0 or in the array.
  abbrev pub Occurs : ℤ → Type 0
  Occurs x = (x ≡ pos 0) ⊎ ((j : ℕ) × (j < size) × (x ≡ g j))

  -- What holds of a result while its mutex is free.
  abbrev pub Inv : ℕ → Shared → Type 0
  Inv j d =
      (j ≡ 0 → d.sum ≡ marked_sum (part_sum g m) d.merged n)
      × (j ≡ 1 → (d.min ≤ℤ pos 0) × Occurs d.min)
      × (j ≡ 2 → (pos 0 ≤ℤ d.max) × Occurs d.max)

  pub record Filled (i : ℕ) (d : Shared) : Type 0 where
    pub entry : (j : ℕ) → j < i → d.arr j ≡ g j

  -- Thread `t` has its part in all three results.
  pub record Delivered (t : ℕ) (d : Shared) : Type 0 where
    pub summed : d.merged t ≡ true
    pub low : d.min ≤ℤ (part g m t).local_min
    pub high : (part g m t).local_max ≤ℤ d.max

  abbrev AtWorker : ℕ → ℕ → Partial → Worker → Shared → Type 0
  AtWorker t lo p (scan i) d =
      (lo ≤ i)
      × (i ≤ suc (lo + m))
      × (p ≡ scanned g lo (i - lo))
      × (d.merged t ≡ false)
      × Filled size d
  AtWorker t lo p sum_enter d = (p ≡ part g m t) × (d.merged t ≡ false)
  AtWorker t lo p sum_load d = (p ≡ part g m t) × (d.merged t ≡ false) × Inv 0 d
  AtWorker t lo p (sum_store s) d = (p ≡ part g m t) × (d.merged t ≡ false) × Inv 0 d × (s ≡ d.sum)
  AtWorker t lo p sum_leave d = (p ≡ part g m t) × (d.merged t ≡ true) × Inv 0 d
  AtWorker t lo p min_enter d = (p ≡ part g m t) × (d.merged t ≡ true)
  AtWorker t lo p min_test d = (p ≡ part g m t) × (d.merged t ≡ true) × Inv 1 d
  AtWorker t lo p min_store d =
      (p ≡ part g m t) × (d.merged t ≡ true) × Inv 1 d × (ltb_ℤ p.local_min d.min ≡ true)
  AtWorker t lo p min_leave d =
      (p ≡ part g m t) × (d.merged t ≡ true) × Inv 1 d × (d.min ≤ℤ p.local_min)
  AtWorker t lo p max_enter d = (p ≡ part g m t) × (d.merged t ≡ true) × (d.min ≤ℤ p.local_min)
  AtWorker t lo p max_test d =
      (p ≡ part g m t) × (d.merged t ≡ true) × (d.min ≤ℤ p.local_min) × Inv 2 d
  AtWorker t lo p max_store d =
      (p ≡ part g m t)
      × (d.merged t ≡ true)
      × (d.min ≤ℤ p.local_min)
      × Inv 2 d
      × (ltb_ℤ d.max p.local_max ≡ true)
  AtWorker t lo p max_leave d =
      (p ≡ part g m t)
      × (d.merged t ≡ true)
      × (d.min ≤ℤ p.local_min)
      × Inv 2 d
      × (p.local_max ≤ℤ d.max)
  AtWorker t lo p over d = Delivered t d

  -- Threads 1 to `i` have delivered.
  pub record Joined (i : ℕ) (d : Shared) : Type 0 where
    pub each : (t : ℕ) → 0 < t → t ≤ i → Delivered t d

  abbrev AtMain : Main → Shared → Type 0
  AtMain (fill i) d = Filled i d × (d.out ≡ [])
  AtMain (spawn i t1) d = Filled size d × (d.out ≡ [])
  AtMain (await i) d = Joined i d × (d.out ≡ [])
  AtMain sum_look d = Joined n d × (d.out ≡ [])
  AtMain (sum_print x) d = Joined n d × (d.out ≡ []) × (x ≡ d.sum)
  AtMain max_look d = Joined n d × (d.out ≡ d.sum ∷ [])
  AtMain (max_print x) d = Joined n d × (d.out ≡ d.sum ∷ []) × (x ≡ d.max)
  AtMain min_look d = Joined n d × (d.out ≡ d.sum ∷ d.max ∷ [])
  AtMain (min_print x) d = Joined n d × (d.out ≡ d.sum ∷ d.max ∷ []) × (x ≡ d.min)
  AtMain finish d = Joined n d × (d.out ≡ d.sum ∷ d.max ∷ d.min ∷ [])

  abbrev pub At : ℕ → Status Local → Shared → Type 0
  At t (running (main p)) d = AtMain p d
  At t (running (worker lo p q)) d = AtWorker t lo p q d
  At t (sleeping c j l) d = ⊥
  At t (relocking j l) d = ⊥
  At t unborn d = d.merged t ≡ false
  At t done d = 0 < t → Delivered t d
