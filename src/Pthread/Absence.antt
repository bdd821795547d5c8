-- ===== src/Pthread/Absence.antt =====
-- Which threads cannot run. `absent i l j` says that thread `i`, in local state `l`, may rely on
-- thread `j` being not yet created or finished. Only `main`, which creates and joins, may.
use pthread_benchmark.Prelude.{ℕ, ◌≡◌, ◌≢◌, ◌⊎◌, refl, Bool, true, false, arith}
use pthread_benchmark.Pthread.Model.{
  Act, exit, tau, input, lock, unlock, read, write, cond_wait, signal, broadcast, sem_wait,
  sem_post, create, join, Status, unborn, running, sleeping, relocking, done, World, Event, turn,
  wake, act, resume, step, boot, roused, awake,
}

module _ {L : Type 0} where
  abbrev pub quiet : Status L → Bool
  quiet unborn = true
  quiet done = true
  quiet (running l) = false
  quiet (sleeping c m l) = false
  quiet (relocking m l) = false

  quiet-roused : (c : ℕ) (s : Status L) → quiet (roused c s) ≡ quiet s
  quiet-roused c (sleeping c' k l) = ground arith
  quiet-roused c unborn = refl
  quiet-roused c (running l) = refl
  quiet-roused c (relocking k l) = refl
  quiet-roused c done = refl

  quiet-awake : (s : Status L) → quiet (awake s) ≡ quiet s
  quiet-awake (sleeping c' k l) = refl
  quiet-awake _ = refl

module _ {L : Type 0} (absent : ℕ → L → ℕ → Bool) where
  -- What `l'` relies on, `l` does.
  abbrev pub Recalls : ℕ → L → L → Type 0
  Recalls i l l' = (k : ℕ) → absent i l' k ≡ true → absent i l k ≡ true

  abbrev pub knows : ℕ → Status L → ℕ → Bool
  knows i (running l) k = absent i l k
  knows i (sleeping c m l) k = absent i l k
  knows i (relocking m l) k = absent i l k
  knows i unborn k = false
  knows i done k = false

  knows-roused : (i c k : ℕ) (s : Status L) → knows i (roused c s) k ≡ knows i s k
  knows-roused i c k (sleeping c' m l) = ground arith
  knows-roused i c k unborn = refl
  knows-roused i c k (running l) = refl
  knows-roused i c k (relocking m l) = refl
  knows-roused i c k done = refl

  knows-awake : (i k : ℕ) (s : Status L) → knows i (awake s) k ≡ knows i s k
  knows-awake i k (sleeping c' m l) = refl
  knows-awake i k _ = refl

module _ {D L : Type 0} (absent : ℕ → L → ℕ → Bool) where
  -- The action `a` of thread `i` at `l` respects the table.
  abbrev pub Tracks : ℕ → L → Act D L → Type 0
  Tracks i l exit = Unit
  Tracks i l (tau l') = Recalls absent i l l'
  Tracks i l (input k) = (v : ℕ) → Recalls absent i l (k v)
  Tracks i l (lock m l') = Recalls absent i l l'
  Tracks i l (unlock m l') = Recalls absent i l l'
  Tracks i l (read x k) = (d : D) → Recalls absent i l (k d)
  Tracks i l (write x f l') = Recalls absent i l l'
  Tracks i l (cond_wait c m l') = Recalls absent i l l'
  Tracks i l (signal c l') = Recalls absent i l l'
  Tracks i l (broadcast c l') = Recalls absent i l l'
  Tracks i l (sem_wait s l') = Recalls absent i l l'
  Tracks i l (sem_post s l') = Recalls absent i l l'
  Tracks i l (create j l₀ l') =
      (i ≡ 0) × ((k : ℕ) → absent i l' k ≡ true → (absent i l k ≡ true) × (k ≢ j))
  Tracks i l (join j l') = (k : ℕ) → absent i l' k ≡ true → (absent i l k ≡ true) ⊎ (k ≡ j)

  -- What a thread relies on is so.
  abbrev pub Tracked : World D L → Type 0
  Tracked w = (j k : ℕ) → knows absent j (w.thread j) k ≡ true → quiet (w.thread k) ≡ true

  module _ (only_main : (i : ℕ) (l : L) (k : ℕ) → i ≢ 0 → absent i l k ≡ false) where
    module _ (i v : ℕ) (l : L) (w : World D L) (inv : Tracked w)
        (now : w.thread i ≡ running l) where
      act-Tracked : (a : Act D L) → Tracks i l a → Tracked (act i v a w)
      unfolding act
      act-Tracked exit h j k e = ground (arith, inv j k, inv j i)
      act-Tracked (tau l') h j k e = ground (arith, inv j k, inv j i, h k)
      act-Tracked (input f) h j k e = ground (arith, inv j k, inv j i, h v k)
      act-Tracked (lock m l') h j k e = ground (arith, inv j k, inv j i, h k)
      act-Tracked (unlock m l') h j k e = ground (arith, inv j k, inv j i, h k)
      act-Tracked (read x f) h j k e = ground (arith, inv j k, inv j i, h w.mem k)
      act-Tracked (write x f l') h j k e = ground (arith, inv j k, inv j i, h k)
      act-Tracked (cond_wait c m l') h j k e = ground (arith, inv j k, inv j i, h k)
      act-Tracked (signal c l') h j k e = ground (
        arith,
        inv j k,
        inv j i,
        h k,
        knows-roused absent j c k (w.thread j),
        quiet-roused c (w.thread k),
      )
      act-Tracked (broadcast c l') h j k e = ground (
        arith,
        inv j k,
        inv j i,
        h k,
        knows-roused absent j c k (w.thread j),
        quiet-roused c (w.thread k),
      )
      act-Tracked (sem_wait s l') h j k e = ground (arith, inv j k, inv j i, h k)
      act-Tracked (sem_post s l') h j k e = ground (arith, inv j k, inv j i, h k)
      act-Tracked (create n l₀ l') h j k e =
          ground
            (arith, inv j k, inv j i, h.1 k, only_main n l₀ k, only_main_status j k (w.thread j))
        where
          only_main_status : (j k : ℕ) (s : Status L) → j ≢ 0 → knows absent j s k ≡ false
          only_main_status j k (running l) ne = only_main j l k ne
          only_main_status j k (sleeping c m l) ne = only_main j l k ne
          only_main_status j k (relocking m l) ne = only_main j l k ne
          only_main_status j k unborn ne = refl
          only_main_status j k done ne = refl
      act-Tracked (join n l') h j k e = ground (arith, inv j k, inv j i, h k)

    module _ (code : ℕ → L → Act D L) where
      -- The code of the threads that run in `w` respects the table.
      abbrev pub Minds : World D L → Type 0
      Minds w = (i : ℕ) (l : L) → w.thread i ≡ running l → Tracks i l (code i l)

      resume-Tracked :
          (i v : ℕ) (s : Status L) (w : World D L)
          → w.thread i ≡ s
          → Minds w
          → Tracked w
          → Tracked (resume code i v s w)
      unfolding resume
      resume-Tracked i v (running l) w e m inv = act-Tracked i v l w inv e (code i l) (m i l e)
      resume-Tracked i v (relocking k l) w e m inv =
          λ j n h. ground (arith, inv j n, inv j i, inv i n)
      resume-Tracked i v unborn w e m inv = inv
      resume-Tracked i v (sleeping c k l) w e m inv = inv
      resume-Tracked i v done w e m inv = inv

      pub step-Tracked : (e : Event) (w : World D L) → Minds w → Tracked w → Tracked (step code e w)
      unfolding step
      step-Tracked (turn i v) w m inv = resume-Tracked i v (w.thread i) w refl m inv
      step-Tracked (wake i) w m inv = λ j k h.
          ground (arith, inv j k, knows-awake absent j k (w.thread j), quiet-awake (w.thread k))

  pub boot-Tracked : (d : D) (sems : ℕ → ℕ) (l : L) → absent 0 l 0 ≡ false → Tracked (boot d sems l)
  boot-Tracked d sems l self j k h = ground arith
