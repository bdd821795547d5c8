-- ===== src/Pthread/Roles.antt =====
-- Which thread can be where. `fits i l` says that thread `i` may reach local state `l`: each thread
-- stays within the function that it was created to run.
use pthread_benchmark.Prelude.{ℕ, ◌≡◌, refl, Bool, true, arith}
use pthread_benchmark.Pthread.Model.{
  Act, exit, tau, input, lock, unlock, read, write, cond_wait, signal, broadcast, sem_wait,
  sem_post, create, join, Status, unborn, running, sleeping, relocking, done, World, Event, turn,
  wake, act, resume, step, boot, roused, awake,
}

module _ {L : Type 0} (fits : ℕ → L → Bool) where
  abbrev pub fitting : ℕ → Status L → Bool
  fitting i (running l) = fits i l
  fitting i (sleeping c m l) = fits i l
  fitting i (relocking m l) = fits i l
  fitting i unborn = true
  fitting i done = true

  fitting-roused : (i c : ℕ) (s : Status L) → fitting i (roused c s) ≡ fitting i s
  fitting-roused i c (sleeping c' m l) = ground arith
  fitting-roused i c unborn = refl
  fitting-roused i c (running l) = refl
  fitting-roused i c (relocking m l) = refl
  fitting-roused i c done = refl

  fitting-awake : (i : ℕ) (s : Status L) → fitting i (awake s) ≡ fitting i s
  fitting-awake i (sleeping c m l) = refl
  fitting-awake i _ = refl

module _ {D L : Type 0} (fits : ℕ → L → Bool) where
  -- The action `a` of thread `i` leads where the thread may go.
  abbrev pub Stays : ℕ → Act D L → Type 0
  Stays i exit = Unit
  Stays i (tau l') = fits i l' ≡ true
  Stays i (input k) = (v : ℕ) → fits i (k v) ≡ true
  Stays i (lock m l') = fits i l' ≡ true
  Stays i (unlock m l') = fits i l' ≡ true
  Stays i (read x k) = (d : D) → fits i (k d) ≡ true
  Stays i (write x f l') = fits i l' ≡ true
  Stays i (cond_wait c m l') = fits i l' ≡ true
  Stays i (signal c l') = fits i l' ≡ true
  Stays i (broadcast c l') = fits i l' ≡ true
  Stays i (sem_wait s l') = fits i l' ≡ true
  Stays i (sem_post s l') = fits i l' ≡ true
  Stays i (create j l₀ l') = (fits i l' ≡ true) × (fits j l₀ ≡ true)
  Stays i (join j l') = fits i l' ≡ true

  abbrev pub Placed : World D L → Type 0
  Placed w = (i : ℕ) → fitting fits i (w.thread i) ≡ true

  module _ (i v : ℕ) (w : World D L) (inv : Placed w) where
    act-Placed : (a : Act D L) → Stays i a → Placed (act i v a w)
    unfolding act
    act-Placed exit h j = ground (arith, inv j)
    act-Placed (tau l') h j = ground (arith, inv j)
    act-Placed (input f) h j = ground (arith, inv j, h v)
    act-Placed (lock m l') h j = ground (arith, inv j)
    act-Placed (unlock m l') h j = ground (arith, inv j)
    act-Placed (read x f) h j = ground (arith, inv j, h w.mem)
    act-Placed (write x f l') h j = ground (arith, inv j)
    act-Placed (cond_wait c m l') h j = ground (arith, inv j)
    act-Placed (signal c l') h j = ground (arith, inv j, fitting-roused fits j c (w.thread j))
    act-Placed (broadcast c l') h j = ground (arith, inv j, fitting-roused fits j c (w.thread j))
    act-Placed (sem_wait s l') h j = ground (arith, inv j)
    act-Placed (sem_post s l') h j = ground (arith, inv j)
    act-Placed (create n l₀ l') h j = ground (arith, inv j)
    act-Placed (join n l') h j = ground (arith, inv j)

  module _ (code : ℕ → L → Act D L)
      (agrees : (i : ℕ) (l : L) → fits i l ≡ true → Stays i (code i l)) where
    resume-Placed :
        (i v : ℕ) (s : Status L) (w : World D L)
        → w.thread i ≡ s
        → Placed w
        → Placed (resume code i v s w)
    unfolding resume
    resume-Placed i v (running l) w e inv =
        act-Placed i v w inv (code i l) (agrees i l (rw e at (inv i)))
    resume-Placed i v (relocking m l) w e inv = λ j. ground (arith, inv j, inv i)
    resume-Placed i v unborn w e inv = inv
    resume-Placed i v (sleeping c m l) w e inv = inv
    resume-Placed i v done w e inv = inv

    pub step-Placed : (e : Event) (w : World D L) → Placed w → Placed (step code e w)
    unfolding step
    step-Placed (turn i v) w inv = resume-Placed i v (w.thread i) w refl inv
    step-Placed (wake i) w inv = λ j. ground (arith, inv j, fitting-awake fits j (w.thread j))

  pub boot-Placed : (d : D) (sems : ℕ → ℕ) (l : L) → fits 0 l ≡ true → Placed (boot d sems l)
  boot-Placed d sems l h i = ground arith
