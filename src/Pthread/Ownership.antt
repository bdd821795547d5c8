-- ===== src/Pthread/Ownership.antt =====
-- Who owns which mutex. `held i l m` says that thread `i` has mutex `m` when its local state is
-- `l`; a program whose code agrees with such a table owns in every run exactly what the table says.
use pthread_benchmark.Prelude.{ℕ, ◌≡◌, refl, Bool, true, false, some, ◌==◌, if◌then◌else◌, arith}
use pthread_benchmark.Pthread.Model.{
  Act, exit, tau, input, lock, unlock, read, write, cond_wait, signal, broadcast, sem_wait,
  sem_post, create, join, Status, unborn, running, sleeping, relocking, done, World, Event, turn,
  wake, act, resume, step, boot, roused, awake, acquire, go,
}

module _ {L : Type 0} (held : ℕ → L → ℕ → Bool) where
  -- `l` and `l'` hold the same mutexes.
  abbrev pub Keeps : ℕ → L → L → Type 0
  Keeps i l l' = (m : ℕ) → held i l' m ≡ held i l m

  abbrev pub holds : ℕ → Status L → ℕ → Bool
  holds i (running l) m = held i l m
  holds i (sleeping c k l) m = if k == m then false else held i l m
  holds i (relocking k l) m = if k == m then false else held i l m
  holds i unborn m = false
  holds i done m = false

  -- In pthread_cond_wait, the table has the mutex on return.
  abbrev pub Rests : ℕ → Status L → Type 0
  Rests i (sleeping c k l) = held i l k ≡ true
  Rests i (relocking k l) = held i l k ≡ true
  Rests i _ = Unit

  holds-roused : (i c m : ℕ) (s : Status L) → holds i (roused c s) m ≡ holds i s m
  holds-roused i c m (sleeping c' k l) = ground arith
  holds-roused i c m unborn = ground arith
  holds-roused i c m (running l) = ground arith
  holds-roused i c m (relocking k l) = ground arith
  holds-roused i c m done = ground arith

  roused-Rests : (i c : ℕ) (s : Status L) → Rests i s → Rests i (roused c s)
  roused-Rests i c (sleeping c' k l) h = ground arith
  roused-Rests i c unborn h = tt
  roused-Rests i c (running l) h = tt
  roused-Rests i c (relocking k l) h = h
  roused-Rests i c done h = tt

  holds-awake : (i m : ℕ) (s : Status L) → holds i (awake s) m ≡ holds i s m
  holds-awake i m (sleeping c k l) = refl
  holds-awake i m _ = refl

  awake-Rests : (i : ℕ) (s : Status L) → Rests i s → Rests i (awake s)
  awake-Rests i (sleeping c k l) h = h
  awake-Rests i unborn h = h
  awake-Rests i (running l) h = h
  awake-Rests i (relocking k l) h = h
  awake-Rests i done h = h

module _ {D L : Type 0} (held : ℕ → L → ℕ → Bool) where
  -- The table is right across the action `a` of thread `i` at `l`.
  abbrev pub Locks : ℕ → L → Act D L → Type 0
  Locks i l exit = (m : ℕ) → held i l m ≡ false
  Locks i l (tau l') = Keeps held i l l'
  Locks i l (input k) = (v : ℕ) → Keeps held i l (k v)
  Locks i l (lock k l') =
      (held i l k ≡ false) × ((m : ℕ) → held i l' m ≡ (if k == m then true else held i l m))
  Locks i l (unlock k l') =
      (held i l k ≡ true) × ((m : ℕ) → held i l' m ≡ (if k == m then false else held i l m))
  Locks i l (read x k) = (d : D) → Keeps held i l (k d)
  Locks i l (write x f l') = Keeps held i l l'
  Locks i l (cond_wait c k l') = (held i l k ≡ true) × Keeps held i l l'
  Locks i l (signal c l') = Keeps held i l l'
  Locks i l (broadcast c l') = Keeps held i l l'
  Locks i l (sem_wait s l') = Keeps held i l l'
  Locks i l (sem_post s l') = Keeps held i l l'
  Locks i l (create j l₀ l') = Keeps held i l l' × ((m : ℕ) → held j l₀ m ≡ false)
  Locks i l (join j l') = Keeps held i l l'

  pub record Owned (w : World D L) : Type 0 where
    pub owns : (i m : ℕ) → holds held i (w.thread i) m ≡ true → w.owner m ≡ some i
    pub owned : (i m : ℕ) → w.owner m ≡ some i → holds held i (w.thread i) m ≡ true
    pub rests : (i : ℕ) → Rests held i (w.thread i)

  module _ (i v : ℕ) (l : L) (w : World D L) (inv : Owned w) (now : w.thread i ≡ running l) where
    open inv use {owns, owned, rests}

    act-owns :
        (a : Act D L)
        → Locks i l a
        → (j m : ℕ) → holds held j ((act i v a w).thread j) m ≡ true
        → (act i v a w).owner m ≡ some j
    unfolding act
    act-owns exit h j m e = ground (arith, owns j m, h m)
    act-owns (tau l') h j m e = ground (arith, owns j m, h m)
    act-owns (input k) h j m e = ground (arith, owns j m, h v m)
    act-owns (lock k l') h j m e = ground (arith, owns j m, h.1 m, owns i m)
    act-owns (unlock k l') h j m e = ground (arith, owns j m, h.1 m, owns i m, owns i k)
    act-owns (read x k) h j m e = ground (arith, owns j m, h w.mem m)
    act-owns (write x f l') h j m e = ground (arith, owns j m, h m)
    act-owns (cond_wait c k l') h j m e = ground (arith, owns j m, h.1 m, owns i m, owns i k)
    act-owns (signal c l') h j m e =
        ground (arith, owns j m, h m, holds-roused held j c m (w.thread j))
    act-owns (broadcast c l') h j m e =
        ground (arith, owns j m, h m, holds-roused held j c m (w.thread j))
    act-owns (sem_wait s l') h j m e = ground (arith, owns j m, h m)
    act-owns (sem_post s l') h j m e = ground (arith, owns j m, h m)
    act-owns (create n l₀ l') h j m e = ground (arith, owns j m, h.0 m, h.1 m)
    act-owns (join n l') h j m e = ground (arith, owns j m, h m)

    act-owned :
        (a : Act D L)
        → Locks i l a
        → (j m : ℕ) → (act i v a w).owner m ≡ some j
        → holds held j ((act i v a w).thread j) m ≡ true
    unfolding act
    act-owned exit h j m e = ground (arith, owned j m, h m)
    act-owned (tau l') h j m e = ground (arith, owned j m, h m)
    act-owned (input k) h j m e = ground (arith, owned j m, h v m)
    act-owned (lock k l') h j m e = ground (arith, owned j m, h.1 m)
    act-owned (unlock k l') h j m e = ground (arith, owned j m, h.1 m)
    act-owned (read x k) h j m e = ground (arith, owned j m, h w.mem m)
    act-owned (write x f l') h j m e = ground (arith, owned j m, h m)
    act-owned (cond_wait c k l') h j m e = ground (arith, owned j m, h.1 m)
    act-owned (signal c l') h j m e =
        ground (arith, owned j m, h m, holds-roused held j c m (w.thread j))
    act-owned (broadcast c l') h j m e =
        ground (arith, owned j m, h m, holds-roused held j c m (w.thread j))
    act-owned (sem_wait s l') h j m e = ground (arith, owned j m, h m)
    act-owned (sem_post s l') h j m e = ground (arith, owned j m, h m)
    act-owned (create n l₀ l') h j m e = ground (arith, owned j m, h.0 m)
    act-owned (join n l') h j m e = ground (arith, owned j m, h m)

    act-Rests : (a : Act D L) → Locks i l a → (j : ℕ) → Rests held j ((act i v a w).thread j)
    unfolding act
    act-Rests exit h j = ground (arith, rests j)
    act-Rests (tau l') h j = ground (arith, rests j)
    act-Rests (input k) h j = ground (arith, rests j)
    act-Rests (lock k l') h j = ground (arith, rests j)
    act-Rests (unlock k l') h j = ground (arith, rests j)
    act-Rests (read x k) h j = ground (arith, rests j)
    act-Rests (write x f l') h j = ground (arith, rests j)
    act-Rests (cond_wait c k l') h j = ground (arith, rests j, h.0, h.1 k)
    act-Rests (signal c l') h j =
        ground (arith, rests j, roused-Rests held j c (w.thread j) (rests j))
    act-Rests (broadcast c l') h j =
        ground (arith, rests j, roused-Rests held j c (w.thread j) (rests j))
    act-Rests (sem_wait s l') h j = ground (arith, rests j)
    act-Rests (sem_post s l') h j = ground (arith, rests j)
    act-Rests (create n l₀ l') h j = ground (arith, rests j)
    act-Rests (join n l') h j = ground (arith, rests j)

    pub act-Owned : (a : Act D L) → Locks i l a → Owned (act i v a w)
    act-Owned a h = record { owns = act-owns a h; owned = act-owned a h; rests = act-Rests a h }

  module _ (i k : ℕ) (l : L) (w : World D L) (inv : Owned w)
      (now : w.thread i ≡ relocking k l) where
    open inv use {owns, owned, rests}

    pub acquire-Owned : Owned (acquire i k l (w.owner k) w)
    acquire-Owned = record {
      owns = λ j m e. ground (arith, owns j m, owns i m, rests i);
      owned = λ j m e. ground (arith, owned j m, owned i m, rests i);
      rests = λ j. ground (arith, rests j);
    }

  awake-Owned : (i : ℕ) (w : World D L) → Owned w → Owned (go i (awake (w.thread i)) w)
  awake-Owned i w inv = record {
    owns = λ j m e. ground (arith, inv.owns j m, holds-awake held j m (w.thread j));
    owned = λ j m e. ground (arith, inv.owned j m, holds-awake held j m (w.thread j));
    rests = λ j. ground (arith, inv.rests j, awake-Rests held j (w.thread j) (inv.rests j));
  }

  module _ (code : ℕ → L → Act D L) where
    -- The code of the threads that run in `w` agrees with the table.
    abbrev pub Agrees : World D L → Type 0
    Agrees w = (i : ℕ) (l : L) → w.thread i ≡ running l → Locks i l (code i l)

    resume-Owned :
        (i v : ℕ) (s : Status L) (w : World D L)
        → w.thread i ≡ s
        → Agrees w
        → Owned w
        → Owned (resume code i v s w)
    unfolding resume
    resume-Owned i v (running l) w e a inv = act-Owned i v l w inv e (code i l) (a i l e)
    resume-Owned i v (relocking k l) w e a inv = acquire-Owned i k l w inv e
    resume-Owned i v unborn w e a inv = inv
    resume-Owned i v (sleeping c k l) w e a inv = inv
    resume-Owned i v done w e a inv = inv

    pub step-Owned : (e : Event) (w : World D L) → Agrees w → Owned w → Owned (step code e w)
    unfolding step
    step-Owned (turn i v) w a inv = resume-Owned i v (w.thread i) w refl a inv
    step-Owned (wake i) w a inv = awake-Owned i w inv

  pub boot-Owned :
      (d : D) (sems : ℕ → ℕ) (l : L) → ((m : ℕ) → held 0 l m ≡ false) → Owned (boot d sems l)
  boot-Owned d sems l free = record {
    owns = λ j m e. ground (arith, free m);
    owned = λ j m e. cc;
    rests = λ j. ground arith;
  }

  -- No two threads hold one mutex.
  pub exclusive :
      (w : World D L)
      → Owned w
      → (i j m : ℕ) → holds held i (w.thread i) m ≡ true
      → holds held j (w.thread j) m ≡ true
      → i ≡ j
  exclusive w inv i j m hi hj = cc (inv.owns i m hi, inv.owns j m hj)
