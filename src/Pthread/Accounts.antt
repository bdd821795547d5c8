-- ===== src/Pthread/Accounts.antt =====
-- A shared total, and what each thread and one semaphore have of it. `gives i l` is what thread `i`
-- has given by the time that its local state is `l`, and `paid i` when it has finished. If each
-- action changes the total by what its thread and the semaphore gain, the total is the semaphore's
-- value and the sum over the threads in every run. `spent` is what the memory itself has of it.
use pthread_benchmark.Prelude.{
  ℕ, ◌+◌, ◌<◌, ◌≡◌, refl, Bool, ◌&&◌, Option, none, some, List, sum_below-outside, sum_below,
  sum_below-change, sum_below-eq_zero, sum_below-entry, true, arith, ◌≤◌, ◌==◌, if◌then◌else◌,
}
use pthread_benchmark.Pthread.Model.{
  Act, exit, tau, input, lock, unlock, read, write, cond_wait, signal, broadcast, sem_wait,
  sem_post, create, join, Status, unborn, running, sleeping, relocking, done, World, Event, turn,
  wake, act, resume, step, run, boot, roused, awake, acquire, go, run_inv,
}
use pthread_benchmark.Pthread.Races.{Discipline}
use pthread_benchmark.Pthread.Outline.{Outline, Holds}
use pthread_benchmark.Pthread.Outline.Runs.{Starts, step-Holds, boot-Holds}

module _ {L : Type 0} (gives : ℕ → L → ℕ) (paid : ℕ → ℕ) where
  abbrev pub amount : ℕ → Status L → ℕ
  amount i unborn = 0
  amount i (running l) = gives i l
  amount i (sleeping c m l) = gives i l
  amount i (relocking m l) = gives i l
  amount i done = paid i

  amount-roused : (i c : ℕ) (s : Status L) → amount i (roused c s) ≡ amount i s
  amount-roused i c (sleeping c' m l) = ground arith
  amount-roused i c unborn = refl
  amount-roused i c (running l) = refl
  amount-roused i c (relocking m l) = refl
  amount-roused i c done = refl

  amount-awake : (i : ℕ) (s : Status L) → amount i (awake s) ≡ amount i s
  amount-awake i (sleeping c m l) = refl
  amount-awake i _ = refl

module _ {D L : Type 0} (gives : ℕ → L → ℕ) (paid : ℕ → ℕ) (value spent : D → ℕ) (counted : Bool)
    (permits : ℕ) where
  -- The semaphore `permits` counts, or no semaphore does.
  abbrev pub left : World D L → ℕ
  left w = if counted then w.sem permits else 0

  abbrev tracked : ℕ → Bool
  tracked s = counted && permits == s

  -- The action of thread `i` at `l`, with memory `d`, changes the total by what the thread gives.
  abbrev pub Pays : ℕ → L → D → Act D L → Type 0
  Pays i l d exit = paid i ≡ gives i l
  Pays i l d (tau l') = gives i l' ≡ gives i l
  Pays i l d (input k) = (v : ℕ) → gives i (k v) ≡ gives i l
  Pays i l d (lock m l') = gives i l' ≡ gives i l
  Pays i l d (unlock m l') = gives i l' ≡ gives i l
  Pays i l d (read x k) = gives i (k d) ≡ gives i l
  Pays i l d (write x f l') = value (f d) + spent d + gives i l ≡ value d + spent (f d) + gives i l'
  Pays i l d (cond_wait c m l') = gives i l' ≡ gives i l
  Pays i l d (signal c l') = gives i l' ≡ gives i l
  Pays i l d (broadcast c l') = gives i l' ≡ gives i l
  Pays i l d (sem_wait s l') = gives i l' ≡ (if tracked s then gives i l + 1 else gives i l)
  Pays i l d (sem_post s l') = (if tracked s then gives i l' + 1 else gives i l') ≡ gives i l
  Pays i l d (create j l₀ l') = (gives i l' ≡ gives i l) × (gives j l₀ ≡ 0)
  Pays i l d (join j l') = gives i l' ≡ gives i l

  -- A step of thread `i` from `w` to `w'` settles.
  record Settles (i : ℕ) (w w' : World D L) : Type 0 where
    others :
        (j : ℕ) → ¬ (j ≡ i) → amount gives paid j (w.thread j) ≡ amount gives paid j (w'.thread j)
    balance :
        value w'.mem + spent w.mem + left w + amount gives paid i (w.thread i)
        ≡ value w.mem + spent w'.mem + left w' + amount gives paid i (w'.thread i)

  module _ (i v : ℕ) (l : L) (w : World D L) (now : w.thread i ≡ running l) where
    act-others :
        (a : Act D L)
        → Pays i l w.mem a
        → (j : ℕ) → ¬ (j ≡ i)
        → amount gives paid j (w.thread j) ≡ amount gives paid j ((act i v a w).thread j)
    unfolding act
    act-others exit h j ne = ground arith
    act-others (signal c l') h j ne = ground (arith, amount-roused gives paid j c (w.thread j))
    act-others (broadcast c l') h j ne = ground (arith, amount-roused gives paid j c (w.thread j))
    act-others (create n l₀ l') h j ne = ground (arith, h.1)
    act-others _ h j ne = ground arith

    act-balance :
        (a : Act D L)
        → Pays i l w.mem a
        → value (act i v a w).mem + spent w.mem + left w + amount gives paid i (w.thread i)
          ≡ value w.mem
            + spent (act i v a w).mem
            + left (act i v a w)
            + amount gives paid i ((act i v a w).thread i)
    unfolding act
    act-balance exit h = ground arith
    act-balance (input k) h = ground (arith, h v)
    act-balance (create n l₀ l') h = ground (arith, h.0)
    act-balance _ h = ground arith

  Settles-sum :
      (n i : ℕ) (w w' : World D L)
      → i < n
      → Settles i w w'
      → value w.mem ≡ spent w.mem + left w + sum_below (λ t. amount gives paid t (w.thread t)) n
      → value w'.mem ≡ spent w'.mem + left w' + sum_below (λ t. amount gives paid t (w'.thread t)) n
  Settles-sum n i w w' lt s e = omega (
    arith,
    s.balance,
    sum_below-change (λ t. amount gives paid t (w.thread t))
        (λ t. amount gives paid t (w'.thread t)) i n s.others lt,
  )

  sum_same :
      (n : ℕ) (w w' : World D L)
      → ((j : ℕ) → amount gives paid j (w.thread j) ≡ amount gives paid j (w'.thread j))
      → sum_below (λ t. amount gives paid t (w.thread t)) n
        ≡ sum_below (λ t. amount gives paid t (w'.thread t)) n
  sum_same n w w' h =
      sum_below-outside (λ t. amount gives paid t (w.thread t))
        (λ t. amount gives paid t (w'.thread t)) n n (λ j _. h j) (omega arith)

module _ {D L : Type 0} (code : ℕ → L → Act D L) (begin : L) (p : Discipline code begin)
    (o : Outline code begin p) (gives : ℕ → L → ℕ) (paid : ℕ → ℕ) (value spent : D → ℕ)
    (counted : Bool) (permits n : ℕ) (below : (i : ℕ) (l : L) → p.fits i l ≡ true → i < n)
    (pays : (i : ℕ) (l : L) (d : D)
      → p.fits i l ≡ true
      → o.at i (running l) d
      → spent d + gives i l ≤ value d
      → Pays gives paid value spent counted permits i l d (code i l)) where
  -- The total is what the memory, the semaphore and the threads have of it.
  abbrev pub Booked : World D L → Type 0
  Booked w =
      value w.mem
      ≡ spent w.mem
        + left gives paid value spent counted permits w
        + sum_below (λ t. amount gives paid t (w.thread t)) n

  resume-Booked :
      (i v : ℕ) (s : Status L) (w : World D L)
      → w.thread i ≡ s
      → Holds code begin p o w
      → Booked w
      → Booked (resume code i v s w)
  unfolding resume
  resume-Booked i v (running l) w e h b =
      Settles-sum gives paid value spent counted permits n i w (act i v (code i l) w)
        (below i l fit)
        (record {
          others = act-others gives paid value spent counted permits i v l w e (code i l) pay;
          balance = act-balance gives paid value spent counted permits i v l w e (code i l) pay;
        })
        b
    where
      fit : p.fits i l ≡ true
      fit = rw e at (h.sound.placed i)

      enough : spent w.mem + gives i l ≤ value w.mem
      enough =
          let own : gives i l ≤ sum_below (λ t. amount gives paid t (w.thread t)) n =
            (rw e at
              (sum_below-entry (λ t. amount gives paid t (w.thread t)) i n (below i l fit))) in
          omega (arith, b, own)

      pay : Pays gives paid value spent counted permits i l w.mem (code i l)
      pay = pays i l w.mem fit (rw e at (h.each i)) enough
  resume-Booked i v (relocking m l) w e h b = acquire_same (w.owner m)
    where
      acquire_same : (q : Option ℕ) → Booked (acquire i m l q w)
      acquire_same none = omega (
        arith,
        b,
        sum_same gives paid value spent counted permits n w (acquire i m l none w)
            (λ j. ground arith),
      )
      acquire_same (some k) = b
  resume-Booked i v unborn w e h b = b
  resume-Booked i v (sleeping c m l) w e h b = b
  resume-Booked i v done w e h b = b

  step-Booked :
      (e : Event) (w : World D L) → Holds code begin p o w → Booked w → Booked (step code e w)
  unfolding step
  step-Booked (turn i v) w h b = resume-Booked i v (w.thread i) w refl h b
  step-Booked (wake i) w h b = omega (
    arith,
    b,
    sum_same gives paid value spent counted permits n w (go i (awake (w.thread i)) w)
        (λ j. ground (arith, amount-awake gives paid j (w.thread j))),
  )

  -- The total is right in every run, if it starts as the semaphore's value.
  pub run-Booked :
      (d : D) (sems : ℕ → ℕ) (es : List Event)
      → Starts code begin p o d
      → value d ≡ spent d + (if counted then sems permits else 0)
      → gives 0 begin ≡ 0
      → Holds code begin p o (run code es (boot d sems begin))
        × Booked (run code es (boot d sems begin))
  run-Booked d sems es s z g =
      run_inv code (λ w. Holds code begin p o w × Booked w)
        (λ e w h. (step-Holds code begin p o e w h.0, step-Booked e w h.0 h.1)) es
        (boot d sems begin)
        (
          boot-Holds code begin p o d sems s,
          omega (
            arith,
            z,
            sum_below-eq_zero (λ t. amount gives paid t ((boot d sems begin).thread t)) n
                (λ j. ground arith),
          ),
        )
