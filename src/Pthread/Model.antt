-- ===== src/Pthread/Model.antt =====
-- Threads over shared memory, as POSIX describes the calls that the programs make: mutexes,
-- condition variables, semaphores, `pthread_create` and `pthread_join`. A program is a function
-- from the thread and its local state (program counter and local variables) to its next action.
-- Each read or write of a shared variable is an action of its own, and the scheduler interleaves
-- them in any order (sequential consistency).
use pthread_benchmark.Prelude.{
  ℕ, suc, ◌+◌, Bool, true, false, Option, none, some, List, [], ◌∷◌, ◌++◌, zero, ◌==◌,
  if◌then◌else◌, update, ◌≡◌, refl,
}

-- The next action of a thread: `D` is the shared memory, `L` the local state to go on with.
-- Variables, mutexes, condition variables, semaphores and threads are named by numbers.
pub data Act (D L : Type 0) : Type 0 where
  exit : Act D L
  tau : L → Act D L
  input : (ℕ → L) → Act D L  -- a value that the environment chooses
  lock unlock : ℕ → L → Act D L
  read : ℕ → (D → L) → Act D L
  write : ℕ → (D → D) → L → Act D L
  cond_wait : ℕ → ℕ → L → Act D L  -- condition variable, mutex
  signal broadcast : ℕ → L → Act D L
  sem_wait sem_post : ℕ → L → Act D L
  create : ℕ → L → L → Act D L  -- the new thread, where it starts, and where the caller goes on
  join : ℕ → L → Act D L

pub data Status (L : Type 0) : Type 0 where
  unborn : Status L
  running : L → Status L
  sleeping : ℕ → ℕ → L → Status L  -- in pthread_cond_wait, the mutex released
  relocking : ℕ → L → Status L  -- in pthread_cond_wait, unblocked, before it has the mutex again
  done : Status L

pub record World (D L : Type 0) : Type 0 where
  pub mem : D
  pub owner : ℕ → Option ℕ
  pub sem : ℕ → ℕ
  pub thread : ℕ → Status L

-- The scheduler's moves: `turn i v` lets thread `i` take one step, and `v` is the value that it
-- reads from the environment, or the thread that its `pthread_cond_signal` unblocks. `wake i` is a
-- spurious wake-up, which POSIX allows at any time.
pub data Event : Type 0 where
  turn : ℕ → ℕ → Event
  wake : ℕ → Event

module _ {L : Type 0} where
  -- A waiter on `c` stops sleeping.
  abbrev pub roused : ℕ → Status L → Status L
  roused c (sleeping c' m l) = if c == c' then relocking m l else sleeping c' m l
  roused c unborn = unborn
  roused c (running l) = running l
  roused c (relocking m l) = relocking m l
  roused c done = done

  abbrev pub awake : Status L → Status L
  awake (sleeping c m l) = relocking m l
  awake unborn = unborn
  awake (running l) = running l
  awake (relocking m l) = relocking m l
  awake done = done

module _ {D L : Type 0} where
  abbrev pub go : ℕ → Status L → World D L → World D L
  go i s w = record w { thread = update w.thread i s }

  -- A thread waits while the mutex has an owner, itself included.
  abbrev pub acquire : ℕ → ℕ → L → Option ℕ → World D L → World D L
  acquire i m l none w = record w {
    owner = update w.owner m (some i);
    thread = update w.thread i (running l);
  }
  acquire i m l (some _) w = w

  abbrev pub await : ℕ → L → Status L → World D L → World D L
  await i l done w = go i (running l) w
  await i l _ w = w

  abbrev pub start : ℕ → L → Status L → World D L → World D L
  start j l unborn w = go j (running l) w
  start j l _ w = w

  abbrev pub decrement : ℕ → ℕ → L → ℕ → World D L → World D L
  decrement i s l (suc n) w = record w {
    sem = update w.sem s n;
    thread = update w.thread i (running l);
  }
  decrement i s l _ w = w

  unfoldable pub act : ℕ → ℕ → Act D L → World D L → World D L
  act i v exit w = go i done w
  act i v (tau l) w = go i (running l) w
  act i v (input k) w = go i (running (k v)) w
  act i v (lock m l) w = acquire i m l (w.owner m) w
  act i v (unlock m l) w = record w {
    owner = update w.owner m none;
    thread = update w.thread i (running l);
  }
  act i v (read x k) w = go i (running (k w.mem)) w
  act i v (write x f l) w = record w { mem = f w.mem; thread = update w.thread i (running l) }
  act i v (cond_wait c m l) w = record w {
    owner = update w.owner m none;
    thread = update w.thread i (sleeping c m l);
  }
  act i v (signal c l) w = record w {
    thread = update (update w.thread v (roused c (w.thread v))) i (running l);
  }
  act i v (broadcast c l) w = record w {
    thread = update (λ j. roused c (w.thread j)) i (running l);
  }
  act i v (sem_wait s l) w = decrement i s l (w.sem s) w
  act i v (sem_post s l) w = record w {
    sem = update w.sem s (w.sem s + 1);
    thread = update w.thread i (running l);
  }
  act i v (create j l₀ l) w = go i (running l) (start j l₀ (w.thread j) w)
  act i v (join j l) w = await i l (w.thread j) w

  module _ (code : ℕ → L → Act D L) where
    unfoldable pub resume : ℕ → ℕ → Status L → World D L → World D L
    unfolding act
    resume i v (running l) w = act i v (code i l) w
    resume i v (relocking m l) w = acquire i m l (w.owner m) w
    resume i v _ w = w

    unfoldable pub step : Event → World D L → World D L
    unfolding resume
    step (turn i v) w = resume i v (w.thread i) w
    step (wake i) w = go i (awake (w.thread i)) w

    -- A run under a schedule: the events in order.
    unfoldable pub run : List Event → World D L → World D L
    unfolding step
    run [] w = w
    run (e ∷ es) w = run es (step e w)

    pub run-append : (es fs : List Event) (w : World D L) → run (es ++ fs) w ≡ run fs (run es w)
    unfolding run
    run-append [] fs w = refl
    run-append (e ∷ es) fs w = run-append es fs (step e w)

    -- What every event keeps, every run keeps.
    pub run_inv {κ} :
        (P : World D L → Type κ)
        → ((e : Event) (w : World D L) → P w → P (step e w))
        → (es : List Event) (w : World D L) → P w
        → P (run es w)
    unfolding run
    run_inv P keep [] w h = h
    run_inv P keep (e ∷ es) w h = run_inv P keep es (step e w) (keep e w h)

    -- The action that a thread takes next.
    abbrev pub pending : ℕ → Status L → Act D L
    pending i (running l) = code i l
    pending i _ = exit

  abbrev pub touches : Act D L → ℕ → Bool
  touches (read y k) x = y == x
  touches (write y f l) x = y == x
  touches _ x = false

  abbrev pub alters : Act D L → ℕ → Bool
  alters (write y f l) x = y == x
  alters _ x = false

-- The program starts in `main`, thread 0; every mutex is free and every semaphore at its start.
abbrev pub boot : {D L : Type 0} → D → (ℕ → ℕ) → L → World D L
boot d sems l = record {
  mem = d;
  owner = λ _. none;
  sem = sems;
  thread = λ i. if 0 == i then running l else unborn;
}

-- Programs that are kept in two versions, with and without their mutex: a version without it takes
-- a step that does nothing in place of the call.
abbrev pub lock_if : {D L : Type 0} → Bool → ℕ → L → Act D L
lock_if true m l = lock m l
lock_if false m l = tau l

abbrev pub unlock_if : {D L : Type 0} → Bool → ℕ → L → Act D L
unlock_if true m l = unlock m l
unlock_if false m l = tau l

-- Schedules: one thread for some turns, or a pattern again and again.
abbrev pub turns : ℕ → ℕ → ℕ → List Event
turns zero i v = []
turns (suc n) i v = turn i v ∷ turns n i v

abbrev pub rounds : ℕ → List Event → List Event
rounds zero es = []
rounds (suc n) es = es ++ rounds n es
