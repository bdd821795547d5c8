-- ===== src/Pthread/Outline.antt =====
-- Proof outlines in the manner of Owicki and Gries, for disciplined programs. `inv m` holds of the
-- memory while mutex `m` is free, and `at i s` while thread `i` has status `s`. An outline is
-- checked action by action; it then holds in every run.
pub mod Runs
use pthread_benchmark.Prelude.{
  ℕ, ◌≡◌, ◌≢◌, refl, sym, Bool, true, false, Option, none, some, List, ◌==◌, if◌then◌else◌, arith,
  Bool-cases, inl, inr, eq_of_==, ne_of_==, update, zero, suc, false≢true, subst,
}
use pthread_benchmark.Pthread.Model.{
  Act, exit, tau, input, lock, unlock, read, write, cond_wait, signal, broadcast, sem_wait,
  sem_post, create, join, Status, unborn, running, sleeping, relocking, done, World, Event, turn,
  wake, act, resume, step, run, run_inv, boot, roused, awake, go, acquire, decrement, await, start,
}
use pthread_benchmark.Pthread.Roles.{fitting}
use pthread_benchmark.Pthread.Ownership.{Owned, holds, exclusive, Locks, step-Owned, boot-Owned}
use pthread_benchmark.Pthread.Absence.{Tracked, quiet, knows, step-Tracked, boot-Tracked}
use pthread_benchmark.Pthread.Races.{Discipline, Sound}

-- What holds of another thread `j` while thread `i` is at `l`: `j` is where it may be, they hold no mutex together, and
-- neither relies on the other's absence while it runs.
pub record Apart {L : Type 0} (fits : ℕ → L → Bool) (held absent : ℕ → L → ℕ → Bool) (i : ℕ) (l : L)
    (j : ℕ) (s : Status L) : Type 0 where
  pub placed : fitting fits j s ≡ true
  pub disjoint : (m : ℕ) → held i l m ≡ true → holds held j s m ≡ false
  pub gone : absent i l j ≡ true → quiet s ≡ true
  pub unknown : knows absent j s i ≡ false

module _ {D L : Type 0} (fits : ℕ → L → Bool) (held absent : ℕ → L → ℕ → Bool)
    (inv : ℕ → D → Type 0) (at : ℕ → Status L → D → Type 0) where
  -- The condition on the action `a` of thread `i` at `l`, with memory `d`.
  abbrev pub Checks : ℕ → L → D → Act D L → Type 0
  Checks i l d exit = at i done d
  Checks i l d (tau l') = at i (running l') d
  Checks i l d (input k) = (v : ℕ) → at i (running (k v)) d
  Checks i l d (lock m l') = inv m d → at i (running l') d
  Checks i l d (unlock m l') = inv m d × at i (running l') d
  Checks i l d (read x k) = at i (running (k d)) d
  Checks i l d (write x f l') =
      at i (running l') (f d)
      × ((j : ℕ) (s : Status L) → j ≢ i → Apart fits held absent i l j s → at j s d → at j s (f d))
      × ((m : ℕ) → held i l m ≡ false → inv m d → inv m (f d))
  Checks i l d (cond_wait c m l') = inv m d × at i (sleeping c m l') d
  Checks i l d (signal c l') = at i (running l') d
  Checks i l d (broadcast c l') = at i (running l') d
  Checks i l d (sem_wait s l') = at i (running l') d
  Checks i l d (sem_post s l') = at i (running l') d
  Checks i l d (create j l₀ l') = at i (running l') d × (at j unborn d → at j (running l₀) d)
  Checks i l d (join j l') = at j done d → at i (running l') d

pub record Outline {D L : Type 0} (code : ℕ → L → Act D L) (begin : L) (p : Discipline code begin)
    : Type 1 where
  pub inv : ℕ → D → Type 0
  pub at : ℕ → Status L → D → Type 0
  pub checks :
      (i : ℕ) (l : L) (d : D)
      → p.fits i l ≡ true
      → at i (running l) d
      → Checks p.fits p.held p.absent inv at i l d (code i l)
  pub wakes : (i c m : ℕ) (l : L) (d : D) → at i (sleeping c m l) d → at i (relocking m l) d
  pub returns : (i m : ℕ) (l : L) (d : D) → at i (relocking m l) d → inv m d → at i (running l) d

module _ {D L : Type 0} (code : ℕ → L → Act D L) (begin : L) (p : Discipline code begin)
    (o : Outline code begin p) where
  open o use {inv, at}

  pub record Holds (w : World D L) : Type 0 where
    pub sound : Sound code begin p w
    pub unowned : (m : ℕ) → w.owner m ≡ none → inv m w.mem
    pub each : (i : ℕ) → at i (w.thread i) w.mem
