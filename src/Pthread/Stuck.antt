-- ===== src/Pthread/Stuck.antt =====
-- When no thread can take a step: a deadlock, unless all have finished.
use pthread_benchmark.Prelude.{ℕ, ◌≡◌, ◌≢◌, refl, Option, none, some}
use pthread_benchmark.Pthread.Model.{
  Act, lock, sem_wait, join, Status, unborn, running, sleeping, relocking, done, World, turn, act,
  resume, step, acquire, await,
}

module _ {D L : Type 0} where
  -- The action cannot be taken in the world `w`.
  abbrev pub Waits : World D L → Act D L → Type 0
  Waits w (lock m l) = w.owner m ≢ none
  Waits w (sem_wait s l) = w.sem s ≡ 0
  Waits w (join j l) = w.thread j ≢ done
  Waits w _ = ⊥

  module _ (code : ℕ → L → Act D L) where
    abbrev pub Halts : World D L → ℕ → Status L → Type 0
    Halts w i (running l) = Waits w (code i l)
    Halts w i (relocking m l) = w.owner m ≢ none
    Halts w i _ = Unit

    abbrev pub Stuck : World D L → Type 0
    Stuck w = (i : ℕ) → Halts w i (w.thread i)

  acquire-same : (i m : ℕ) (l : L) (o : Option ℕ) (w : World D L) → o ≢ none → acquire i m l o w ≡ w
  acquire-same i m l none w h = absurd (h refl)
  acquire-same i m l (some j) w h = refl

  await-same : (i : ℕ) (l : L) (s : Status L) (w : World D L) → s ≢ done → await i l s w ≡ w
  await-same i l done w h = absurd (h refl)
  await-same i l unborn w h = refl
  await-same i l (running k) w h = refl
  await-same i l (sleeping c m k) w h = refl
  await-same i l (relocking m k) w h = refl

  act-same : (i v : ℕ) (a : Act D L) (w : World D L) → Waits w a → act i v a w ≡ w
  unfolding act
  act-same i v (lock m l) w h = acquire-same i m l (w.owner m) w h
  act-same i v (sem_wait s l) w h = rw h refl
  act-same i v (join j l) w h = await-same i l (w.thread j) w h
  act-same i v _ w h = absurd h

  -- A turn of a thread that halts changes nothing.
  resume-same :
      (code : ℕ → L → Act D L) (i v : ℕ) (s : Status L) (w : World D L)
      → Halts code w i s
      → resume code i v s w ≡ w
  unfolding resume
  resume-same code i v (running l) w h = act-same i v (code i l) w h
  resume-same code i v (relocking m l) w h = acquire-same i m l (w.owner m) w h
  resume-same code i v unborn w h = refl
  resume-same code i v done w h = refl
  resume-same code i v (sleeping c m l) w h = refl

  -- In a stuck world no turn changes anything.
  pub step-same :
      (code : ℕ → L → Act D L) (w : World D L) (i v : ℕ) → Stuck code w → step code (turn i v) w ≡ w
  unfolding step
  step-same code w i v h = resume-same code i v (w.thread i) w (h i)
