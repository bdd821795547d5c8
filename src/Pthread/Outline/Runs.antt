-- ===== src/Pthread/Outline/Runs.antt =====
-- An outline that is checked action by action holds in every run.
use pthread_benchmark.Prelude.{
  ℕ, ◌≡◌, ◌≢◌, refl, sym, false, Option, none, some, List, ◌==◌, if◌then◌else◌, arith, Bool-cases,
  inl, inr, eq_of_==, ne_of_==, update, zero, suc, false≢true, subst,
}
use pthread_benchmark.Pthread.Model.{
  Act, exit, tau, input, lock, unlock, read, write, cond_wait, signal, broadcast, sem_wait,
  sem_post, create, join, Status, unborn, running, sleeping, relocking, done, World, Event, turn,
  wake, act, resume, step, run, run_inv, boot, roused, awake, go, acquire, decrement, await, start,
}
use pthread_benchmark.Pthread.Ownership.{holds, exclusive}
use pthread_benchmark.Pthread.Absence.{knows}
use pthread_benchmark.Pthread.Races.{Discipline, step-Sound, boot-Sound}
use pthread_benchmark.Pthread.Outline.{Apart, Checks, Outline, Holds}

module _ {D L : Type 0} (code : ℕ → L → Act D L) (begin : L) (p : Discipline code begin)
    (o : Outline code begin p) where
  open p use {fits, held, absent}
  open o use {inv, at, wakes, returns, checks}

  -- The parts of `Holds` that an outline is about.
  record Kept (w : World D L) : Type 0 where
    unowned' : (m : ℕ) → w.owner m ≡ none → inv m w.mem
    each' : (j : ℕ) → at j (w.thread j) w.mem

  roused-At : (i c : ℕ) (s : Status L) (d : D) → at i s d → at i (roused c s) d
  roused-At i c (sleeping c' m l) d h = elim (Bool-cases (c == c')) [
    | inl e ↦ rw e (wakes i c' m l d h)
    | inr e ↦ rw e h
  ]
  roused-At i c unborn d h = h
  roused-At i c (running l) d h = h
  roused-At i c (relocking m l) d h = h
  roused-At i c done d h = h

  awake-At : (i : ℕ) (s : Status L) (d : D) → at i s d → at i (awake s) d
  awake-At i (sleeping c m l) d h = wakes i c m l d h
  awake-At i unborn d h = h
  awake-At i (running l) d h = h
  awake-At i (relocking m l) d h = h
  awake-At i done d h = h

  -- A table of statuses that changes at `i` alone.
  update-At :
      (t : ℕ → Status L) (i : ℕ) (s : Status L) (d : D)
      → ((j : ℕ) → j ≢ i → at j (t j) d)
      → at i s d
      → (j : ℕ) → at j (if i == j then s else t j) d
  update-At t i s d others here j = elim (Bool-cases (i == j)) [
    | inl e ↦ rw (e, ← eq_of_== i j e) here
    | inr e ↦ rw e (others j (λ q. ne_of_== i j e (sym q)))
  ]

  module _ (i : ℕ) (w : World D L) (h : Holds code begin p o w) where
    open h use {sound, unowned, each}

    moves : (s : Status L) → at i s w.mem → Kept (go i s w)
    moves s q = record {
      unowned' = unowned;
      each' = update-At w.thread i s w.mem (λ j _. each j) q;
    }

    releases :
        (k : ℕ) (s : Status L)
        → inv k w.mem
        → at i s w.mem
        → Kept (record w { owner = update w.owner k none; thread = update w.thread i s })
    releases k s q r = record {
      unowned' = λ m e. elim (Bool-cases (k == m)) [
        | inl b ↦ subst (λ n. inv n w.mem) (eq_of_== k m b) q
        | inr b ↦ unowned m (ground arith)
      ];
      each' = update-At w.thread i s w.mem (λ j _. each j) r;
    }

    acquires :
        (k : ℕ) (l : L) (o : Option ℕ)
        → w.owner k ≡ o
        → (inv k w.mem → at i (running l) w.mem)
        → Kept (acquire i k l o w)
    acquires k l none e q = record {
      unowned' = λ m b. unowned m (ground arith);
      each' = update-At w.thread i (running l) w.mem (λ j _. each j) (q (unowned k e));
    }
    acquires k l (some n) e q = record { unowned' = unowned; each' = each }

    decrements : (s : ℕ) (l : L) (n : ℕ) → at i (running l) w.mem → Kept (decrement i s l n w)
    decrements s l (suc n) q = record {
      unowned' = unowned;
      each' = update-At w.thread i (running l) w.mem (λ j _. each j) q;
    }
    decrements s l zero q = record { unowned' = unowned; each' = each }

    awaits :
        (j : ℕ) (l : L) (s : Status L)
        → w.thread j ≡ s
        → (at j done w.mem → at i (running l) w.mem)
        → Kept (await i l s w)
    awaits j l done e q = moves (running l) (q (rw (← e) (each j)))
    awaits j l unborn e q = record { unowned' = unowned; each' = each }
    awaits j l (running l') e q = record { unowned' = unowned; each' = each }
    awaits j l (sleeping c m l') e q = record { unowned' = unowned; each' = each }
    awaits j l (relocking m l') e q = record { unowned' = unowned; each' = each }

    starts :
        (j : ℕ) (l₀ l : L) (s : Status L)
        → w.thread j ≡ s
        → at i (running l) w.mem
        → (at j unborn w.mem → at j (running l₀) w.mem)
        → Kept (go i (running l) (start j l₀ s w))
    starts j l₀ l unborn e q r = record {
      unowned' = unowned;
      each' =
          update-At (update w.thread j (running l₀)) i (running l) w.mem
            (λ n _.
              update-At w.thread j (running l₀) w.mem (λ n _. each n) (r (rw (← e) (each j))) n)
            q;
    }
    starts j l₀ l done e q r = moves (running l) q
    starts j l₀ l (running l') e q r = moves (running l) q
    starts j l₀ l (sleeping c m l') e q r = moves (running l) q
    starts j l₀ l (relocking m l') e q r = moves (running l) q

  module _ (i v : ℕ) (l : L) (w : World D L) (h : Holds code begin p o w)
      (now : w.thread i ≡ running l) where
    open h use {sound, unowned, each}

    apart : (j : ℕ) → j ≢ i → Apart fits held absent i l j (w.thread j)
    apart j ne = record {
      placed = sound.placed j;
      disjoint = λ m e. elim (Bool-cases (holds held j (w.thread j) m)) [
        | inl b ↦ absurd (ne (exclusive held w sound.own j i m b (rw now e)))
        | inr b ↦ b
      ];
      gone = λ e. sound.track i j (rw now e);
      unknown = elim (Bool-cases (knows absent j (w.thread j) i)) [
        | inl b ↦ absurd (false≢true (rw now at (sound.track j i b)))
        | inr b ↦ b
      ];
    }

    act-Kept : (a : Act D L) → Checks fits held absent inv at i l w.mem a → Kept (act i v a w)
    unfolding act
    act-Kept exit c = moves i w h done c
    act-Kept (tau l') c = moves i w h (running l') c
    act-Kept (input k) c = moves i w h (running (k v)) (c v)
    act-Kept (lock k l') c = acquires i w h k l' (w.owner k) refl c
    act-Kept (unlock k l') c = releases i w h k (running l') c.0 c.1
    act-Kept (read x k) c = moves i w h (running (k w.mem)) c
    act-Kept (write x f l') c = record {
      unowned' = λ m e. c.2 m (unheld m e) (unowned m e);
      each' =
          update-At w.thread i (running l') (f w.mem)
            (λ j ne. c.1 j (w.thread j) ne (apart j ne) (each j)) c.0;
    }
      where
        unheld : (m : ℕ) → w.owner m ≡ none → held i l m ≡ false
        unheld m e = elim (Bool-cases (held i l m)) [
          | inl b ↦ absurd (ground (arith, sound.own.owns i m (rw now b)))
          | inr b ↦ b
        ]
    act-Kept (cond_wait q k l') c = releases i w h k (sleeping q k l') c.0 c.1
    act-Kept (signal q l') c = record {
      unowned' = unowned;
      each' =
          update-At (update w.thread v (roused q (w.thread v))) i (running l') w.mem
            (λ j _.
              update-At w.thread v (roused q (w.thread v)) w.mem (λ n _. each n)
                (roused-At v q (w.thread v) w.mem (each v)) j)
            c;
    }
    act-Kept (broadcast q l') c = record {
      unowned' = unowned;
      each' =
          update-At (λ j. roused q (w.thread j)) i (running l') w.mem
            (λ j _. roused-At j q (w.thread j) w.mem (each j)) c;
    }
    act-Kept (sem_wait s l') c = decrements i w h s l' (w.sem s) c
    act-Kept (sem_post s l') c = record {
      unowned' = unowned;
      each' = update-At w.thread i (running l') w.mem (λ j _. each j) c;
    }
    act-Kept (create j l₀ l') c = starts i w h j l₀ l' (w.thread j) refl c.0 c.1
    act-Kept (join j l') c = awaits i w h j l' (w.thread j) refl c

  Kept-of_Holds : (w : World D L) → Holds code begin p o w → Kept w
  Kept-of_Holds w h = record { unowned' = h.unowned; each' = h.each }

  resume-Kept :
      (i v : ℕ) (s : Status L) (w : World D L)
      → w.thread i ≡ s
      → Holds code begin p o w
      → Kept (resume code i v s w)
  unfolding resume
  resume-Kept i v (running l) w e h =
      act-Kept i v l w h e (code i l)
        (checks i l w.mem (rw e at (h.sound.placed i)) (rw e at (h.each i)))
  resume-Kept i v (relocking m l) w e h =
      acquires i w h m l (w.owner m) refl (returns i m l w.mem (rw e at (h.each i)))
  resume-Kept i v unborn w e h = Kept-of_Holds w h
  resume-Kept i v (sleeping c m l) w e h = Kept-of_Holds w h
  resume-Kept i v done w e h = Kept-of_Holds w h

  step-Kept : (e : Event) (w : World D L) → Holds code begin p o w → Kept (step code e w)
  unfolding step
  step-Kept (turn i v) w h = resume-Kept i v (w.thread i) w refl h
  step-Kept (wake i) w h =
      moves i w h (awake (w.thread i)) (awake-At i (w.thread i) w.mem (h.each i))

  pub step-Holds :
      (e : Event) (w : World D L) → Holds code begin p o w → Holds code begin p o (step code e w)
  step-Holds e w h =
      let k = step-Kept e w h in
      record { sound = step-Sound code begin p e w h.sound; unowned = k.unowned'; each = k.each' }

  -- What the outline asks of the memory at the start.
  pub record Starts (d : D) : Type 0 where
    pub unowned : (m : ℕ) → inv m d
    pub main : at 0 (running begin) d
    pub others : (i : ℕ) → i ≢ 0 → at i unborn d

  pub boot-Holds : (d : D) (sems : ℕ → ℕ) → Starts d → Holds code begin p o (boot d sems begin)
  boot-Holds d sems s = record {
    sound = boot-Sound code begin p d sems;
    unowned = λ m _. s.unowned m;
    each = update-At (λ _. unborn) 0 (running begin) d s.others s.main;
  }

  -- The outline holds in every run.
  pub run-Holds :
      (d : D) (sems : ℕ → ℕ) (es : List Event)
      → Starts d
      → Holds code begin p o (run code es (boot d sems begin))
  run-Holds d sems es s =
      run_inv code (Holds code begin p o) step-Holds es (boot d sems begin) (boot-Holds d sems s)
