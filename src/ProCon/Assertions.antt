-- ===== src/ProCon/Assertions.antt =====
-- What the printed lines say of `data`, and what the threads know.
use pthread_benchmark.Prelude.{
  ℕ, suc, ◌+◌, ◌≡◌, ◌≢◌, ◌⊎◌, inl, inr, refl, ◌∙◌, eq_of_==, true, List, [], ◌∷◌, ◌++◌, arith,
}
use pthread_benchmark.Prelude.Int.{pos}
use pthread_benchmark.Pthread.Model.{Status, unborn, running, sleeping, relocking, done}
use pthread_benchmark.Pthread.Outline.{Apart}
use pthread_benchmark.Pthread.OneLock.{held, absent}
use pthread_benchmark.ProCon.{
  con_init_val, Line, producter, consumer, Store, Pro, top, add, show, leave, notify, store, print,
  Con, enter, test, wait, drain, take_one, tell, depart, put, say, Main, create_pro, Local, main,
  pro, con,
}
use pthread_benchmark.ProCon.Discipline.{inside, fits}

-- The lines are the history of a number from 3 to `k` that never goes below 0: each line of the
-- producer shows one more than the line before, each of the consumer one less.
pub data Story : List Line → ℕ → Type 0 where
  empty : Story [] con_init_val
  made :
      {ls : List Line} {k : ℕ} → Story ls k → Story (ls ++ (producter (pos (suc k)) ∷ [])) (suc k)
  used : {ls : List Line} {k : ℕ} → Story ls (suc k) → Story (ls ++ (consumer (pos k) ∷ [])) k

abbrev pub makings : List Line → ℕ
makings [] = 0
makings (producter n ∷ ls) = suc (makings ls)
makings (consumer n ∷ ls) = makings ls

-- `data` is `k`, and `j` was printed last.
pub record Level (j k : ℕ) (s : Store) : Type 0 where
  pub number : s.data_ ≡ pos k
  pub story : Story s.out j

-- The count of the producer's lines, for thread 1.
frame_count :
    (t : ℕ) (s s' : Store)
    → (t ≡ 1) ⊎ (makings s'.out ≡ makings s.out)
    → (j c : ℕ) → j ≢ t
    → j ≡ 1
    → makings s.out ≡ c
    → makings s'.out ≡ c
frame_count t s s' (inl e) j c ne f h = absurd (ne (omega (arith, e, f)))
frame_count t s s' (inr e) j c ne f h = e ∙ h

module _ (n : ℕ) where
  abbrev pub Inv : ℕ → Store → Type 0
  Inv m s = m ≡ 0 → (k : ℕ) × Level k k s

  -- The producer has printed all but `i` of its lines.
  abbrev pub Left : ℕ → Store → Type 0
  Left i s = makings s.out + i ≡ n

  abbrev pub AtPro : Pro → Store → Type 0
  AtPro (top i) s = Left i s
  AtPro (add i) s = ((k : ℕ) × Level k k s) × Left (suc i) s
  AtPro (store i d) s = ((k : ℕ) × Level k k s × (d ≡ pos k)) × Left (suc i) s
  AtPro (show i) s = ((k : ℕ) × Level k (suc k) s) × Left (suc i) s
  AtPro (print i d) s = ((k : ℕ) × Level k (suc k) s × (d ≡ pos (suc k))) × Left (suc i) s
  AtPro (leave i) s = ((k : ℕ) × Level k k s) × Left i s
  AtPro (notify i) s = Left i s

  abbrev pub AtCon : Con → Store → Type 0
  AtCon (enter i) s = Unit
  AtCon (test i) s = (k : ℕ) × Level k k s
  AtCon (wait i) s = (k : ℕ) × Level k k s
  AtCon (drain i) s = (k : ℕ) × Level k k s
  AtCon (take_one i) s = (k : ℕ) × Level (suc k) (suc k) s
  AtCon (put i d) s = (k : ℕ) × Level (suc k) (suc k) s × (d ≡ pos (suc k))
  AtCon (tell i) s = (k : ℕ) × Level (suc k) k s
  AtCon (say i d) s = (k : ℕ) × Level (suc k) k s × (d ≡ pos k)
  AtCon (depart i) s = (k : ℕ) × Level k k s

  abbrev pub AtMain : Main → Type 0
  AtMain (create_pro k) = k ≡ n
  AtMain _ = Unit

  -- The consumer waits with the mutex in hand.
  abbrev pub Resting : ℕ → Local → Type 0
  Resting m (con (test i)) = m ≡ 0
  Resting m _ = ⊥

  abbrev pub At : ℕ → Status Local → Store → Type 0
  At t (running (main p)) s = AtMain p
  At t (running (pro p)) s = AtPro p s
  At t (running (con p)) s = AtCon p s
  At t (sleeping q m l) s = Resting m l
  At t (relocking m l) s = Resting m l
  At t unborn s = t ≡ 1 → makings s.out ≡ 0
  At t done s = t ≡ 1 → makings s.out ≡ n

  -- A thread that holds the mutex, and is the producer or prints no line of it, disturbs nobody.
  pub frame :
      (t : ℕ) (l : Local) (s s' : Store)
      → inside l ≡ true
      → (t ≡ 1) ⊎ (makings s'.out ≡ makings s.out)
      → (j : ℕ) (q : Status Local) → j ≢ t
      → Apart fits (held inside) absent t l j q
      → At j q s
      → At j q s'
  frame t l s s' own keep j unborn ne a h = λ e. frame_count t s s' keep j 0 ne e (h e)
  frame t l s s' own keep j done ne a h = λ e. frame_count t s s' keep j n ne e (h e)
  frame t l s s' own keep j (sleeping q m k) ne a h = h
  frame t l s s' own keep j (relocking m k) ne a h = h
  frame t l s s' own keep j (running (main q)) ne a h = h
  frame t l s s' own keep j (running (pro (top i))) ne a h =
      omega (arith, h, frame_count t s s' keep j (makings s.out) ne (eq_of_== j 1 a.placed) refl)
  frame t l s s' own keep j (running (pro (notify i))) ne a h =
      omega (arith, h, frame_count t s s' keep j (makings s.out) ne (eq_of_== j 1 a.placed) refl)
  frame t l s s' own keep j (running (pro _)) ne a h = ground (arith, a.disjoint 0)
  frame t l s s' own keep j (running (con (enter i))) ne a h = tt
  frame t l s s' own keep j (running (con _)) ne a h = ground (arith, a.disjoint 0)
