-- ===== src/ProCon/History.antt =====
-- Runs of the producer and the consumer.
use pthread_benchmark.Prelude.{
  ℕ, zero, suc, ◌+◌, ◌≡◌, inl, inr, refl, true, false, none, List, [], ◌∷◌, ◌++◌, arith, eq_of_==,
}
use pthread_benchmark.Prelude.Int.{ℤ, pos, ◌+ℤ◌, ◌-ℤ◌, ltb_ℤ, is_zero}
use pthread_benchmark.Pthread.Model.{Act, running, relocking, World, Event, run, boot}
use pthread_benchmark.Pthread.OneLock.{held, absent, entrusted}
use pthread_benchmark.Pthread.Outline.{Checks, Outline, Holds}
use pthread_benchmark.Pthread.Outline.Runs.{Starts, run-Holds}
use pthread_benchmark.ProCon.{
  con_init_val, Line, producter, consumer, Store, opened, Pro, top, add, show, leave, notify, store,
  print, Con, enter, test, wait, drain, take_one, tell, depart, put, say, create_pro, create_con,
  join_pro, join_con, finish, Local, main, pro, con, code, begin,
}
use pthread_benchmark.ProCon.Discipline.{inside, fits, discipline}
use pthread_benchmark.ProCon.Assertions.{Story, empty, made, used, makings, Inv, At, frame}

makings-producter : (ls : List Line) (d : ℤ) → makings (ls ++ (producter d ∷ [])) ≡ makings ls + 1
makings-producter [] d = refl
makings-producter (producter e ∷ ls) d = omega (arith, makings-producter ls d)
makings-producter (consumer e ∷ ls) d = makings-producter ls d

makings-consumer : (ls : List Line) (d : ℤ) → makings (ls ++ (consumer d ∷ [])) ≡ makings ls
makings-consumer [] d = refl
makings-consumer (producter e ∷ ls) d = omega (arith, makings-consumer ls d)
makings-consumer (consumer e ∷ ls) d = makings-consumer ls d

one_more : (k : ℕ) (z : ℤ) → z ≡ pos k → z +ℤ pos 1 ≡ pos (suc k)
unfolding ◌+ℤ◌
one_more k z e = ground arith

one_less : (k : ℕ) (z : ℤ) → z ≡ pos (suc k) → z -ℤ pos 1 ≡ pos k
one_less k z e = ground arith

is_zero-zero : (z : ℤ) → z ≡ pos 0 → is_zero z ≡ true
is_zero-zero z e = ground arith

some_left : (k : ℕ) (z : ℤ) → z ≡ pos (suc k) → (is_zero z ≡ false) × (ltb_ℤ (pos 0) z ≡ true)
some_left k z e = ground arith

none_left : (z : ℤ) → z ≡ pos 0 → ltb_ℤ (pos 0) z ≡ false
none_left z e = ground arith

module _ (n : ℕ) where
  unfoldable Checked : ℕ → Local → Store → Act Store Local → Type 0
  Checked t l s = Checks fits (held inside) absent (Inv n) (At n) t l s

  checks_pro :
      (t : ℕ) (p : Pro) (s : Store)
      → fits t (pro p) ≡ true
      → At n t (running (pro p)) s
      → Checked t (pro p) s (code t (pro p))
  unfolding code Checked
  checks_pro t (top zero) s f h = λ e. omega (arith, h)
  checks_pro t (top (suc i)) s f h = λ v. (v refl, h)
  checks_pro t (add i) s f ((k, h), c) = ((k, h, h.number), c)
  checks_pro t (store i d) s f ((k, h, e), c) = (
    ((k, record { number = one_more k d e; story = h.story }), c),
    frame n t (pro (store i d)) s _ refl (inr refl),
    entrusted inside t (pro (store i d)) refl,
  )
  checks_pro t (show i) s f ((k, h), c) = ((k, h, h.number), c)
  checks_pro t (print i d) s f ((k, h, e), c) = (
    (
      (suc k, record { number = h.number; story = rw e (made h.story) }),
      omega (arith, c, makings-producter s.out d),
    ),
    frame n t (pro (print i d)) s _ refl (inl (eq_of_== t 1 f)),
    entrusted inside t (pro (print i d)) refl,
  )
  checks_pro t (leave i) s f (h, c) = (λ m. h, c)
  checks_pro t (notify i) s f h = h

  checks_con :
      (t : ℕ) (p : Con) (s : Store)
      → fits t (con p) ≡ true
      → At n t (running (con p)) s
      → Checked t (con p) s (code t (con p))
  unfolding code Checked
  checks_con t (enter zero) s f h = λ e. absurd (omega (arith, e, eq_of_== t 2 f))
  checks_con t (enter (suc i)) s f h = λ v. v refl
  checks_con t (test i) s f (zero, h) = rw (is_zero-zero s.data_ h.number) (0, h)
  checks_con t (test i) s f (suc k, h) = rw (some_left k s.data_ h.number).0 (suc k, h)
  checks_con t (wait i) s f h = (λ z. h, refl)
  checks_con t (drain i) s f (zero, h) = rw (none_left s.data_ h.number) (0, h)
  checks_con t (drain i) s f (suc k, h) = rw (some_left k s.data_ h.number).1 (k, h)
  checks_con t (take_one i) s f (k, h) = (k, h, h.number)
  checks_con t (put i d) s f (k, h, e) = (
    (k, record { number = one_less k d e; story = h.story }),
    frame n t (con (put i d)) s _ refl (inr refl),
    entrusted inside t (con (put i d)) refl,
  )
  checks_con t (tell i) s f (k, h) = (k, h, h.number)
  checks_con t (say i d) s f (k, h, e) = (
    (k, record { number = h.number; story = rw e (used h.story) }),
    frame n t (con (say i d)) s _ refl (inr (makings-consumer s.out d)),
    entrusted inside t (con (say i d)) refl,
  )
  checks_con t (depart i) s f h = (λ m. h, tt)

  checks :
      (t : ℕ) (l : Local) (s : Store)
      → fits t l ≡ true
      → At n t (running l) s
      → Checked t l s (code t l)
  unfolding code Checked
  checks t (main (create_pro k)) s f h = (tt, λ u. omega (arith, h, u refl))
  checks t (main (create_con k)) s f h = (tt, λ u. tt)
  checks t (main join_pro) s f h = λ u. tt
  checks t (main join_con) s f h = λ u. tt
  checks t (main finish) s f h = λ e. absurd (omega (arith, e, eq_of_== t 0 f))
  checks t (pro p) s f h = checks_pro t p s f h
  checks t (con p) s f h = checks_con t p s f h

  returns :
      (t m : ℕ) (l : Local) (s : Store)
      → At n t (relocking m l) s
      → Inv n m s
      → At n t (running l) s
  returns t m (con (test i)) s h v = v h
  returns t m _ s h v = absurd h

  outline : Outline code (begin n) (discipline n)
  unfolding Checked discipline
  outline = record {
    inv = Inv n;
    at = At n;
    checks = checks;
    wakes = λ t c m l s h. h;
    returns = returns;
  }

  starts : Starts code (begin n) (discipline n) outline opened
  unfolding outline
  starts = record {
    unowned = λ m z. (con_init_val, record { number = refl; story = empty });
    main = refl;
    others = λ t ne e. refl;
  }

  module _ (es : List Event) where
    abbrev after : World Store Local
    after = run code es (boot opened (λ _. 0) (begin n))

    hold : Holds code (begin n) (discipline n) outline after
    hold = run-Holds code (begin n) (discipline n) outline opened (λ _. 0) es starts

    -- For every number of rounds and schedule: while the mutex is free, data is not negative, and
    -- it is where the printed lines have led it, from 3 on, one up with each line of the producer
    -- and one down with each of the consumer.
    pub data_Story :
        after.owner 0 ≡ none → (k : ℕ) × (after.mem.data_ ≡ pos k) × Story after.mem.out k
    unfolding outline
    data_Story free = let (k, h) = hold.unowned 0 free refl in (k, h.number, h.story)
