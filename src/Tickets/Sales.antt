-- ===== src/Tickets/Sales.antt =====
-- What the ticket sellers sell.
use pthread_benchmark.Prelude.{
  ℕ, zero, suc, ◌-◌, ◌<◌, ◌≤◌, ◌≡◌, refl, sym, ap, ◌∙◌, true, false, List, [], ◌∷◌, ◌++◌, arith,
  eq_of_==,
}
use mathlib.Core.Path.{ap₂}
use pthread_benchmark.Prelude.Int.{ℤ, pos, pos_part, ltb_ℤ, ◌-ℤ◌}
use pthread_benchmark.Pthread.Model.{
  Act, Status, unborn, running, sleeping, relocking, done, World, Event, run, boot,
}
use pthread_benchmark.Pthread.Roles.{fitting}
use pthread_benchmark.Pthread.Ownership.{holds}
use pthread_benchmark.Pthread.OneLock.{
  held, absent, one_lock, free_of_unheld, entrusted, running≢done,
}
use pthread_benchmark.Pthread.Outline.{Checks, Outline, Holds}
use pthread_benchmark.Pthread.Outline.Runs.{Starts, run-Holds}
use pthread_benchmark.Tickets.{
  Office, enter, test, load, store, print, leave, quit, over, create_1, create_2, join_1, join_2,
  finish, Local, main, seller, code, fixed_code, begin, stocked,
}
use pthread_benchmark.Tickets.Discipline.{inside, fits, discipline}
use pthread_benchmark.Tickets.Assertions.{countdown, Inv, At, frame}

module _ (stock : ℕ) where
  unfoldable Checked : ℕ → Local → Office → Act Office Local → Type 0
  Checked t l o = Checks fits (held inside) absent (Inv stock) (At stock) t l o

  some_left : (k : ℕ) (z : ℤ) → z ≡ pos (suc k) → ltb_ℤ (pos 0) z ≡ true
  some_left k z e = ground arith

  none_left : (z : ℤ) → z ≡ pos 0 → ltb_ℤ (pos 0) z ≡ false
  none_left z e = ground arith

  one_less : (k : ℕ) (z : ℤ) → z ≡ pos (suc k) → z -ℤ pos 1 ≡ pos k
  one_less k z e = ground arith

  zero_suc : (k : ℕ) (z : ℤ) → z ≡ pos 0 → z ≡ pos (suc k) → ⊥
  zero_suc k z e e' = ground arith

  countdown-sell :
      (left : ℕ) (n : ℤ) (sold : List ℤ)
      → left < stock
      → n ≡ pos (suc left)
      → sold ≡ countdown stock (stock - suc left)
      → sold ++ (n ∷ []) ≡ countdown stock (stock - left)
  unfolding countdown
  countdown-sell left n sold lt e h =
      let one_more : stock - left ≡ suc (stock - suc left) = omega arith in
      rw one_more (ap₂ (λ xs x. xs ++ (x ∷ [])) h (e ∙ ap pos (omega arith)))

  checks :
      (t : ℕ) (l : Local) (o : Office)
      → fits t l ≡ true
      → At stock t (running l) o
      → Checked t l o (fixed_code t l)
  unfolding code Checked
  checks t (main create_1) o f h = (tt, λ u. tt)
  checks t (main create_2) o f h = (tt, λ u. tt)
  checks t (main join_1) o f h = λ u. tt
  checks t (main join_2) o f h = λ u. tt
  checks t (main finish) o f h = λ gt. absurd (omega (arith, eq_of_== t 0 f))
  checks t (seller enter) o f h = λ v. v refl
  checks t (seller test) o f (zero, h) = rw (none_left o.tickets h.count) h
  checks t (seller test) o f (suc k, h) = rw (some_left k o.tickets h.count) (k, h)
  checks t (seller load) o f h = (h.0, h.1, h.1.count)
  checks t (seller (store n)) o f (k, h, e) = (
    record { left = k; number = e; count = one_less k n e; bounded = h.bounded; sales = h.sales },
    frame stock t (store n) o _ refl (λ z. absurd (zero_suc k o.tickets z h.count)),
    entrusted inside t (seller (store n)) refl,
  )
  checks t (seller (print n)) o f h = (
    (
      h.left,
      record {
        count = h.count;
        bounded = omega (arith, h.bounded);
        sales = countdown-sell h.left n o.sold h.bounded h.number h.sales;
      },
    ),
    frame stock t (print n) o _ refl (λ z. z),
    entrusted inside t (seller (print n)) refl,
  )
  checks t (seller leave) o f h = (λ m. h, tt)
  checks t (seller quit) o f h = (λ m. (0, h), h.count)
  checks t (seller over) o f h = λ gt. h

  outline : Outline fixed_code begin discipline
  unfolding Checked discipline
  outline = record {
    inv = Inv stock;
    at = At stock;
    checks = checks;
    wakes = λ t c m l o h. h;
    returns = λ t m l o h w. absurd h;
  }

  starts : Starts fixed_code begin discipline outline (stocked stock)
  unfolding outline countdown
  starts = record {
    unowned = λ m z. (
      stock,
      record {
        count = refl;
        bounded = omega arith;
        sales = (let z' : stock - stock ≡ 0 = omega arith in rw z' refl);
      },
    );
    main = tt;
    others = λ t ne. tt;
  }

  -- One who holds the mutex is a seller who has not finished.
  holds-seller :
      (t m : ℕ) (s : Status Local) (o : Office)
      → At stock t s o
      → (0 < t → t ≤ 2 → s ≡ done)
      → fitting fits t s ≡ true
      → holds (held inside) t s m ≡ false
  holds-seller t m (running (seller p)) o a d f =
      absurd (running≢done (seller p) (d (ground arith) (ground arith)))
  holds-seller t m (running (main p)) o a d f = ground arith
  holds-seller t m (sleeping q k l) o a d f = absurd a
  holds-seller t m (relocking k l) o a d f = absurd a
  holds-seller t m unborn o a d f = refl
  holds-seller t m done o a d f = refl

  module _ (es : List Event) where
    abbrev after : World Office Local
    after = run fixed_code es (boot (stocked stock) (λ _. 0) begin)

    hold : Holds fixed_code begin discipline outline after
    hold = run-Holds fixed_code begin discipline outline (stocked stock) (λ _. 0) es starts

    -- For every stock and schedule: when both sellers have finished, each ticket has been sold
    -- once, in order, and none is left.
    pub all_sold :
        ((t : ℕ) → 0 < t → t ≤ 2 → after.thread t ≡ done)
        → (after.mem.tickets ≡ pos 0) × (after.mem.sold ≡ countdown stock stock)
    unfolding outline discipline one_lock
    all_sold finished =
        let empty : after.mem.tickets ≡ pos 0 =
          (rw (finished 1 (omega arith) (omega arith)) at (hold.each 1)) (omega arith) in
        let (k, h) =
          hold.unowned 0
            (free_of_unheld (held inside) after 0 hold.sound.own (λ t.
              holds-seller t 0 (after.thread t) after.mem (hold.each t) (finished t)
                (hold.sound.placed t)))
            refl in
        (empty, h.sales ∙ ap (countdown stock) (omega (arith, ap pos_part (sym h.count ∙ empty))))
