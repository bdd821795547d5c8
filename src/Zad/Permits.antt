-- ===== src/Zad/Permits.antt =====
-- Every permit of the semaphore stands for an entry of the list.
use pthread_benchmark.Prelude.{
  ℕ, ◌+◌, ◌≤◌, ◌<◌, ◌≡◌, ◌≢◌, refl, sym, ap, true, List, length, arith, if◌then◌else◌, sum_below,
  sum_below-entry, subst,
}
use pthread_benchmark.Prelude.Int.{negsuc, is_negative_one}
use pthread_benchmark.Pthread.Model.{World, Event, run, boot, running}
use pthread_benchmark.Pthread.Races.{DataRace, race_free}
use pthread_benchmark.Pthread.Outline.{Holds}
use pthread_benchmark.Pthread.Accounts.{Pays, amount, run-Booked}
use pthread_benchmark.Zad.{
  Shared, rest, enter, walk, unlink, tell, Pusher, draw, wait_for, tell_of, link, post, create_push,
  create_pop_1, create_pop_2, Local, main, pop, push, sem, code, begin, opened,
}
use pthread_benchmark.Zad.Ends.{Proper, pop_f-Proper, length-push_f}
use pthread_benchmark.Zad.Discipline.{fits, discipline}
use pthread_benchmark.Zad.Assertions.{At, outline, starts}

-- The permits that a thread has in hand: it has waited and not popped, or pushed and not posted.
abbrev permits : ℕ → Local → ℕ
permits t (main p) = 0
permits t (pop rest) = 0
permits t (pop enter) = 1
permits t (pop walk) = 1
permits t (pop (unlink xs)) = 1
permits t (pop (tell v)) = if is_negative_one v then 1 else 0
permits t (pop _) = 0
permits t (push (tell_of v)) = 1
permits t (push Pusher.look) = 1
permits t (push (Pusher.show xs)) = 1
permits t (push Pusher.leave) = 1
permits t (push post) = 1
permits t (push _) = 0

abbrev none_paid : ℕ → ℕ
none_paid t = 0

abbrev entries : Shared → ℕ
entries s = length s.lista

pays :
    (t : ℕ) (l : Local) (s : Shared)
    → fits t l ≡ true
    → At t (running l) s
    → 0 + permits t l ≤ entries s
    → Pays permits none_paid entries (λ s. 0) true sem t l s (code t l)
unfolding code
pays t (pop (unlink xs)) s f (p, e) le =
    let (q, _, some_) = pop_f-Proper xs (subst Proper (sym e) p) in
    let (neg, len) = some_ (omega (arith, le, ap length e)) in
    rw neg (omega (arith, len, ap length e))
pays t (pop (tell v)) s f h le = ground (arith, h.1)
pays t (push (link v xs)) s f (p, n, e) le = omega (arith, length-push_f v xs, ap length e)
pays t (push (wait_for v)) s f h le = refl
pays t (push draw) s f h le = λ v. refl
pays t (main create_push) s f h le = ground arith
pays t (main create_pop_1) s f h le = ground arith
pays t (main create_pop_2) s f h le = ground arith
pays t (main _) s f h le = ground arith
pays t (pop _) s f h le = ground arith
pays t (push _) s f h le = ground arith

below : (t : ℕ) (l : Local) → fits t l ≡ true → t < 4
below t (main p) f = ground arith
below t (pop p) f = ground arith
below t (push p) f = ground arith

module _ (es : List Event) where
  abbrev after : World Shared Local
  after = run code es (boot opened (λ _. 0) begin)

  booked :
      Holds code begin discipline outline after
      × (entries after.mem
          ≡ 0 + after.sem sem + sum_below (λ t. amount permits none_paid t (after.thread t)) 4)
  unfolding discipline outline
  booked =
      run-Booked code begin discipline outline permits none_paid entries (λ s. 0) true sem 4 below
        pays opened (λ _. 0) es starts refl refl

  -- For every schedule and whatever rand gives: the semaphore never counts more than the list has
  -- entries, no popping thread ever gets -1 from pop_f, and no run has a data race.
  pub never_short :
      (after.sem sem ≤ length after.mem.lista)
      × ((t : ℕ) → after.thread t ≢ running (pop (tell (negsuc 0))))
      × (¬ DataRace code after)
  unfolding outline discipline
  never_short = (
    omega (arith, booked.1),
    λ t e.
        let at_tell : At t (running (pop (tell (negsuc 0)))) after.mem =
          rw e at (booked.0.each t) in
        let own : 1 ≤ sum_below (λ j. amount permits none_paid j (after.thread j)) 4 = rw e at (
          sum_below-entry (λ j. amount permits none_paid j (after.thread j)) t 4
            (below t (pop (tell (negsuc 0))) (rw e at (booked.0.sound.placed t)))) in
        omega (arith, booked.1, ap length (at_tell.1 refl), own),
    race_free code begin discipline opened (λ _. 0) es,
  )
