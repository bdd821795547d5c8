-- ===== src/Turns/Word.antt =====
-- What 10practice.c prints.
use pthread_benchmark.Prelude.{
  ℕ, ◌<◌, ◌≤◌, ◌≡◌, ◌≢◌, inl, inr, refl, ap, ◌∙◌, sym, true, none, List, ◌==◌, leb, length, arith,
  Bool-cases, Option-cases, eq_of_==, false≢true,
}
use pthread_benchmark.Pthread.Races.{NeverRaces, race_free}
use pthread_benchmark.Pthread.Model.{
  Act, Status, unborn, running, sleeping, relocking, done, World, Event, run, boot,
}
use pthread_benchmark.Pthread.Roles.{fitting}
use pthread_benchmark.Pthread.Ownership.{holds}
use pthread_benchmark.Pthread.Outline.{Checks, Outline, Holds}
use pthread_benchmark.Pthread.Outline.Runs.{Starts, run-Holds}
use pthread_benchmark.Turns.{
  Board, enter, test, pass, print, leave, check, create_a, create_b, create_c, join_a, join_b,
  join_c, finish, Local, main, handler, letter, lock_flag, code, begin, initial,
}
use pthread_benchmark.Pthread.OneLock.{held, absent, one_lock}
use pthread_benchmark.Turns.Discipline.{inside, fits, discipline}
use pthread_benchmark.Turns.Assertions.{
  word, share, Inv, At, placed_own, share-own, share-other, snoc-Fair, length-snoc, frame,
}

unfoldable Checked : ℕ → Local → Board → Act Board Local → Type 0
Checked t l b = Checks fits (held inside) absent Inv At t l b

checks :
    (t : ℕ) (l : Local) (b : Board)
    → fits t l ≡ true
    → At t (running l) b
    → Checked t l b (code t l)
unfolding code Checked
checks t (main create_a) b f h = (tt, λ u. ((sym (u (omega arith) (omega arith)), omega arith)))
checks t (main create_b) b f h = (tt, λ u. ((sym (u (omega arith) (omega arith)), omega arith)))
checks t (main create_c) b f h = (tt, λ u. ((sym (u (omega arith) (omega arith)), omega arith)))
checks t (main join_a) b f h = λ u. tt
checks t (main join_b) b f h = λ u. tt
checks t (main join_c) b f h = λ u. tt
checks t (main finish) b f h = λ pos. absurd (omega (arith, eq_of_== t 0 f))
checks t (handler own i enter) b f h = λ v. (h.0, (h.1, v refl))
checks t (handler own i test) b f h = elim (Bool-cases (b.flag == own)) [
  | inl mine ↦ rw mine (h.0, (h.1.0, h.1.1, eq_of_== b.flag own mine))
  | inr others ↦ rw others (h.0, (omega arith, h.1.1))
]
checks t (handler own i pass) b f h = (
  (h.0, (h.1.0, h.1.1.text, omega (arith, h.1.1.next, h.1.2), refl)),
  frame t own i pass b _ refl (λ j ne pos le. refl),
  λ m free v e. absurd (false≢true (sym free ∙ (ground arith))),
)
checks t (handler own i print) b f h = (
  (
    rw (length-snoc b.printed (letter own))
        (omega (arith, h.0, share-own own (length b.printed) h.1.2)),
    (omega arith, snoc-Fair b own h.1.1 h.1.2 h.1.3),
  ),
  frame t own i print b _ refl (λ j ne pos le. rw (length-snoc b.printed (letter own)) (
      share-other own j (length b.printed) h.1.2 (λ e. ne (e ∙ sym (placed_own t own i print f).0))
        pos le)),
  λ m free v e. absurd (false≢true (sym free ∙ (ground arith))),
)
checks t (handler own i leave) b f h = ((λ m. h.1.1), (h.0, h.1.0))
checks t (handler own i check) b f h = elim (Bool-cases (leb 10 i)) [
  | inl all ↦ rw all (λ pos le.
      ap (λ k. share k (length b.printed)) (placed_own t own i check f).0
      ∙ (sym h.0 ∙ (ground arith)))
  | inr more ↦ rw more (h.0, ground arith)
]

outline : Outline code begin discipline
unfolding Checked discipline
outline = record {
  inv = Inv;
  at = At;
  checks = checks;
  wakes = λ t c m l b h. h;
  returns = λ t m l b h w. absurd h;
}

starts : Starts code begin discipline outline initial
unfolding outline word
starts = record {
  unowned = λ m e. record { text = refl; next = refl };
  main = tt;
  others = λ t ne pos le. omega arith;
}

holder-running :
    (t m : ℕ) (s : Status Local) (b : Board)
    → At t s b
    → fitting fits t s ≡ true
    → holds (held inside) t s m ≡ true
    → (0 < t) × (t ≤ 3) × (s ≢ done)
holder-running t m (running (handler own i p)) b a f h =
    let (e, pos, le) = placed_own t own i p f in (omega arith, omega arith, λ q. cc)
holder-running t m (running (main p)) b a f h = absurd (ground arith)
holder-running t m (sleeping q k l) b a f h = absurd a
holder-running t m (relocking k l) b a f h = absurd a
holder-running t m unborn b a f h = absurd (false≢true h)
holder-running t m done b a f h = absurd (false≢true h)

module _ (w : World Board Local) (hold : Holds code begin discipline outline w)
    (finished : (t : ℕ) → 0 < t → t ≤ 3 → w.thread t ≡ done) where
  lock_free : w.owner lock_flag ≡ none
  unfolding discipline outline one_lock
  lock_free = elim (Option-cases (w.owner lock_flag)) [
    | inl free ↦ free
    | inr (t, e) ↦
        let (pos, le, live) =
          holder-running t lock_flag (w.thread t) w.mem (hold.each t) (hold.sound.placed t)
            (hold.sound.own.owned t lock_flag e) in
        absurd (live (finished t pos le))
  ]

  share_ten : (t : ℕ) → 0 < t → t ≤ 3 → share t (length w.mem.printed) ≡ 10
  unfolding outline
  share_ten t pos le = (rw (finished t pos le) at (hold.each t)) pos le

  all-word : w.mem.printed ≡ word 30
  unfolding outline
  all-word =
      (hold.unowned lock_flag lock_free refl).text
      ∙ ap word (
          omega (
            arith,
            share_ten 1 (omega arith) (omega arith),
            share_ten 3 (omega arith) (omega arith),
          ))

-- When the three handlers have finished, whatever the schedule, the output is ABC ten times; and no
-- schedule leads to a data race.
pub done-word :
    (es : List Event)
    → ((t : ℕ) → 0 < t → t ≤ 3 → (run code es (boot initial (λ _. 0) begin)).thread t ≡ done)
    → ((run code es (boot initial (λ _. 0) begin)).mem.printed ≡ word 30)
      × NeverRaces code begin initial (λ _. 0)
unfolding outline
done-word es finished = (
  all-word (run code es (boot initial (λ _. 0) begin))
      (run-Holds code begin discipline outline initial (λ _. 0) es starts) finished,
  race_free code begin discipline initial (λ _. 0),
)
