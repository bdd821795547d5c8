-- ===== src/HashInvert/Assertions.antt =====
-- The assertions of countOnes: what nextLoc is at each point of a thread.
use pthread_benchmark.Prelude.{
  ℕ, ◌+◌, ◌<◌, ◌≤◌, ◌≡◌, ◌≢◌, refl, true, arith, Bool-cases, inl, inr, ltb,
}
use pthread_benchmark.Pthread.Model.{Act, Status, unborn, running, sleeping, relocking, done}
use pthread_benchmark.Pthread.Outline.{Apart, Checks, Outline}
use pthread_benchmark.Pthread.Outline.Runs.{Starts}
use pthread_benchmark.HashInvert.{
  Progress, Worker, head, look, found, raise, release, enter, load, store, leave, over, Main, spawn,
  await, weigh, chosen, Local, main, worker, code, begin, reset, ceil_div,
}
use pthread_benchmark.HashInvert.Discipline.{held, fits, absent, counting, discipline}

-- nextLoc never passes the last of `words` words.
abbrev pub Inv : ℕ → ℕ → Progress → Type 0
Inv words m d = m ≡ 0 → d.next_loc ≤ words

abbrev AtWorker : ℕ → Worker → Progress → Type 0
AtWorker words look d = d.next_loc ≤ words
AtWorker words (found n) d = (n ≡ d.next_loc) × (n ≤ words)
AtWorker words (raise n c) d = (n ≡ d.next_loc) × (c ≡ n) × (n < words)
AtWorker words (release n) d = d.next_loc ≤ words
AtWorker words (store z c) d = c ≡ d.total_ones
AtWorker words over d = words ≤ d.next_loc
AtWorker words _ d = Unit

-- After the first join, `main` knows that the words have run out.
abbrev AtMain : ℕ → ℕ → Main → Progress → Type 0
AtMain k words (spawn i) d = Unit
AtMain k words (await i) d = 0 < i → words ≤ d.next_loc
AtMain k words weigh d = 0 < k → words ≤ d.next_loc
AtMain k words (chosen n) d = (0 < k → words ≤ d.next_loc) × (n ≡ d.total_ones)

module _ (k vect_size num_bits : ℕ) (ones : ℕ → ℕ) where
  abbrev pub words : ℕ
  words = ceil_div vect_size num_bits

  abbrev pub At : ℕ → Status Local → Progress → Type 0
  At t (running (main p)) d = AtMain k words p d
  At t (running (worker p)) d = AtWorker words p d
  At t (sleeping q m l) d = ⊥
  At t (relocking m l) d = ⊥
  At t unborn d = Unit
  At t done d = 0 < t → words ≤ d.next_loc

  abbrev Beside : ℕ → Local → ℕ → Status Local → Type 0
  Beside = Apart (fits k) held (absent k)

  -- A thread with the first mutex may raise nextLoc.
  frame_raise :
      (t n c : ℕ) (d : Progress)
      → t ≢ 0
      → c ≡ d.next_loc
      → (j : ℕ) (s : Status Local) → j ≢ t
      → Beside t (worker (raise n c)) j s
      → At j s d
      → At j s (record d { next_loc = c + 1 })
  frame_raise t n c d pos e j (running (main (chosen x))) ne a h =
      (λ gt. omega (arith, h.0 gt), h.1)
  frame_raise t n c d pos e j (running (main (spawn i))) ne a h = tt
  frame_raise t n c d pos e j (running (main _)) ne a h = λ gt. omega (arith, h gt)
  frame_raise t n c d pos e j (running (worker look)) ne a h = ground (arith, a.disjoint 0)
  frame_raise t n c d pos e j (running (worker (found x))) ne a h = ground (arith, a.disjoint 0)
  frame_raise t n c d pos e j (running (worker (raise x y))) ne a h = ground (arith, a.disjoint 0)
  frame_raise t n c d pos e j (running (worker (release x))) ne a h = ground (arith, a.disjoint 0)
  frame_raise t n c d pos e j (running (worker over)) ne a h = omega arith
  frame_raise t n c d pos e j (running (worker (store z x))) ne a h = h
  frame_raise t n c d pos e j (running (worker _)) ne a h = tt
  frame_raise t n c d pos e j (sleeping q m l) ne a h = h
  frame_raise t n c d pos e j (relocking m l) ne a h = h
  frame_raise t n c d pos e j unborn ne a h = tt
  frame_raise t n c d pos e j done ne a h = λ gt. omega (arith, h gt)

  -- A thread with the second mutex may change totalOnes.
  frame_add :
      (t z c : ℕ) (d : Progress)
      → t ≢ 0
      → (j : ℕ) (s : Status Local) → j ≢ t
      → Beside t (worker (store z c)) j s
      → At j s d
      → At j s (record d { total_ones = c + z })
  frame_add t z c d pos j (running (main (chosen x))) ne a h = ground (arith, a.unknown, a.placed)
  frame_add t z c d pos j (running (main (spawn i))) ne a h = tt
  frame_add t z c d pos j (running (main _)) ne a h = h
  frame_add t z c d pos j (running (worker (store x y))) ne a h = ground (arith, a.disjoint 1)
  frame_add t z c d pos j (running (worker look)) ne a h = h
  frame_add t z c d pos j (running (worker (found x))) ne a h = h
  frame_add t z c d pos j (running (worker (raise x y))) ne a h = h
  frame_add t z c d pos j (running (worker (release x))) ne a h = h
  frame_add t z c d pos j (running (worker over)) ne a h = h
  frame_add t z c d pos j (running (worker _)) ne a h = tt
  frame_add t z c d pos j (sleeping q m l) ne a h = h
  frame_add t z c d pos j (relocking m l) ne a h = h
  frame_add t z c d pos j unborn ne a h = tt
  frame_add t z c d pos j done ne a h = h

  unfoldable pub Checked : ℕ → Local → Progress → Act Progress Local → Type 0
  Checked t l d = Checks (fits k) held (absent k) (Inv words) At t l d

  pub checks :
      (t : ℕ) (l : Local) (d : Progress)
      → fits k t l ≡ true
      → At t (running l) d
      → Checked t l d (counting k vect_size num_bits ones t l)
  unfolding code Checked
  checks t (main (spawn i)) d f h = elim (Bool-cases (ltb i k)) [
    | inl more ↦ rw more (tt, λ u. tt)
    | inr last ↦ rw last (λ gt. absurd (omega arith))
  ]
  checks t (main (await i)) d f h = elim (Bool-cases (ltb i k)) [
    | inl more ↦ rw more (λ q gt. q (omega arith))
    | inr last ↦ rw last (λ gt. h (ground arith))
  ]
  checks t (main weigh) d f h = (h, refl)
  checks t (main (chosen n)) d f h = λ gt. absurd (ground arith)
  checks t (worker head) d f h = λ v. v refl
  checks t (worker look) d f h = (refl, h)
  checks t (worker (found n)) d f (e, le) = elim (Bool-cases (ltb n words)) [
    | inl more ↦ rw more (e, omega arith, ground arith)
    | inr last ↦ rw last (λ m. omega arith, ground arith)
  ]
  checks t (worker (raise n c)) d f (e, e', lt) = (
    omega arith,
    frame_raise t n c d (ground arith) (omega arith),
    λ m unheld v z. absurd (ground arith),
  )
  checks t (worker (release n)) d f h = elim (Bool-cases (ltb 0 (ones n))) [
    | inl some_ ↦ rw some_ (λ m. h, tt)
    | inr none_ ↦ rw none_ (λ m. h, tt)
  ]
  checks t (worker (enter z)) d f h = λ v. tt
  checks t (worker (load z)) d f h = refl
  checks t (worker (store z c)) d f h =
      (tt, frame_add t z c d (ground arith), λ m unheld v z'. v z')
  checks t (worker leave) d f h = (λ m. absurd (omega arith), tt)
  checks t (worker over) d f h = λ gt. h

  unfoldable pub outline :
      Outline (counting k vect_size num_bits ones) begin (discipline k vect_size num_bits ones)
  unfolding Checked discipline
  outline = record {
    inv = Inv words;
    at = At;
    checks = checks;
    wakes = λ t c m l d h. h;
    returns = λ t m l d h v. absurd h;
  }

  pub starts :
      Starts
        (counting k vect_size num_bits ones)
        begin
        (discipline k vect_size num_bits ones)
        outline
        reset
  unfolding outline
  starts = record { unowned = λ m e. omega arith; main = tt; others = λ t ne. tt }
