-- ===== src/PingPong/Lines.antt =====
-- What ping and pong print, each for itself.
use pthread_benchmark.Prelude.{
  ℕ, suc, ◌≡◌, refl, ap, ◌∙◌, true, List, [], ◌∷◌, ◌++◌, ◌==◌, arith, Bool-cases, inl, inr,
  eq_of_==,
}
use pthread_benchmark.Pthread.Model.{
  Act, Status, unborn, running, sleeping, relocking, done, World, Event, run, boot,
}
use pthread_benchmark.Pthread.Races.{NeverRaces, race_free}
use pthread_benchmark.Pthread.OneLock.{held, absent}
use pthread_benchmark.Pthread.Outline.{Checks, Outline}
use pthread_benchmark.Pthread.Outline.Runs.{Starts, run-Holds}
use pthread_benchmark.PingPong.{
  Shared, Line, ping_line, pong_line, Ping, Pong, create_pong, Local, main, ping, pong, code, begin,
  silent, is_ready,
}
use pthread_benchmark.PingPong.Discipline.{inside, fits, discipline}

pub ping_numbers : List Line → List ℕ
ping_numbers [] = []
ping_numbers (ping_line n ∷ xs) = n ∷ ping_numbers xs
ping_numbers (pong_line n ∷ xs) = ping_numbers xs

pub pong_numbers : List Line → List ℕ
pong_numbers [] = []
pong_numbers (ping_line n ∷ xs) = pong_numbers xs
pong_numbers (pong_line n ∷ xs) = n ∷ pong_numbers xs

-- 1 to `n`
pub count_up : ℕ → List ℕ
count_up ℕ.zero = []
count_up (suc n) = count_up n ++ (suc n ∷ [])

count_up-suc : (n : ℕ) → count_up n ++ (suc n ∷ []) ≡ count_up (suc n)
unfolding count_up
count_up-suc n = refl

ping_numbers-ping :
    (xs : List Line) (n : ℕ) → ping_numbers (xs ++ (ping_line n ∷ [])) ≡ ping_numbers xs ++ (n ∷ [])
unfolding ping_numbers
ping_numbers-ping [] n = refl
ping_numbers-ping (ping_line x ∷ xs) n = ap (λ ys. x ∷ ys) (ping_numbers-ping xs n)
ping_numbers-ping (pong_line x ∷ xs) n = ping_numbers-ping xs n

ping_numbers-pong :
    (xs : List Line) (n : ℕ) → ping_numbers (xs ++ (pong_line n ∷ [])) ≡ ping_numbers xs
unfolding ping_numbers
ping_numbers-pong [] n = refl
ping_numbers-pong (ping_line x ∷ xs) n = ap (λ ys. x ∷ ys) (ping_numbers-pong xs n)
ping_numbers-pong (pong_line x ∷ xs) n = ping_numbers-pong xs n

pong_numbers-pong :
    (xs : List Line) (n : ℕ) → pong_numbers (xs ++ (pong_line n ∷ [])) ≡ pong_numbers xs ++ (n ∷ [])
unfolding pong_numbers
pong_numbers-pong [] n = refl
pong_numbers-pong (pong_line x ∷ xs) n = ap (λ ys. x ∷ ys) (pong_numbers-pong xs n)
pong_numbers-pong (ping_line x ∷ xs) n = pong_numbers-pong xs n

pong_numbers-ping :
    (xs : List Line) (n : ℕ) → pong_numbers (xs ++ (ping_line n ∷ [])) ≡ pong_numbers xs
unfolding pong_numbers
pong_numbers-ping [] n = refl
pong_numbers-ping (pong_line x ∷ xs) n = ap (λ ys. x ∷ ys) (pong_numbers-ping xs n)
pong_numbers-ping (ping_line x ∷ xs) n = pong_numbers-ping xs n

module _ (max_count : ℕ) where
  -- How many lines a thread has printed.
  abbrev count_ping : Ping → ℕ
  count_ping (Ping.say i) = i
  count_ping (Ping.ring i) = i
  count_ping (Ping.pause i) = i
  count_ping Ping.leave = max_count
  count_ping Ping.over = max_count
  count_ping _ = 0

  abbrev count_pong : Pong → ℕ
  count_pong (Pong.say i) = i
  count_pong (Pong.ring i) = i
  count_pong (Pong.pause i) = i
  count_pong Pong.leave = max_count
  count_pong Pong.over = max_count
  count_pong _ = 0

  abbrev count_at : Local → ℕ
  count_at (main p) = 0
  count_at (ping p) = count_ping p
  count_at (pong p) = count_pong p

  abbrev counted : Status Local → ℕ
  counted unborn = 0
  counted (running l) = count_at l
  counted (sleeping c m l) = count_at l
  counted (relocking m l) = count_at l
  counted done = max_count

  -- Thread 1 is ping, thread 2 is pong.
  abbrev At : ℕ → Status Local → Shared → Type 0
  At t s d =
      (t ≡ 1 → ping_numbers d.out ≡ count_up (counted s))
      × (t ≡ 2 → pong_numbers d.out ≡ count_up (counted s))

  abbrev Inv : ℕ → Shared → Type 0
  Inv m d = Unit

  unfoldable Checked : ℕ → Local → Shared → Act Shared Local → Type 0
  Checked t l d = Checks fits (held inside) absent Inv At t l d

  checks :
      (t : ℕ) (l : Local) (d : Shared)
      → fits t l ≡ true
      → At t (running l) d
      → Checked t l d (code max_count t l)
  unfolding code Checked
  checks t (main create_pong) d f h = ground arith
  checks t (main _) d f h = ground arith
  checks t (ping (Ping.say i)) d f h = (
    (
      λ e.
          ping_numbers-ping d.out (suc i)
          ∙ (ap (λ xs. xs ++ (suc i ∷ [])) (h.0 e) ∙ count_up-suc i),
      λ e. absurd (ground arith),
    ),
    λ j s ne a k. (λ e. absurd (ground arith), λ e. pong_numbers-ping d.out (suc i) ∙ k.1 e),
    λ m e v. tt,
  )
  checks t (ping (Ping.ring i)) d f h = elim (Bool-cases (i == max_count)) [
    | inl last ↦ rw (last, ← eq_of_== i max_count last) h
    | inr more ↦ rw more h
  ]
  checks t (ping Ping.announce) d f h = (h, λ j s ne a k. k, λ m e v. tt)
  checks t (ping _) d f h = ground arith
  checks t (pong Pong.look) d f h = elim (Bool-cases (is_ready d.g_ready)) [
    | inl yes_ ↦ rw yes_ h
    | inr no_ ↦ rw no_ h
  ]
  checks t (pong (Pong.say i)) d f h = (
    (
      λ e. absurd (ground arith),
      λ e.
          pong_numbers-pong d.out (suc i)
          ∙ (ap (λ xs. xs ++ (suc i ∷ [])) (h.1 e) ∙ count_up-suc i),
    ),
    λ j s ne a k. (λ e. ping_numbers-pong d.out (suc i) ∙ k.0 e, λ e. absurd (ground arith)),
    λ m e v. tt,
  )
  checks t (pong (Pong.ring i)) d f h = elim (Bool-cases (i == max_count)) [
    | inl last ↦ rw (last, ← eq_of_== i max_count last) h
    | inr more ↦ rw more h
  ]
  checks t (pong _) d f h = ground arith

  outline : Outline (code max_count) begin (discipline max_count)
  unfolding Checked discipline
  outline = record {
    inv = Inv;
    at = At;
    checks = checks;
    wakes = λ t c m l d h. h;
    returns = λ t m l d h v. h;
  }

  starts : Starts (code max_count) begin (discipline max_count) outline silent
  unfolding outline ping_numbers pong_numbers count_up
  starts = record {
    unowned = λ m. tt;
    main = (λ e. refl, λ e. refl);
    others = λ t ne. (λ e. refl, λ e. refl);
  }

  module _ (es : List Event) where
    abbrev after : World Shared Local
    after = run (code max_count) es (boot silent (λ _. 0) begin)

    -- For every number of lines and every schedule: when both threads have finished, each has
    -- printed its lines from 1 to that number in order; and no schedule, spurious wake-ups
    -- included, leads to a data race on g_ready or the output.
    pub own_lines :
        after.thread 1 ≡ done
        → after.thread 2 ≡ done
        → (ping_numbers after.mem.out ≡ count_up max_count)
          × (pong_numbers after.mem.out ≡ count_up max_count)
          × NeverRaces (code max_count) begin silent (λ _. 0)
    unfolding outline
    own_lines e e' =
        let hold =
          run-Holds (code max_count) begin (discipline max_count) outline silent (λ _. 0) es
            starts in
        (
          (rw e at (hold.each 1)).0 refl,
          (rw e' at (hold.each 2)).1 refl,
          race_free (code max_count) begin (discipline max_count) silent (λ _. 0),
        )
