-- ===== src/Threshold/Assertions.antt =====
-- The assertions of the counting programs: what the count is at each point of a thread.
use pthread_benchmark.Prelude.{
  ℕ, ◌+◌, ◌<◌, ◌≤◌, ◌≡◌, ◌≢◌, inl, inr, refl, true, Option, none, some, ◌==◌, ltb, leb, arith,
  Bool-cases,
}
use pthread_benchmark.Pthread.Model.{Status, unborn, running, sleeping, relocking, done, Act}
use pthread_benchmark.Pthread.Outline.{Apart, Checks, Outline}
use pthread_benchmark.Pthread.Outline.Runs.{Starts}
use pthread_benchmark.Threshold.{
  Setting, Inc, Watch, spawn, await, report, Local, main, inc, watch, beyond, code, begin,
  count_mutex,
}
use pthread_benchmark.Threshold.Discipline.{fits, held, absent, discipline}

abbrev pub Inv : ℕ → ℕ → Type 0
Inv m c = Unit

module _ (s : Setting) where
  abbrev AtInc : ℕ → Inc → ℕ → Type 0
  AtInc i Inc.head c = i ≤ s.rounds
  AtInc i (Inc.store n) c = (i < s.rounds) × (n ≡ c)
  AtInc i _ c = i < s.rounds

  -- The watcher goes on only once the limit is reached.
  abbrev AtWatch : Watch → ℕ → Type 0
  AtWatch Watch.add c = s.limit ≤ c
  AtWatch (Watch.put n) c = (s.limit ≤ c) × (n ≡ c)
  AtWatch Watch.tell c = s.limit ≤ c
  AtWatch Watch.leave c = s.limit ≤ c
  AtWatch _ c = Unit

  abbrev AtRest : Local → Type 0
  AtRest (inc i p) = ⊥
  AtRest (watch p) = p ≡ Watch.woken
  AtRest (main p) = ⊥

  abbrev pub At : ℕ → Status Local → ℕ → Type 0
  At t (running (inc i p)) c = AtInc i p c
  At t (running (watch p)) c = AtWatch p c
  At t (running (main (report n))) c = n ≡ c
  At t (running (main (spawn k))) c = Unit
  At t (running (main (await k))) c = Unit
  At t (sleeping q m l) c = AtRest l
  At t (relocking m l) c = AtRest l
  At t unborn c = Unit
  At t done c = Unit

  abbrev Beside : ℕ → Local → ℕ → Status Local → Type 0
  Beside = Apart (fits s) held (absent s)

  -- A thread that holds the mutex may change the count.
  frame :
      (t : ℕ) (l : Local) (c c' : ℕ)
      → held t l count_mutex ≡ true
      → t ≢ 0
      → (j : ℕ) (q : Status Local) → j ≢ t
      → Beside t l j q
      → At j q c
      → At j q c'
  frame t l c c' own pos j unborn ne a h = tt
  frame t l c c' own pos j done ne a h = tt
  frame t l c c' own pos j (sleeping v m k) ne a h = h
  frame t l c c' own pos j (relocking m k) ne a h = h
  frame t l c c' own pos j (running (main (report n))) ne a h = ground (arith, a.unknown, a.placed)
  frame t l c c' own pos j (running (main (spawn n))) ne a h = tt
  frame t l c c' own pos j (running (main (await n))) ne a h = tt
  frame t l c c' own pos j (running (inc i Inc.head)) ne a h = h
  frame t l c c' own pos j (running (inc i _)) ne a h = ground (arith, a.disjoint count_mutex)
  frame t l c c' own pos j (running (watch Watch.enter)) ne a h = tt
  frame t l c c' own pos j (running (watch Watch.over)) ne a h = tt
  frame t l c c' own pos j (running (watch _)) ne a h = ground (arith, a.disjoint count_mutex)

  beyond-AtWatch : (b : Option ℕ) (c : ℕ) → s.limit ≤ c → AtWatch (beyond b) c
  beyond-AtWatch none c h = h
  beyond-AtWatch (some b) c h = h

  unfoldable pub Checked : ℕ → Local → ℕ → Act ℕ Local → Type 0
  Checked t l c = Checks (fits s) held (absent s) Inv At t l c

  pub checks :
      (t : ℕ) (l : Local) (c : ℕ)
      → fits s t l ≡ true
      → At t (running l) c
      → Checked t l c (code s t l)
  unfolding code Checked
  checks t (main (spawn k)) c f h = elim (Bool-cases (k == 0)) [
    | inl first ↦ rw first (tt, λ u. tt)
    | inr later ↦ rw later (elim (Bool-cases (leb k s.counters)) [
      | inl more ↦ rw more (tt, λ u. ground arith)
      | inr over ↦ rw over tt
    ])
  ]
  checks t (main (await k)) c f h = elim (Bool-cases (leb k (s.counters + 1))) [
    | inl more ↦ rw more (λ u. tt)
    | inr over ↦ rw over refl
  ]
  checks t (main (report n)) c f h = tt
  checks t (inc i Inc.head) c f h = elim (Bool-cases (ltb i s.rounds)) [
    | inl more ↦ rw more (λ u. ground arith)
    | inr over ↦ rw over tt
  ]
  checks t (inc i (Inc.store n)) c f h =
      (h.0, frame t (inc i (Inc.store n)) c (n + 1) refl (ground arith), λ m e u. tt)
  checks t (inc i Inc.ring) c f h = elim (Bool-cases s.everyone) [
    | inl all ↦ rw all h
    | inr one ↦ rw one h
  ]
  checks t (inc i _) c f h = ground arith
  checks t (watch Watch.test) c f h = elim (Bool-cases (ltb c s.limit)) [
    | inl low ↦ rw low tt
    | inr high ↦ rw high (beyond-AtWatch s.bonus c (ground arith))
  ]
  checks t (watch Watch.sigh) c f h = elim (Bool-cases s.sighs) [
    | inl says ↦ rw says tt
    | inr quiet ↦ rw quiet tt
  ]
  checks t (watch (Watch.put n)) c f h =
      (ground arith, frame t (watch (Watch.put n)) c _ refl (ground arith), λ m e u. tt)
  checks t (watch Watch.add) c f h = (h, refl)
  checks t (watch _) c f h = ground arith

  pub wakes : (t v m : ℕ) (l : Local) (c : ℕ) → At t (sleeping v m l) c → At t (relocking m l) c
  wakes t v m l c h = h

  pub returns :
      (t m : ℕ) (l : Local) (c : ℕ) → At t (relocking m l) c → Inv m c → At t (running l) c
  returns t m (main p) c h w = absurd h
  returns t m (inc i p) c h w = absurd h
  returns t m (watch Watch.woken) c h w = tt
  returns t m (watch _) c h w = ground arith

  unfoldable pub outline : Outline (code s) begin (discipline s)
  unfolding Checked discipline
  outline = record { inv = Inv; at = At; checks = checks; wakes = wakes; returns = returns }

  pub starts : Starts (code s) begin (discipline s) outline 0
  unfolding outline
  starts = record { unowned = λ m. tt; main = tt; others = λ t ne. tt }
