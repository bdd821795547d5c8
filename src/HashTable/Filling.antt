-- ===== src/HashTable/Filling.antt =====
-- No key is lost.
use pthread_benchmark.Prelude.{
  ℕ, zero, suc, ◌+◌, ◌-◌, ◌*◌, ◌<◌, ◌≡◌, ◌≢◌, refl, true, Option, none, some, List, ◌==◌, ltb,
  arith, Bool-cases, inl, inr, subst,
}
use pthread_benchmark.Pthread.Model.{Act, running, World, Event, run, boot}
use pthread_benchmark.Pthread.Races.{NeverRaces, race_free}
use pthread_benchmark.Pthread.Outline.{Checks, Outline}
use pthread_benchmark.Pthread.Outline.Runs.{Starts, run-Holds}
use pthread_benchmark.HashTable.{
  BucketEntry, Table, empty_table, retrieve, if_missing, head, load, store, leave, spawn, await,
  inserted, Local, main, put, code, begin, get_phase,
}
use pthread_benchmark.HashTable.Kept.{Finished, Joined, At, Inv, put_more, finished, frame}
use pthread_benchmark.HashTable.Discipline.{held, fits, absent, filling, discipline}

if_missing-some : (o : Option BucketEntry) (lost : ℕ) → o ≢ none → if_missing o lost ≡ lost
if_missing-some none lost h = absurd (h refl)
if_missing-some (some b) lost h = refl

module _ (n size : ℕ) (keys : ℕ → ℕ) where
  unfoldable Checked : ℕ → Local → Table → Act Table Local → Type 0
  Checked t l table =
      Checks (fits n size keys) (held n size keys) (absent n size keys) (Inv n size keys)
        (At n size keys) t l table

  checks :
      (t : ℕ) (l : Local) (table : Table)
      → fits n size keys t l ≡ true
      → At n size keys t (running l) table
      → Checked t l table (filling n size keys t l)
  unfolding code Checked
  checks t (main (spawn i)) table f h = elim (Bool-cases (ltb i n)) [
    | inl more ↦ rw more (tt, λ u. (0, omega arith, record { each = λ j lt. absurd (omega arith) }))
    | inr last ↦ rw last (record { each = λ j lt. absurd (omega arith) })
  ]
  checks t (main (await i)) table f h = elim (Bool-cases (ltb i n)) [
    | inl more ↦ rw more (λ q. record {
      each = λ j lt. elim (Bool-cases (j == i)) [
        | inl here ↦ subst (λ k. Finished n size keys k table) (ground arith) (q (omega arith))
        | inr away ↦ h.each j (ground arith)
      ];
    })
    | inr last ↦ rw last (record { each = λ j lt. h.each j (ground arith) })
  ]
  checks t (main inserted) table f h = λ gt. absurd (ground arith)
  checks t (put tid key head) table f (c, e, h) = elim (Bool-cases (ltb key size)) [
    | inl more ↦ rw more (λ v. (c, e, h))
    | inr last ↦ rw last (λ gt.
        subst (λ j. Finished n size keys j table) (ground arith)
          (finished n size keys tid c table (ground arith) h))
  ]
  checks t (put tid key load) table f (c, e, h) = (c, e, h, refl)
  checks t (put tid key (store chain)) table f (c, e, h, fresh) = (
    (c, e, put_more n size keys table key tid chain fresh tid c e h),
    frame n size keys t tid key chain table fresh,
    λ m unheld v. tt,
  )
  checks t (put tid key leave) table f (c, e, h) = (tt, (suc c, omega arith, h))

  outline : Outline (filling n size keys) begin (discipline n size keys)
  unfolding Checked discipline
  outline = record {
    inv = Inv n size keys;
    at = At n size keys;
    checks = checks;
    wakes = λ t c m l d h. h;
    returns = λ t m l d h v. absurd h;
  }

  starts : Starts (filling n size keys) begin (discipline n size keys) outline empty_table
  unfolding outline
  starts = record { unowned = λ m. tt; main = tt; others = λ t ne. tt }

  -- `get_phase` over a table that has all keys of its thread.
  finds_all :
      (tid fuel c lost : ℕ) (table : Table)
      → 0 < n
      → Finished n size keys tid table
      → size - (tid + c * n) < fuel
      → get_phase n size keys fuel (tid + c * n) lost table ≡ some lost
  unfolding get_phase
  finds_all tid zero c lost table pos_ h lt = elim lt [ ]
  finds_all tid (suc fuel) c lost table pos_ h lt = elim (Bool-cases (ltb (tid + c * n) size)) [
    | inl more ↦
        let next : tid + c * n + n ≡ tid + suc c * n = omega arith in
        rw
          (
            more,
            if_missing-some (retrieve (keys (tid + c * n)) table) lost (h.each c (ground arith)),
            next,
          )
          (finds_all tid fuel (suc c) lost table pos_ h (ground arith))
    | inr last ↦ rw last refl
  ]

  module _ (es : List Event) where
    abbrev after : World Table Local
    after = run (filling n size keys) es (boot empty_table (λ _. 0) begin)

    -- For at least one thread, any keys and every schedule: when main has joined the threads that
    -- insert, get_phase of each thread number, with fuel for all keys, ends and counts no lost key;
    -- and no schedule leads to a data race while the keys are inserted.
    pub none_lost :
        0 < n
        → after.thread 0 ≡ running (main inserted)
        → (tid : ℕ) → tid < n
        → (get_phase n size keys (suc size) tid 0 after.mem ≡ some 0)
          × NeverRaces (filling n size keys) begin empty_table (λ _. 0)
    unfolding outline
    none_lost pos_ e tid lt =
        let joined : Joined n size keys n after.mem =
          (rw e at (
            (run-Holds (filling n size keys) begin (discipline n size keys) outline empty_table
                (λ _. 0) es starts).each
              0)) in
        (
          subst (λ key. get_phase n size keys (suc size) key 0 after.mem ≡ some 0)
              (let first : tid + 0 * n ≡ tid = omega arith in first)
              (finds_all tid (suc size) 0 0 after.mem pos_ (joined.each tid lt) (omega arith)),
          race_free (filling n size keys) begin (discipline n size keys) empty_table (λ _. 0),
        )
