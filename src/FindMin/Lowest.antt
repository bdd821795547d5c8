-- ===== src/FindMin/Lowest.antt =====
-- main prints the lowest number of the list.
use native.Mathlib.Nat.{mul-le-mul_right}
use pthread_benchmark.Prelude.{
  ℕ, zero, suc, ◌+◌, ◌-◌, ◌*◌, ◌^◌, ◌<◌, ◌≤◌, ◌≡◌, true, List, ltb, ◌==◌, if◌then◌else◌, arith,
  Bool-cases, inl, inr, eq_of_==, subst,
}
use pthread_benchmark.Prelude.Int.{ℤ, pos, negsuc, ltb_ℤ, ◌≤ℤ◌}
use pthread_benchmark.Pthread.Model.{Act, running, World, Event, run, boot}
use pthread_benchmark.Pthread.Races.{NeverRaces, race_free}
use pthread_benchmark.Pthread.Outline.{Checks, Outline}
use pthread_benchmark.Pthread.Outline.Runs.{Starts, run-Holds}
use pthread_benchmark.FindMin.{
  start, scan, enter, test, store, leave, over, spawn, await, look, print, Local, main, search,
  code, begin, first_guess, to_int,
}
use pthread_benchmark.FindMin.Discipline.{held, fits, absent, searching, discipline}
use pthread_benchmark.FindMin.Assertions.{Low, Part, Real, At, Inv, lower, frame}

-- The numbers of an `int`.
abbrev pub IsInt : ℤ → Type 0
IsInt z = (negsuc (2 ^ 31 - 1) ≤ℤ z) × (z ≤ℤ pos (2 ^ 31 - 1))

to_int-IsInt : (z : ℤ) → IsInt z → to_int z ≡ z
unfolding to_int
to_int-IsInt (pos x) h = ground arith
to_int-IsInt (negsuc x) h = ground arith

module _ (n size : ℕ) (list : ℕ → ℤ) (some_threads : 0 < n) (some_size : 0 < size)
    (small : (k : ℕ) → k < n * size → IsInt (list k)) where
  -- Where a part begins and ends.
  inside_list : (my_id c : ℕ) → my_id ≤ n → c < my_id * size → c < n * size
  inside_list my_id c le lt =
      let h : my_id * size ≤ n * size = mul-le-mul_right size le in omega arith

  part_end : (my_id : ℕ) → 0 < my_id → my_id * size ≡ (my_id - 1) * size + size
  part_end zero gt = absurd (omega arith)
  part_end (suc i) gt = let e : suc i - 1 ≡ i = omega arith in rw e (omega arith)

  part_first : (my_id : ℕ) → 0 < my_id → my_id ≤ n → (my_id - 1) * size < n * size
  part_first my_id gt le =
      inside_list my_id ((my_id - 1) * size) le (omega (arith, part_end my_id gt))

  taken :
      (lo c : ℕ) (v : ℤ)
      → c < n * size
      → Low n size list lo c v
      → Low n size list lo (c + 1) (if ltb_ℤ (list c) v then to_int (list c) else v)
  taken lo c v in_list h = rw (to_int-IsInt (list c) (small c in_list)) record {
    each = λ k a b. elim (Bool-cases (k == c)) [
      | inl last ↦ rw (eq_of_== k c last) (ground arith)
      | inr first ↦ ground (arith, h.each k)
    ];
  }

  taken-Real :
      (c : ℕ) (v : ℤ)
      → c < n * size
      → Real n size list v
      → Real n size list (if ltb_ℤ (list c) v then to_int (list c) else v)
  taken-Real c v lt r = elim (Bool-cases (ltb_ℤ (list c) v)) [
    | inl less ↦ rw less (c, lt, to_int-IsInt (list c) (small c lt))
    | inr more ↦ rw more r
  ]

  joined :
      (i : ℕ) (d : ℤ)
      → Low n size list 0 (i * size) d
      → Part n size list (suc i) d
      → Low n size list 0 (suc i * size) d
  joined i d h p =
      let e : suc i - 1 ≡ i = omega arith in
      let p' : Low n size list (i * size) (suc i * size) d =
        subst (λ j. Low n size list (j * size) (suc i * size) d) e p in
      record {
        each = λ k a b. elim (Bool-cases (ltb k (i * size))) [
          | inl less ↦ h.each k a (ground arith)
          | inr more ↦ p'.each k (ground arith) b
        ];
      }

  unfoldable Checked : ℕ → Local → ℤ → Act ℤ Local → Type 0
  Checked t l d =
      Checks (fits n size list) held (absent n size list) (Inv n size list) (At n size list) t l d

  checks :
      (t : ℕ) (l : Local) (d : ℤ)
      → fits n size list t l ≡ true
      → At n size list t (running l) d
      → Checked t l d (searching n size list t l)
  unfolding code Checked
  checks t (main (spawn i)) d f h = elim (Bool-cases (ltb i n)) [
    | inl more ↦ rw more (h, λ u. tt)
    | inr last ↦ rw last (h, record { each = λ k a b. absurd (omega arith) })
  ]
  checks t (main (await i)) d f h = elim (Bool-cases (ltb i n)) [
    | inl more ↦ rw more (λ q. (h.0, joined i d h.1 (q (omega arith))))
    | inr last ↦
        let e : i ≡ n = ground arith in
        rw last (h.0, subst (λ j. Low n size list 0 (j * size) d) e h.1)
  ]
  checks t (main look) d f h = h
  checks t (main (print v)) d f h = λ gt. absurd (ground arith)
  checks t (search i start) d f h = (
    record { each = λ k a b. absurd (omega arith) },
    (
      (i - 1) * size,
      part_first i (ground arith) (ground arith),
      to_int-IsInt (list ((i - 1) * size))
          (small ((i - 1) * size) (part_first i (ground arith) (ground arith))),
    ),
  )
  checks t (search i (scan c v)) d f h = elim (Bool-cases (ltb c (i * size))) [
    | inl more ↦ rw more (
      taken ((i - 1) * size) c v (inside_list i c (ground arith) (ground arith)) h.0,
      taken-Real c v (inside_list i c (ground arith) (ground arith)) h.1,
    )
    | inr last ↦ rw last (record { each = λ k a b. h.0.each k a (ground arith) }, h.1)
  ]
  checks t (search i (enter v)) d f h = λ u. h
  checks t (search i (test v)) d f h = elim (Bool-cases (ltb_ℤ v d)) [
    | inl less ↦ rw less (h.0, h.1, ground arith)
    | inr more ↦ rw more (lower n size list ((i - 1) * size) (i * size) v d (ground arith) h.0)
  ]
  checks t (search i (store v)) d f (p, r, le) =
      (p, frame n size list t i v d r le, λ m unheld u. tt)
  checks t (search i leave) d f h = (tt, h)
  checks t (search i over) d f h = λ gt. subst (λ j. Part n size list j d) (ground arith) h

  outline : Outline (searching n size list) begin (discipline n size list)
  unfolding Checked discipline
  outline = record {
    inv = Inv n size list;
    at = At n size list;
    checks = checks;
    wakes = λ t c m l d h. h;
    returns = λ t m l d h v. absurd h;
  }

  starts :
      Starts
        (searching n size list)
        begin
        (discipline n size list)
        outline
        (first_guess n size list)
  unfolding outline
  starts =
      let list_start : 0 < n * size = omega (arith, part_first 1 (omega arith) (omega arith)) in
      record {
        unowned = λ m. tt;
        main = (0, list_start, to_int-IsInt (list 0) (small 0 list_start));
        others = λ t ne. tt;
      }

  module _ (es : List Event) where
    abbrev after : World ℤ Local
    after = run (searching n size list) es (boot (first_guess n size list) (λ _. 0) begin)

    -- For at least one thread, parts of at least one entry, every list whose entries an int can
    -- hold, and every schedule: the number that main prints is not above any entry of the list and
    -- is one of them; and no schedule leads to a data race.
    pub prints_lowest :
        (v : ℤ)
        → after.thread 0 ≡ running (main (print v))
        → Low n size list 0 (n * size) v
          × Real n size list v
          × NeverRaces (searching n size list) begin (first_guess n size list) (λ _. 0)
    unfolding outline
    prints_lowest v e =
        let (r, low) =
          (rw e at (
            (run-Holds (searching n size list) begin (discipline n size list) outline
                (first_guess n size list) (λ _. 0) es starts).each
              0)) in
        (
          low,
          r,
          race_free (searching n size list) begin (discipline n size list) (first_guess n size list)
              (λ _. 0),
        )
