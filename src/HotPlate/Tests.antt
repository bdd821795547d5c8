-- ===== src/HotPlate/Tests.antt =====
-- A small plate, with natural numbers in place of floating-point numbers.
use pthread_benchmark.Prelude.{
  ◌⊎◌, ℕ, zero, suc, ◌+◌, ◌*◌, ◌<◌, ◌≡◌, refl, true, false, not, ◌&&◌, ltb, [], ◌∷◌, if◌then◌else◌,
  arith,
}
use pthread_benchmark.HotPlate.{Floats, Plate, init_plate, workers}
use pthread_benchmark.HotPlate.Start.{started, init_plate-started}
use pthread_benchmark.HotPlate.Shares.{share}
use pthread_benchmark.HotPlate.Workers.{takes_part, workers_sweep}

abbrev naturals : Floats
naturals = record {
  Number = ℕ;
  whole = λ n. n;
  plus = λ a b. a + b;
  times = λ a b. a * b;
  eighth = 1;
}

abbrev uneven : Plate naturals
uneven i j = record { now = 0; prev = 10 * i + j; locked = false }

init_plate-started_example :
    (init_plate naturals 30 uneven 7 8 ≡ started naturals 30 7 8 (uneven 7 8))
    × (((init_plate naturals 30 uneven 7 8).locked ≡ true)
        ⊎ ((0 < 7) × (7 + 1 < 30) × (0 < 8) × (8 + 1 < 30)))
init_plate-started_example = init_plate-started naturals 30 7 8 uneven (omega arith) (omega arith)

all_three : (k : ℕ) → k < 3 → takes_part k (2 ∷ 0 ∷ 1 ∷ []) ≡ true
all_three zero lt = refl
all_three (suc zero) lt = refl
all_three (suc (suc zero)) lt = refl
all_three (suc (suc (suc k))) lt = absurd (omega (arith, lt))

workers_sweep_example : workers naturals 30 3 (2 ∷ 0 ∷ 1 ∷ []) uneven 7 8 ≡ (
    if ltb 7 (3 * share 30 3) && (ltb 8 30 && not (uneven 7 8).locked)
    then record (uneven 7 8) { now = (88 + 79 + 68 + 77 + 4 * 78) * 1 }
    else uneven 7 8)
workers_sweep_example =
    workers_sweep naturals uneven 30 3 7 8 (2 ∷ 0 ∷ 1 ∷ [])
      (omega arith, (omega arith, (omega arith, tt))) all_three
