-- ===== src/HotPlate.antt =====
-- Fixed/NoBug1/hot_plate_barriers.c: the plate, its initial state, one thread's sweep, and the shares
-- of the threads. Floating-point numbers are a parameter. The plates main_plate and main_prev_plate
-- and the array main_locked_cells, which have the same indices, are one table of cells.
mod Loops
mod Start
mod Shares
mod Sweep
mod Workers
mod Tests
use pthread_benchmark.Prelude.{
  ℕ, zero, suc, ◌+◌, ◌-◌, ◌*◌, ◌/◌, ◌%◌, Bool, true, false, ◌&&◌, ◌||◌, ◌==◌, leb, ltb,
  if◌then◌else◌, update, List, [], ◌∷◌,
}

abbrev pub grid_size : ℕ
grid_size = 16384

-- What the program uses of `float`: the whole numbers, the sum, the product and 0.125.
pub record Floats : Type 1 where
  pub Number : Type 0
  pub whole : ℕ → Number
  pub plus : Number → Number → Number
  pub times : Number → Number → Number
  pub eighth : Number

pub record Cell (F : Floats) : Type 0 where
  pub now : F.Number
  pub prev : F.Number
  pub locked : Bool

abbrev pub Plate : Floats → Type 0
Plate F = ℕ → ℕ → Cell F

-- for (i = start; i < start + count; i++)
unfoldable pub for_from {ℓ} : {S : Type ℓ} → ℕ → ℕ → (ℕ → S → S) → S → S
for_from start zero body s = s
for_from start (suc count) body s = for_from (start + 1) count body (body start s)

module _ (F : Floats) where
  abbrev pub set_cell : ℕ → ℕ → (Cell F → Cell F) → Plate F → Plate F
  set_cell i j f p = update p i (update (p i) j (f (p i j)))

  abbrev pub heated : ℕ → Bool → Cell F → Cell F
  heated n locked c = record { now = F.whole n; prev = F.whole n; locked = locked }

  -- The branches of the first loop, for a plate of `n` rows and columns.
  abbrev pub first_heat : ℕ → ℕ → ℕ → Cell F → Cell F
  first_heat n i j =
      if i == 0 || j == 0 || j == n - 1
      then heated 0 true
      else if i == n - 1
      then heated 100 true
      else if i == 400 && leb 0 j && leb j 330
      then heated 100 true
      else if i == 200 && j == 500
      then heated 100 true
      else heated 50 false

  unfoldable pub init_cells : ℕ → Plate F → Plate F
  init_cells n = for_from 0 n (λ i. for_from 0 n (λ j. set_cell i j (first_heat n i j)))

  unfoldable pub init_rows : ℕ → Plate F → Plate F
  init_rows n =
      for_from 0 n
        (λ i p. if i % 20 == 0 then for_from 0 n (λ j. set_cell i j (heated 100 true)) p else p)

  unfoldable pub init_columns : ℕ → Plate F → Plate F
  init_columns n =
      for_from 0 n
        (λ j p. if j % 20 == 0 then for_from 0 n (λ i. set_cell i j (heated 0 true)) p else p)

  unfoldable pub init_plate : ℕ → Plate F → Plate F
  init_plate n p = init_columns n (init_rows n (init_cells n p))

  -- The assignment in `update_plate`.
  abbrev pub new_heat : Plate F → ℕ → ℕ → F.Number
  new_heat p i j =
      F.times
        (F.plus
          (F.plus (F.plus (F.plus (p (i + 1) j).prev (p i (j + 1)).prev) (p (i - 1) j).prev)
            (p i (j - 1)).prev)
          (F.times (F.whole 4) (p i j).prev))
        F.eighth

  abbrev pub update_cell : ℕ → ℕ → Plate F → Plate F
  update_cell i j p =
      if (p i j).locked then p else set_cell i j (λ c. record c { now = new_heat p i j }) p

  -- The two loops of `update_plate`, for the rows from `begin` on and before `end_`.
  unfoldable pub update_plate : ℕ → ℕ → ℕ → Plate F → Plate F
  update_plate n begin end_ =
      for_from begin (end_ - begin) (λ i. for_from 0 n (λ j. update_cell i j))

  -- `copy`, of main_plate into main_prev_plate.
  unfoldable pub copy : ℕ → Plate F → Plate F
  copy n = for_from 0 n (λ i. for_from 0 n (λ j. set_cell i j (λ c. record c { prev = c.now })))

-- The loop of `allocateWorkload`, which takes two entries of `begin_end` in each turn.
unfoldable pub allocate_from : ℕ → ℕ → ℕ → ℕ → (ℕ → ℕ) → ℕ → ℕ
allocate_from zero step i begin begin_end = begin_end
allocate_from (suc turns) step i begin begin_end =
    allocate_from turns step (i + 2) (begin + step)
      (update (update begin_end i begin) (i + 1) (begin + step))

unfoldable pub allocate_workload : ℕ → ℕ → (ℕ → ℕ) → ℕ → ℕ
allocate_workload n nthreads begin_end = allocate_from nthreads (n / nthreads) 0 0 begin_end

-- What one thread does between the barriers, with the arguments that `startUpdate` gives it, and what
-- the threads do one after the other; they read no cell's new heat, and write different rows.
module _ (F : Floats) (n nthreads : ℕ) where
  unfoldable pub worker : ℕ → Plate F → Plate F
  worker i =
      update_plate F n (allocate_workload n nthreads (λ _. 0) (i * 2))
        (allocate_workload n nthreads (λ _. 0) (i * 2 + 1))

  unfoldable pub workers : List ℕ → Plate F → Plate F
  workers [] p = p
  workers (i ∷ is) p = workers is (worker i p)

  -- A turn of the loop in `startUpdate`, up to the test.
  unfoldable pub iteration : List ℕ → Plate F → Plate F
  iteration order p = copy F n (workers order p)
