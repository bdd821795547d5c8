-- ===== src/HotPlate/Sweep.antt =====
-- What the threads do to the plate between two barriers.
use pthread_benchmark.Prelude.{
  ℕ, ◌+◌, ◌-◌, ◌≡◌, refl, ap, ◌∙◌, Bool, true, false, not, ◌&&◌, ◌==◌, if◌then◌else◌, arith,
  Bool-cases, inl, inr,
}
use pthread_benchmark.HotPlate.{
  Floats, Cell, Plate, for_from, set_cell, new_heat, update_cell, update_plate,
}
use pthread_benchmark.HotPlate.Loops.{in_range, for_from-once, for_from-keeps}
use pthread_benchmark.HotPlate.Start.{set_cell-at}

module _ (F : Floats) (p : Plate F) where
  -- A plate in the middle of a sweep: only the new heats differ from `p`.
  abbrev pub Sweeping : Plate F → Type 0
  Sweeping q = (i j : ℕ) → ((q i j).prev ≡ (p i j).prev) × ((q i j).locked ≡ (p i j).locked)

  abbrev pub reheated : ℕ → ℕ → Cell F → Cell F
  reheated i j c = record c { now = new_heat F p i j }

  abbrev pub is_open : ℕ → ℕ → Bool
  is_open i j = not (p i j).locked

  same_heat : (i j : ℕ) (q : Plate F) → Sweeping q → new_heat F q i j ≡ new_heat F p i j
  same_heat i j q r =
      ground (arith, (r (i + 1) j).0, (r i (j + 1)).0, (r (i - 1) j).0, (r i (j - 1)).0, (r i j).0)

  choice-at :
      (b : Bool) (q q' : Plate F) (i j : ℕ)
      → (if b then q else q') i j ≡ (if b then q i j else q' i j)
  choice-at true q q' i j = refl
  choice-at false q q' i j = refl

  update_cell-see :
      (k l i j : ℕ) (q : Plate F)
      → update_cell F k l q i j ≡ (
          if (q k l).locked
          then q i j
          else if l == j && k == i
          then record (q i j) { now = new_heat F q i j }
          else q i j)
  update_cell-see k l i j q =
      choice-at (q k l).locked q (set_cell F k l (λ c. record c { now = new_heat F q k l }) q) i j
      ∙ ap (λ c. if (q k l).locked then q i j else c)
          (set_cell-at F k l i j (λ a b c. record c { now = new_heat F q a b }) q)

  update_cell-at :
      (k l i j : ℕ) (q : Plate F)
      → Sweeping q
      → update_cell F k l q i j
        ≡ (if l == j && (k == i && is_open i j) then reheated i j (q i j) else q i j)
  update_cell-at k l i j q r = elim (Bool-cases (l == j && k == i)) [
    | inl here ↦
        let row : k ≡ i = ground arith in
        let column : l ≡ j = ground arith in
        ground (arith, update_cell-see k l i j q, same_heat i j q r, (r i j).1, row, column)
    | inr away ↦ ground (arith, update_cell-see k l i j q)
  ]

  update_cell-Sweeping : (k l : ℕ) (q : Plate F) → Sweeping q → Sweeping (update_cell F k l q)
  update_cell-Sweeping k l q r i j = ground (arith, update_cell-see k l i j q, r i j)

  module _ (n : ℕ) where
    abbrev sweep_row : ℕ → Plate F → Plate F
    sweep_row k = for_from 0 n (λ l. update_cell F k l)

    module _ (i j : ℕ) where
      row-at :
          (k : ℕ) (q : Plate F)
          → Sweeping q
          → sweep_row k q i j
            ≡ (if in_range 0 n j && (k == i && is_open i j) then reheated i j (q i j) else q i j)
      row-at k q r =
          for_from-once (λ q. q i j) j (k == i && is_open i j) (reheated i j) Sweeping
            (λ l. update_cell F k l) (λ l. update_cell-Sweeping k l)
            (λ l q r. update_cell-at k l i j q r) 0 n q r

      row-Sweeping : (k : ℕ) (q : Plate F) → Sweeping q → Sweeping (sweep_row k q)
      row-Sweeping k q r =
          for_from-keeps (λ q. q i j) j (k == i && is_open i j) (reheated i j) Sweeping
            (λ l. update_cell F k l) (λ l. update_cell-Sweeping k l)
            (λ l q r. update_cell-at k l i j q r) 0 n q r

      pub update_plate-at :
          (begin end_ : ℕ) (q : Plate F)
          → Sweeping q
          → update_plate F n begin end_ q i j ≡ (
              if in_range begin (end_ - begin) i && (in_range 0 n j && is_open i j)
              then reheated i j (q i j)
              else q i j)
      unfolding update_plate
      update_plate-at begin end_ q r =
          for_from-once (λ q. q i j) i (in_range 0 n j && is_open i j) (reheated i j) Sweeping
            sweep_row row-Sweeping (λ k q r. ground (arith, row-at k q r)) begin (end_ - begin) q r

      pub update_plate-Sweeping :
          (begin end_ : ℕ) (q : Plate F) → Sweeping q → Sweeping (update_plate F n begin end_ q)
      unfolding update_plate
      update_plate-Sweeping begin end_ q r =
          for_from-keeps (λ q. q i j) i (in_range 0 n j && is_open i j) (reheated i j) Sweeping
            sweep_row row-Sweeping (λ k q r. ground (arith, row-at k q r)) begin (end_ - begin) q r
