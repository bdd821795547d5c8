-- ===== src/HotPlate/Start.antt =====
-- The initial plate.
use pthread_benchmark.Prelude.{
  ◌⊎◌, ℕ, ◌+◌, ◌-◌, ◌%◌, ◌<◌, ◌≡◌, ◌∙◌, true, false, ◌&&◌, ◌==◌, if◌then◌else◌, arith, Bool-cases,
  inl, inr, eq_of_==,
}
use pthread_benchmark.HotPlate.{
  Floats, Cell, Plate, for_from, set_cell, heated, first_heat, init_cells, init_rows, init_columns,
  init_plate,
}
use pthread_benchmark.HotPlate.Loops.{in_range, for_from-once}

module _ (F : Floats) where
  pub set_cell-at :
      (k l i j : ℕ) (g : ℕ → ℕ → Cell F → Cell F) (p : Plate F)
      → set_cell F k l (g k l) p i j ≡ (if l == j && k == i then g i j (p i j) else p i j)
  set_cell-at k l i j g p = elim (Bool-cases (k == i)) [
    | inl a ↦ rw a (elim (Bool-cases (l == j)) [
      | inl b ↦ rw b (ground (arith, eq_of_== k i a, eq_of_== l j b))
      | inr b ↦ rw b (ground (arith, eq_of_== k i a))
    ])
    | inr a ↦ rw a (ground arith)
  ]

  module _ (g : ℕ → ℕ → Cell F → Cell F) (n i j : ℕ) where
    -- The loops over a row, over a column, and over the whole plate.
    row-at :
        (k : ℕ) (p : Plate F)
        → for_from 0 n (λ l. set_cell F k l (g k l)) p i j
          ≡ (if in_range 0 n j && k == i then g i j (p i j) else p i j)
    row-at k p =
        for_from-once (λ q. q i j) j (k == i) (g i j) (λ _. Unit) (λ l. set_cell F k l (g k l))
          (λ _ _ _. tt) (λ l q _. set_cell-at k l i j g q) 0 n p tt

    column-at :
        (l : ℕ) (p : Plate F)
        → for_from 0 n (λ k. set_cell F k l (g k l)) p i j
          ≡ (if in_range 0 n i && l == j then g i j (p i j) else p i j)
    column-at l p =
        for_from-once (λ q. q i j) i (l == j) (g i j) (λ _. Unit) (λ k. set_cell F k l (g k l))
          (λ _ _ _. tt) (λ k q _. ground (arith, set_cell-at k l i j g q)) 0 n p tt

    plate-at :
        (p : Plate F)
        → for_from 0 n (λ k. for_from 0 n (λ l. set_cell F k l (g k l))) p i j
          ≡ (if in_range 0 n i && in_range 0 n j then g i j (p i j) else p i j)
    plate-at p =
        for_from-once (λ q. q i j) i (in_range 0 n j) (g i j) (λ _. Unit)
          (λ k. for_from 0 n (λ l. set_cell F k l (g k l))) (λ _ _ _. tt)
          (λ k q _. ground (arith, row-at k q)) 0 n p tt

  init_rows-at :
      (n i j : ℕ) (p : Plate F)
      → i < n
      → j < n
      → init_rows F n p i j ≡ (if i % 20 == 0 then heated F 100 true (p i j) else p i j)
  unfolding init_rows
  init_rows-at n i j p lt lt' =
      for_from-once (λ q. q i j) i (i % 20 == 0) (heated F 100 true) (λ _. Unit)
        (λ k q. if k % 20 == 0 then for_from 0 n (λ l. set_cell F k l (heated F 100 true)) q else q)
        (λ _ _ _. tt)
        (λ k q _. elim (Bool-cases (k % 20 == 0)) [
          | inl every ↦ rw every (ground (arith, row-at (λ _ _. heated F 100 true) n i j k q))
          | inr other ↦ rw other (ground arith)
        ])
        0 n p tt
      ∙ ground arith

  init_columns-at :
      (n i j : ℕ) (p : Plate F)
      → i < n
      → j < n
      → init_columns F n p i j ≡ (if j % 20 == 0 then heated F 0 true (p i j) else p i j)
  unfolding init_columns
  init_columns-at n i j p lt lt' =
      for_from-once (λ q. q i j) j (j % 20 == 0) (heated F 0 true) (λ _. Unit)
        (λ l q. if l % 20 == 0 then for_from 0 n (λ k. set_cell F k l (heated F 0 true)) q else q)
        (λ _ _ _. tt)
        (λ l q _. elim (Bool-cases (l % 20 == 0)) [
          | inl every ↦ rw every (ground (arith, column-at (λ _ _. heated F 0 true) n i j l q))
          | inr other ↦ rw other (ground arith)
        ])
        0 n p tt
      ∙ ground arith

  -- Every twentieth column is cold, every twentieth row of the rest is hot, then the right and the
  -- lower edge, and the inside is warm and free.
  abbrev pub started : ℕ → ℕ → ℕ → Cell F → Cell F
  started n i j =
      if j % 20 == 0
      then heated F 0 true
      else if i % 20 == 0
      then heated F 100 true
      else if j == n - 1
      then heated F 0 true
      else if i == n - 1
      then heated F 100 true
      else heated F 50 false

  layers :
      (n i j : ℕ) (c : Cell F)
      → i < n
      → j < n
      → (if j % 20 == 0
          then heated F 0 true c
          else if i % 20 == 0
          then heated F 100 true c
          else first_heat F n i j c)
        ≡ started n i j c
  layers n i j c lt lt' = ground arith

  init_plate-layers :
      (n i j : ℕ) (p : Plate F) → i < n → j < n → init_plate F n p i j ≡ started n i j (p i j)
  unfolding init_plate init_cells
  init_plate-layers n i j p lt lt' =
      init_columns-at n i j (init_rows F n (init_cells F n p)) lt lt'
      ∙ ground (
        arith,
        init_rows-at n i j (init_cells F n p) lt lt',
        plate-at (first_heat F n) n i j p,
        layers n i j (p i j) lt lt',
      )

  started_inner :
      (n i j : ℕ) (c c' : Cell F)
      → i < n
      → j < n
      → c'.locked ≡ false
      → c' ≡ started n i j c
      → (0 < i) × (i + 1 < n) × (0 < j) × (j + 1 < n)
  started_inner n i j c c' lt lt' open_ e = (ground arith, ground arith, ground arith, ground arith)

  -- After initPlate, for a plate of any size: a cell is cold and locked in every twentieth column,
  -- else hot and locked in every twentieth row, else cold in the last column, else hot in the last
  -- row, and all others are warm and not locked; and a cell that is not locked has its four
  -- neighbours on the plate.
  pub init_plate-started :
      (n i j : ℕ) (p : Plate F)
      → i < n
      → j < n
      → (init_plate F n p i j ≡ started n i j (p i j))
        × (((init_plate F n p i j).locked ≡ true) ⊎ ((0 < i) × (i + 1 < n) × (0 < j) × (j + 1 < n)))
  init_plate-started n i j p lt lt' =
      let e = init_plate-layers n i j p lt lt' in
      (
        e,
        elim (Bool-cases (init_plate F n p i j).locked) [
          | inl shut ↦ inl shut
          | inr open_ ↦ inr (started_inner n i j (p i j) (init_plate F n p i j) lt lt' open_ e)
        ],
      )
