-- ===== src/ModeExtra/Matrix.antt =====
-- What the worker draws.
use pthread_benchmark.Prelude.{
  ℕ, zero, suc, ◌+◌, ◌*◌, ◌<◌, ◌≡◌, refl, ap, ◌∙◌, Bool, true, false, ◌&&◌, ◌||◌, arith, Bool-cases,
  inl, inr, ltb, leb, ◌==◌,
}
use pthread_benchmark.ModeExtra.{Bits, Dots, fill_row, fill_box, draw_row, draw_rows, dot_data}

abbrev pub between : ℕ → ℕ → ℕ → Bool
between a n k = leb a k && ltb k (a + n)

fill_row_lem :
    (y base_x w : ℕ) (d : Dots) (y' x' : ℕ)
    → fill_row y base_x w d y' x' ≡ (d y' x' || (y == y' && between base_x w x'))
unfolding fill_row
fill_row_lem y base_x zero d y' x' = ground arith
fill_row_lem y base_x (suc w) d y' x' = ground (arith, fill_row_lem y base_x w d y' x')

fill_box_lem :
    (base_y base_x h w : ℕ) (d : Dots) (y' x' : ℕ)
    → fill_box base_y base_x h w d y' x' ≡ (d y' x' || (between base_y h y' && between base_x w x'))
unfolding fill_box
fill_box_lem base_y base_x zero w d y' x' = ground arith
fill_box_lem base_y base_x (suc h) w d y' x' = ground (
  arith,
  fill_row_lem (base_y + h) base_x w (fill_box base_y base_x h w d) y' x',
  fill_box_lem base_y base_x h w d y' x',
)

-- Whether one of the first `n` numbers passes the test.
unfoldable pub any_below : (ℕ → Bool) → ℕ → Bool
any_below p zero = false
any_below p (suc n) = any_below p n || p n

-- The dot is in the rectangle of button `3 * i + j`.
abbrev pub covers : ℕ → ℕ → ℕ → ℕ → Bool
covers i j y x = between (i * 3) 4 y && between (j * 2) 3 x

draw_row_lem :
    (answer : Bits) (i n : ℕ) (d : Dots) (y x : ℕ)
    → draw_row answer i n d y x ≡ (d y x || any_below (λ j. answer (3 * i + j) && covers i j y x) n)
unfolding draw_row any_below
draw_row_lem answer i zero d y x = ground arith
draw_row_lem answer i (suc n) d y x = elim (Bool-cases (answer (3 * i + n))) [
  | inl lit ↦ rw lit (
      ground (
        arith,
        fill_box_lem (i * 3) (n * 2) 4 3 (draw_row answer i n d) y x,
        draw_row_lem answer i n d y x,
      ))
  | inr dark ↦ rw dark (ground (arith, draw_row_lem answer i n d y x))
]

draw_rows_lem :
    (answer : Bits) (n y x : ℕ)
    → draw_rows answer n (λ y x. false) y x
      ≡ any_below (λ i. any_below (λ j. answer (3 * i + j) && covers i j y x) 3) n
unfolding draw_rows any_below
draw_rows_lem answer zero y x = refl
draw_rows_lem answer (suc n) y x =
    draw_row_lem answer n 3 (draw_rows answer n (λ y x. false)) y x
    ∙ ap (λ b. b || any_below (λ j. answer (3 * n + j) && covers n j y x) 3)
        (draw_rows_lem answer n y x)

any_below-true :
    {P : Type 0}
    → (p : ℕ → Bool) (n : ℕ) → ((k : ℕ) → k < n → p k ≡ true → P)
    → any_below p n ≡ true
    → P
unfolding any_below
any_below-true p zero f h = absurd (ground arith)
any_below-true p (suc n) f h = elim (Bool-cases (p n)) [
  | inl here ↦ f n (omega arith) here
  | inr away ↦ any_below-true p n (λ k lt. f k (omega arith)) (ground arith)
]

inside :
    (answer : Bits) (y x : ℕ)
    → any_below (λ i. any_below (λ j. answer (3 * i + j) && covers i j y x) 3) 3 ≡ true
    → (ltb y 10 && ltb x 7) ≡ true
inside answer y x =
    any_below-true (λ i. any_below (λ j. answer (3 * i + j) && covers i j y x) 3) 3
      (λ i i_lt.
        any_below-true (λ j. answer (3 * i + j) && covers i j y x) 3 (λ j j_lt c. ground arith))

-- For every choice of lit buttons the loops that fill the dot matrix set the dots in the rectangles
-- of the lit buttons and no other, and no dot outside of ten rows and seven columns.
pub dot_data_lem :
    (answer : Bits) (y x : ℕ)
    → (dot_data answer y x
        ≡ any_below (λ i. any_below (λ j. answer (3 * i + j) && covers i j y x) 3) 3)
      × (dot_data answer y x ≡ (dot_data answer y x && (ltb y 10 && ltb x 7)))
unfolding dot_data
dot_data_lem answer y x =
    let e = draw_rows_lem answer 3 y x in (e, rw e (ground (arith, inside answer y x)))
