-- ===== src/ModeExtra.antt =====
-- Fixed/NoBug1/mode_extra.c: a game of buttons that light up and are to be pressed. Each function
-- that uses the status runs under its mutex from beginning to end, so that the program is a sequence
-- of these. A number of which only bits are used is the table of its bits.
mod Switch
mod Times
mod Play
mod Matrix
mod Tests
use pthread_benchmark.Prelude.{
  ℕ, zero, suc, ◌+◌, ◌-◌, ◌*◌, ◌%◌, Bool, true, false, ◌&&◌, if◌then◌else◌, ltb, update, List, [],
  ◌∷◌, not,
}
use pthread_benchmark.Prelude.Int.{ℤ, pos, ◌+ℤ◌, ◌-ℤ◌, ltb_ℤ}

abbrev pub Bits : Type 0
Bits = ℕ → Bool

-- The fields that the functions change.
pub record Status : Type 0 where
  pub answer : Bits
  pub rest_time : ℕ → ℤ
  pub score : ℤ

-- What the worker keeps between its rounds.
pub record Clock : Type 0 where
  pub prev_nano_time : ℤ
  pub prev_creation_time : ℤ

-- Buttons that are pressed, and a round of the worker with the clock and two values of rand.
pub data Call : Type 0 where
  press : Bits → Call
  round : ℤ → ℕ → ℕ → Call

-- ^ on one bit
abbrev pub xor : Bool → Bool → Bool
xor true b = not b
xor false b = b

abbrev pub bit : Bool → ℤ
bit true = pos 1
bit false = pos 0

-- >> 1
abbrev pub shifted : Bits → Bits
shifted c k = c (suc k)

-- The loop of mode_extra_switch over the bits of `correct` and `incorrect`.
pub add_bits : ℕ → Bits → Bits → ℤ → ℤ
add_bits zero correct incorrect score = score
add_bits (suc n) correct incorrect score =
    add_bits n (shifted correct) (shifted incorrect) (score +ℤ bit (correct 0) -ℤ bit (incorrect 0))

abbrev pub constructed : (ℕ → ℤ) → Status
constructed rest = record { answer = λ k. false; rest_time = rest; score = pos 0 }

-- `buttons` is SWITCH_BUTTON_NUM.
module _ (buttons : ℕ) where
  pub mode_extra_switch : Bits → Status → Status
  mode_extra_switch data_ s =
      let correct = λ (k : ℕ). s.answer k && data_ k in
      let incorrect = λ (k : ℕ). xor (s.answer k) (data_ k) && data_ k in
      let score = add_bits buttons correct incorrect s.score in
      record s {
        answer = λ k. xor (s.answer k) (correct k);
        score = if ltb_ℤ score (pos 0) then pos 0 else score;
      }

  -- The line for field `k + 1`, which is bit `k`: a lit button whose time runs out goes dark.
  pub expire : ℤ → ℕ → Status → Status
  expire time_gap k s =
      let rest = s.rest_time (suc k) -ℤ time_gap in
      if s.answer k
      then if ltb_ℤ rest (pos 0)
        then record s {
          answer = update s.answer k false;
          rest_time = update s.rest_time (suc k) rest;
          score = if ltb_ℤ (pos 0) s.score then s.score -ℤ pos 1 else s.score;
        }
        else record s { rest_time = update s.rest_time (suc k) rest }
      else s

  -- The lines for the first `n` fields; the program has nine.
  pub expire_first : ℕ → ℤ → Status → Status
  expire_first zero time_gap s = s
  expire_first (suc n) time_gap s = expire time_gap n (expire_first n time_gap s)

  -- A new light; `r₁` and `r₂` are the values of rand.
  pub light : ℕ → ℕ → Status → Status
  light r₁ r₂ s =
      let micro_delay = pos ((r₁ % 10 + 1) * 300000000) in
      let no = 1 + r₂ % buttons in
      record s {
        rest_time = update s.rest_time no micro_delay;
        answer = update s.answer (no - 1) true;
      }

  -- The first part of a round of background_worker_main. `is_due` is its test in floating point, on
  -- the time since the last light and the score.
  pub worker_round : (ℤ → ℤ → Bool) → ℤ → ℕ → ℕ → Clock → Status → Clock × Status
  worker_round is_due cur_nano_time r₁ r₂ c s =
      let s' = expire_first 9 (cur_nano_time -ℤ c.prev_nano_time) s in
      if is_due (cur_nano_time -ℤ c.prev_creation_time) s'.score
      then (
        record { prev_nano_time = cur_nano_time; prev_creation_time = cur_nano_time },
        light r₁ r₂ s',
      )
      else (record c { prev_nano_time = cur_nano_time }, s')

  -- The calls of the two threads, each of which holds the mutex from its beginning to its end.
  pub call : (ℤ → ℤ → Bool) → Call → Clock × Status → Clock × Status
  call is_due (press data_) (c, s) = (c, mode_extra_switch data_ s)
  call is_due (round now r₁ r₂) (c, s) = worker_round is_due now r₁ r₂ c s

  pub play : (ℤ → ℤ → Bool) → List Call → Clock × Status → Clock × Status
  play is_due [] x = x
  play is_due (a ∷ as_) x = play is_due as_ (call is_due a x)

-- The cells of dot_matrix_data, by y and x.
abbrev pub Dots : Type 0
Dots = ℕ → ℕ → Bool

-- The loops over x and y that fill a rectangle.
pub fill_row : ℕ → ℕ → ℕ → Dots → Dots
fill_row y base_x zero d = d
fill_row y base_x (suc w) d =
    let d' = fill_row y base_x w d in update d' y (update (d' y) (base_x + w) true)

pub fill_box : ℕ → ℕ → ℕ → ℕ → Dots → Dots
fill_box base_y base_x zero w d = d
fill_box base_y base_x (suc h) w d = fill_row (base_y + h) base_x w (fill_box base_y base_x h w d)

-- The loop over j for row `i`, up to `n`; the bit mask has been shifted `3 * i + j` times.
pub draw_row : Bits → ℕ → ℕ → Dots → Dots
draw_row answer i zero d = d
draw_row answer i (suc j) d =
    let d' = draw_row answer i j d in
    if answer (3 * i + j) then fill_box (i * 3) (j * 2) 4 3 d' else d'

pub draw_rows : Bits → ℕ → Dots → Dots
draw_rows answer zero d = d
draw_rows answer (suc i) d = draw_row answer i 3 (draw_rows answer i d)

pub dot_data : Bits → Dots
dot_data answer = draw_rows answer 3 (λ y x. false)
