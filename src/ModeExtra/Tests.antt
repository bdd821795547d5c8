-- ===== src/ModeExtra/Tests.antt =====
-- A game of nine buttons.
use pthread_benchmark.Prelude.{
  ℕ, ◌+◌, ◌-◌, ◌*◌, ◌≡◌, refl, ◌&&◌, ◌||◌, not, ◌==◌, ltb, [], ◌∷◌, arith,
}
use pthread_benchmark.Prelude.Int.{pos, negsuc, ◌+ℤ◌, ltb_ℤ}
use pthread_benchmark.ModeExtra.{
  Bits, Status, Clock, constructed, mode_extra_switch, expire_first, dot_data, play, press, round,
  add_bits,
}
use pthread_benchmark.ModeExtra.Switch.{hits, misses, switch-score}
use pthread_benchmark.ModeExtra.Times.{Expired, expire_first-Expired}
use pthread_benchmark.ModeExtra.Play.{IsValid, play-IsValid}
use pthread_benchmark.ModeExtra.Matrix.{any_below, covers, dot_data_lem}

-- Buttons 1 and 4 are lit.
abbrev two_lit : Bits
two_lit k = k == 0 || k == 3

abbrev playing : Status
playing = record { answer = two_lit; rest_time = λ k. pos (k * 100); score = pos 2 }

-- Buttons 1, 2 and 3 are pressed.
abbrev three_pressed : Bits
three_pressed k = k == 0 || k == 1 || k == 2

switch-score_example :
    ((mode_extra_switch 9 three_pressed playing).score
      ≡ pos (2 + hits 9 three_pressed playing - misses 9 three_pressed playing))
    × ((k : ℕ)
        → (mode_extra_switch 9 three_pressed playing).answer k
          ≡ (two_lit k && not (three_pressed k)))
    × ((mode_extra_switch 9 three_pressed playing).rest_time ≡ (λ k. pos (k * 100)))
switch-score_example = switch-score 9 three_pressed playing 2 refl

-- One hit and two misses.
one_left : (mode_extra_switch 9 three_pressed playing).score ≡ pos 1
unfolding mode_extra_switch add_bits ◌+ℤ◌
one_left = refl

expire_first-Expired_example : Expired (pos 200) playing 2 9 (expire_first 9 9 (pos 200) playing)
expire_first-Expired_example = expire_first-Expired 9 9 (pos 200) playing 2 refl

abbrev just_started : Clock
just_started = record { prev_nano_time = pos 0; prev_creation_time = pos 0 }

play-IsValid_example :
    IsValid 9
      (play 9
        (λ gap score. ltb_ℤ (pos 50) gap)
        (round (pos 100) 4 12 ∷ press three_pressed ∷ round (pos 120) 0 5 ∷ [])
        (just_started, constructed (λ k. negsuc 7))).1
play-IsValid_example =
    play-IsValid 9 (λ gap score. ltb_ℤ (pos 50) gap)
      (round (pos 100) 4 12 ∷ press three_pressed ∷ round (pos 120) 0 5 ∷ []) just_started
      (λ k. negsuc 7) (omega arith)

dot_data_lem_example :
    (dot_data two_lit 3 2
      ≡ any_below (λ i. any_below (λ j. two_lit (3 * i + j) && covers i j 3 2) 3) 3)
    × (dot_data two_lit 3 2 ≡ (dot_data two_lit 3 2 && (ltb 3 10 && ltb 2 7)))
dot_data_lem_example = dot_data_lem two_lit 3 2
