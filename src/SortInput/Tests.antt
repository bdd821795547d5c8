-- ===== src/SortInput/Tests.antt =====
-- Four numbers.
use pthread_benchmark.Prelude.{ℕ, ◌≡◌, refl, ◌==◌, if◌then◌else◌}
use pthread_benchmark.Prelude.Int.{ℤ, pos, negsuc}
use pthread_benchmark.SortInput.{shift_in, func}
use pthread_benchmark.SortInput.Sorted.{Ascending, total, func-Ascending_same}

abbrev four_numbers : ℕ → ℤ
four_numbers k =
    if k == 0 then pos 5 else if k == 1 then negsuc 2 else if k == 2 then pos 9 else pos 0

smallest_first : func 4 four_numbers 0 ≡ negsuc 2
unfolding func shift_in
smallest_first = refl

func-Ascending_same_example :
    Ascending 4 (func 4 four_numbers)
    × ((f : ℤ → ℕ) → total f 4 (func 4 four_numbers) ≡ total f 4 four_numbers)
func-Ascending_same_example = func-Ascending_same 4 four_numbers
