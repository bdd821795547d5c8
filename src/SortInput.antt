-- ===== src/SortInput.antt =====
-- Fixed/NoBug2/06mutex.c: the sorting in its thread.
mod Sorted
mod Tests
use pthread_benchmark.Prelude.{ℕ, zero, suc, update, if◌then◌else◌}
use pthread_benchmark.Prelude.Int.{ℤ, ltb_ℤ}

-- The inner loop from `j` on, and the store of `t` behind it.
pub shift_in : ℤ → ℕ → (ℕ → ℤ) → ℕ → ℤ
shift_in t zero source = update source 0 t
shift_in t (suc j) source =
    let rest = shift_in t j (update source (suc j) (source j)) in
    if ltb_ℤ t (source j) then rest else update source (suc j) t

-- The first rounds of the loop over i; the program makes ten.
pub func : ℕ → (ℕ → ℤ) → ℕ → ℤ
func zero source = source
func (suc i) source = let a = func i source in shift_in (a i) i a
