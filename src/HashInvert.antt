-- ===== src/HashInvert.antt =====
-- Fixed/NoBug2/hashInvertM.c: the threads that share out the words of a Bloom vector to count its
-- ones, and the bit tables M and checked. The Bloom filter itself is another library's.
mod Bits
mod Discipline
mod Assertions
mod Total
mod Locations
mod Tests
use pthread_benchmark.Prelude.{
  ℕ, suc, ◌+◌, ◌-◌, ◌*◌, ◌/◌, ◌%◌, ◌^◌, Bool, not, ◌==◌, ltb, if◌then◌else◌, update,
}
use Prim.Native.Nat.{bit_and, bit_or}
use pthread_benchmark.Pthread.Model.{Act, exit, tau, lock, unlock, read, write, create, join}

-- `nextLoc` and `totalOnes`, each with a mutex of its own.
pub record Progress : Type 0 where
  pub next_loc : ℕ
  pub total_ones : ℕ

abbrev pub next_loc_var : ℕ
next_loc_var = 0

abbrev pub total_ones_var : ℕ
total_ones_var = 1

abbrev pub m_next_loc : ℕ
m_next_loc = 0

abbrev pub m_total_ones : ℕ
m_total_ones = 1

-- Where `countOnes` stands; the first number is the word that it has read from nextLoc, or the
-- ones that it has counted in it, the second what it has read in order to change it.
pub data Worker : Type 0 where
  head look : Worker
  found : ℕ → Worker
  raise : ℕ → ℕ → Worker
  release enter load : ℕ → Worker
  store : ℕ → ℕ → Worker
  leave over : Worker

-- `main` from `nextLoc = 0` to its test of totalOnes.
pub data Main : Type 0 where
  spawn await : ℕ → Main
  weigh : Main
  chosen : ℕ → Main

pub data Local : Type 0 where
  main : Main → Local
  worker : Worker → Local

unfoldable pub ceil_div : ℕ → ℕ → ℕ
ceil_div a b = (a + b - 1) / b

-- `k` threads, 48 in the program, for a vector of `vect_size` bits in words of `num_bits`; `ones n`
-- is count_ones of word `n`.
module _ (k vect_size num_bits : ℕ) (ones : ℕ → ℕ) where
  pub main_code : Main → Act Progress Local
  main_code (spawn i) =
      if ltb i k then create (suc i) (worker head) (main (spawn (suc i))) else tau (main (await 0))
  main_code (await i) = if ltb i k then join (suc i) (main (await (suc i))) else tau (main weigh)
  main_code weigh = read total_ones_var (λ d. main (chosen d.total_ones))
  main_code (chosen n) = exit

  pub count_ones_code : Worker → Act Progress Local
  count_ones_code head = lock m_next_loc (worker look)
  count_ones_code look = read next_loc_var (λ d. worker (found d.next_loc))
  count_ones_code (found n) =
      if ltb n (ceil_div vect_size num_bits)
      then read next_loc_var (λ d. worker (raise n d.next_loc))
      else unlock m_next_loc (worker over)
  count_ones_code (raise n c) =
      write next_loc_var (λ d. record d { next_loc = c + 1 }) (worker (release n))
  count_ones_code (release n) =
      unlock m_next_loc (if ltb 0 (ones n) then worker (enter (ones n)) else worker head)
  count_ones_code (enter z) = lock m_total_ones (worker (load z))
  count_ones_code (load z) = read total_ones_var (λ d. worker (store z d.total_ones))
  count_ones_code (store z c) =
      write total_ones_var (λ d. record d { total_ones = c + z }) (worker leave)
  count_ones_code leave = unlock m_total_ones (worker head)
  count_ones_code over = exit

  pub code : ℕ → Local → Act Progress Local
  unfolding main_code count_ones_code
  code t (main p) = main_code p
  code t (worker p) = count_ones_code p

abbrev pub begin : Local
begin = main (spawn 0)

abbrev pub reset : Progress
reset = record { next_loc = 0; total_ones = 0 }

-- A table of words, as M and checked are; a word is the number of its bits.
abbrev pub Words : Type 0
Words = ℕ → ℕ

module _ (num_bits : ℕ) where
  pub check_location : ℕ → Words → Bool
  check_location value m =
      let loc = value / num_bits in
      let off = value % num_bits in if bit_and (m loc) (2 ^ off) == 0 then Bool.false else Bool.true

  pub set_location : ℕ → Words → Words
  set_location value m =
      let loc = value / num_bits in
      let off = value % num_bits in update m loc (bit_or (m loc) (2 ^ off))

  -- ~ turns over the bits of a word.
  pub inverted : ℕ → ℕ
  inverted w = 2 ^ num_bits - 1 - w

  pub reset_location : ℕ → Words → Words
  reset_location value m =
      let loc = value / num_bits in
      let off = value % num_bits in update m loc (bit_and (m loc) (inverted (2 ^ off)))

  -- The loops of setM and resetM over the first `size` words.
  pub set_m : ℕ → Words → Words
  set_m ℕ.zero m = m
  set_m (suc i) m = let n = set_m i m in update n i (bit_or (n i) (inverted 0))

  pub reset_m : ℕ → Words → Words
  reset_m ℕ.zero m = m
  reset_m (suc i) m = update (reset_m i m) i 0
