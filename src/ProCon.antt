-- ===== src/ProCon.antt =====
-- Fixed/NoBug1/06test_pro_con.c, a producer and a consumer of a number; Fixed/NoBug2/06test_pro_con.c
-- is the same program. A line of output is its number and who printed it.
mod Discipline
mod Assertions
mod History
mod Tests
use pthread_benchmark.Prelude.{ℕ, zero, suc, ◌/◌, ◌-◌, List, [], ◌∷◌, ◌++◌, if◌then◌else◌}
use pthread_benchmark.Prelude.Int.{ℤ, pos, ◌+ℤ◌, ◌-ℤ◌, ltb_ℤ, is_zero}
use pthread_benchmark.Pthread.Model.{
  Act, exit, lock, unlock, read, write, cond_wait, signal, create, join,
}

abbrev pub data_max : ℕ
data_max = 5

abbrev pub pro_init_val : ℕ
pro_init_val = data_max / 2

abbrev pub con_init_val : ℕ
con_init_val = data_max - pro_init_val

pub data Line : Type 0 where
  producter consumer : ℤ → Line

pub record Store : Type 0 where
  pub data_ : ℤ
  pub out : List Line

abbrev pub data_var : ℕ
data_var = 0

abbrev pub out_var : ℕ
out_var = 1

-- `data` after the assignment in `main`, which is before the first thread.
abbrev pub opened : Store
opened = record { data_ = pos con_init_val; out = [] }

abbrev pub mutex : ℕ
mutex = 0

abbrev pub cond : ℕ
cond = 0

-- The first number of each is the `i` that is left.
pub data Pro : Type 0 where
  top add show leave notify : ℕ → Pro
  store print : ℕ → ℤ → Pro

pub data Con : Type 0 where
  enter test wait drain take_one tell depart : ℕ → Con
  put say : ℕ → ℤ → Con

pub data Main : Type 0 where
  create_pro create_con : ℕ → Main
  join_pro join_con finish : Main

pub data Local : Type 0 where
  main : Main → Local
  pro : Pro → Local
  con : Con → Local

pub main_code : Main → Act Store Local
main_code (create_pro n) = create 1 (pro (top n)) (main (create_con n))
main_code (create_con n) = create 2 (con (enter n)) (main join_pro)
main_code join_pro = join 1 (main join_con)
main_code join_con = join 2 (main finish)
main_code finish = exit

pub pro_handler : Pro → Act Store Local
pro_handler (top zero) = exit
pro_handler (top (suc i)) = lock mutex (pro (add i))
pro_handler (add i) = read data_var (λ s. pro (store i s.data_))
pro_handler (store i d) = write data_var (λ s. record s { data_ = d +ℤ pos 1 }) (pro (show i))
pro_handler (show i) = read data_var (λ s. pro (print i s.data_))
pro_handler (print i d) =
    write out_var (λ s. record s { out = s.out ++ (producter d ∷ []) }) (pro (leave i))
pro_handler (leave i) = unlock mutex (pro (notify i))
pro_handler (notify i) = signal cond (pro (top i))

pub con_handler : Con → Act Store Local
con_handler (enter zero) = exit
con_handler (enter (suc i)) = lock mutex (con (test i))
con_handler (test i) = read data_var (λ s. if is_zero s.data_ then con (wait i) else con (drain i))
con_handler (wait i) = cond_wait cond mutex (con (test i))
con_handler (drain i) =
    read data_var (λ s. if ltb_ℤ (pos 0) s.data_ then con (take_one i) else con (depart i))
con_handler (take_one i) = read data_var (λ s. con (put i s.data_))
con_handler (put i d) = write data_var (λ s. record s { data_ = d -ℤ pos 1 }) (con (tell i))
con_handler (tell i) = read data_var (λ s. con (say i s.data_))
con_handler (say i d) =
    write out_var (λ s. record s { out = s.out ++ (consumer d ∷ []) }) (con (drain i))
con_handler (depart i) = unlock mutex (con (enter i))

pub code : ℕ → Local → Act Store Local
unfolding main_code pro_handler con_handler
code t (main p) = main_code p
code t (pro p) = pro_handler p
code t (con p) = con_handler p

-- The program has n = 100.
abbrev pub begin : ℕ → Local
begin n = main (create_pro n)
