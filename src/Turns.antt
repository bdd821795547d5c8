-- ===== src/Turns.antt =====
-- Fixed/NoBug2/10practice.c: three threads that print A, B and C by turns, ten times each.
mod Discipline
mod Assertions
mod Word
mod Tests
use pthread_benchmark.Prelude.{ℕ, ◌+◌, Bool, List, [], ◌∷◌, ◌++◌, ◌==◌, leb, if◌then◌else◌}
use pthread_benchmark.Pthread.Model.{Act, exit, tau, lock, unlock, read, write, create, join}

-- `flag`, and the letters that were printed.
pub record Board : Type 0 where
  pub flag : ℕ
  pub printed : List ℕ

abbrev pub lock_flag : ℕ
lock_flag = 0

abbrev pub flag_var : ℕ
flag_var = 0

abbrev pub printed_var : ℕ
printed_var = 1

-- Where a handler stands; its counter `i` is beside it.
pub data Handler : Type 0 where
  enter test pass print leave check : Handler

pub data Main : Type 0 where
  create_a create_b create_c join_a join_b join_c finish : Main

-- handlerA, handlerB and handlerC are the handlers 1, 2 and 3.
pub data Local : Type 0 where
  main : Main → Local
  handler : ℕ → ℕ → Handler → Local

-- The flag that each leaves to the next, and its letter.
abbrev pub next_flag : ℕ → ℕ
next_flag own = if own == 3 then 1 else own + 1

abbrev pub letter : ℕ → ℕ
letter own = 64 + own

pub main_code : Main → Act Board Local
main_code create_a = create 1 (handler 1 0 enter) (main create_b)
main_code create_b = create 2 (handler 2 0 enter) (main create_c)
main_code create_c = create 3 (handler 3 0 enter) (main join_a)
main_code join_a = join 1 (main join_b)
main_code join_b = join 2 (main join_c)
main_code join_c = join 3 (main finish)
main_code finish = exit

pub handler_code : ℕ → ℕ → Handler → Act Board Local
handler_code own i enter = lock lock_flag (handler own i test)
handler_code own i test =
    read flag_var (λ b. if b.flag == own then handler own i pass else handler own i leave)
handler_code own i pass =
    write flag_var (λ b. record b { flag = next_flag own }) (handler own i print)
handler_code own i print =
    write printed_var (λ b. record b { printed = b.printed ++ (letter own ∷ []) })
      (handler own (i + 1) leave)
handler_code own i leave = unlock lock_flag (handler own i check)
handler_code own i check = if leb 10 i then exit else tau (handler own i enter)

pub code : ℕ → Local → Act Board Local
unfolding main_code handler_code
code t (main p) = main_code p
code t (handler own i p) = handler_code own i p

abbrev pub begin : Local
begin = main create_a

abbrev pub initial : Board
initial = record { flag = 1; printed = [] }
