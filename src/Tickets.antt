-- ===== src/Tickets.antt =====
-- Fixed/NoBug1/PThread-synchronization.c: two sellers of the same tickets, and the version without
-- the mutex, Faulty/ManyBugs/PThread-synchronization.c.
mod Discipline
mod Assertions
mod Sales
mod Oversold
mod Tests
use pthread_benchmark.Prelude.{ℕ, Bool, true, false, List, [], ◌∷◌, ◌++◌, if◌then◌else◌}
use pthread_benchmark.Prelude.Int.{ℤ, pos, ◌-ℤ◌, ltb_ℤ}
use pthread_benchmark.Pthread.Model.{Act, exit, read, write, create, join, lock_if, unlock_if}

-- `tickets`, and the numbers of the tickets that were sold, as they are printed.
pub record Office : Type 0 where
  pub tickets : ℤ
  pub sold : List ℤ

abbrev pub tickets_var : ℕ
tickets_var = 0

abbrev pub sold_var : ℕ
sold_var = 1

abbrev pub mutex : ℕ
mutex = 0

-- Where a seller stands; a number is the ticket that it has read.
pub data Seller : Type 0 where
  enter test load : Seller
  store print : ℤ → Seller
  leave quit over : Seller

pub data Main : Type 0 where
  create_1 create_2 join_1 join_2 finish : Main

-- mythread1 and mythread2 are the sellers 1 and 2.
pub data Local : Type 0 where
  main : Main → Local
  seller : Seller → Local

pub main_code : Main → Act Office Local
main_code create_1 = create 1 (seller enter) (main create_2)
main_code create_2 = create 2 (seller enter) (main join_1)
main_code join_1 = join 1 (main join_2)
main_code join_2 = join 2 (main finish)
main_code finish = exit

module _ (locked : Bool) where
  pub seller_code : Seller → Act Office Local
  seller_code enter = lock_if locked mutex (seller test)
  seller_code test =
      read tickets_var (λ o. if ltb_ℤ (pos 0) o.tickets then seller load else seller quit)
  seller_code load = read tickets_var (λ o. seller (store o.tickets))
  seller_code (store n) =
      write tickets_var (λ o. record o { tickets = n -ℤ pos 1 }) (seller (print n))
  seller_code (print n) =
      write sold_var (λ o. record o { sold = o.sold ++ (n ∷ []) }) (seller leave)
  seller_code leave = unlock_if locked mutex (seller enter)
  seller_code quit = unlock_if locked mutex (seller over)
  seller_code over = exit

  pub code : ℕ → Local → Act Office Local
  unfolding main_code seller_code
  code t (main p) = main_code p
  code t (seller p) = seller_code p

abbrev pub fixed_code : ℕ → Local → Act Office Local
fixed_code = code true

abbrev pub faulty_code : ℕ → Local → Act Office Local
faulty_code = code false

abbrev pub begin : Local
begin = main create_1

-- The program has 20 tickets.
abbrev pub stocked : ℕ → Office
stocked n = record { tickets = pos n; sold = [] }
