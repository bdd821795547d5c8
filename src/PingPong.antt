-- ===== src/PingPong.antt =====
-- Fixed/NoBug2/ping_pong.c: two threads that mean to print in turn, and wait for each other with
-- pthread_cond_wait outside of any loop.
mod Discipline
mod Lines
mod Alone
mod Tests
use pthread_benchmark.Prelude.{
  ℕ, zero, suc, ◌+◌, Bool, true, false, List, [], ◌∷◌, ◌++◌, ◌==◌, if◌then◌else◌,
}
use pthread_benchmark.Pthread.Model.{
  Act, exit, lock, unlock, read, write, cond_wait, signal, create, join,
}

pub data Ready : Type 0 where
  ping_init ping_ready pong_ready : Ready

-- A line that is printed, with its number.
pub data Line : Type 0 where
  ping_line pong_line : ℕ → Line

pub record Shared : Type 0 where
  pub g_ready : Ready
  pub out : List Line

abbrev pub ready_var : ℕ
ready_var = 0

abbrev pub out_var : ℕ
out_var = 1

abbrev pub thr_cond_lock : ℕ
thr_cond_lock = 0

abbrev pub thr_cond : ℕ
thr_cond = 0

-- Where `thread_ping` and `thread_pong` stand, with the number of lines that they have printed.
pub data Ping : Type 0 where
  enter announce doze : Ping
  say ring pause : ℕ → Ping
  leave over : Ping

pub data Pong : Type 0 where
  enter look greet doze retry : Pong
  say ring pause : ℕ → Pong
  leave over : Pong

pub data Main : Type 0 where
  create_pong create_ping join_ping join_pong finish : Main

pub data Local : Type 0 where
  main : Main → Local
  ping : Ping → Local
  pong : Pong → Local

abbrev pub is_ready : Ready → Bool
is_ready ping_ready = true
is_ready _ = false

pub main_code : Main → Act Shared Local
main_code create_pong = create 2 (pong Pong.enter) (main create_ping)
main_code create_ping = create 1 (ping Ping.enter) (main join_ping)
main_code join_ping = join 1 (main join_pong)
main_code join_pong = join 2 (main finish)
main_code finish = exit

-- MAX_COUNT is 5 in the program.
module _ (max_count : ℕ) where
  pub ping_code : Ping → Act Shared Local
  ping_code enter = lock thr_cond_lock (ping Ping.announce)
  ping_code announce = write ready_var (λ d. record d { g_ready = ping_ready }) (ping Ping.doze)
  ping_code doze = cond_wait thr_cond thr_cond_lock (ping (Ping.say 0))
  ping_code (say i) =
      write out_var (λ d. record d { out = d.out ++ (ping_line (suc i) ∷ []) })
        (ping (Ping.ring (suc i)))
  ping_code (ring i) =
      signal thr_cond (if i == max_count then ping Ping.leave else ping (Ping.pause i))
  ping_code (pause i) = cond_wait thr_cond thr_cond_lock (ping (Ping.say i))
  ping_code leave = unlock thr_cond_lock (ping Ping.over)
  ping_code over = exit

  pub pong_code : Pong → Act Shared Local
  pong_code enter = lock thr_cond_lock (pong Pong.look)
  pong_code look =
      read ready_var (λ d. if is_ready d.g_ready then pong Pong.greet else pong Pong.retry)
  pong_code greet = signal thr_cond (pong Pong.doze)
  pong_code doze = cond_wait thr_cond thr_cond_lock (pong (Pong.say 0))
  pong_code retry = unlock thr_cond_lock (pong Pong.enter)
  pong_code (say i) =
      write out_var (λ d. record d { out = d.out ++ (pong_line (suc i) ∷ []) })
        (pong (Pong.ring (suc i)))
  pong_code (ring i) =
      signal thr_cond (if i == max_count then pong Pong.leave else pong (Pong.pause i))
  pong_code (pause i) = cond_wait thr_cond thr_cond_lock (pong (Pong.say i))
  pong_code leave = unlock thr_cond_lock (pong Pong.over)
  pong_code over = exit

  pub code : ℕ → Local → Act Shared Local
  unfolding main_code ping_code pong_code
  code t (main p) = main_code p
  code t (ping p) = ping_code p
  code t (pong p) = pong_code p

abbrev pub begin : Local
begin = main create_pong

abbrev pub silent : Shared
silent = record { g_ready = ping_init; out = [] }
