-- ===== src/TaskPool.antt =====
-- Fixed/NoBug1/pth_pool.c, a pool of threads that take tasks from an array. `submitted` and `taken` are a log of the
-- two functions, which no code reads; what executeTask prints is the sum of a task that was taken.
mod Discipline
mod Assertions
mod Steps
mod Order
mod Tests
use pthread_benchmark.Prelude.{
  ℕ, zero, suc, ◌+◌, ◌-◌, ◌%◌, Bool, true, false, ◌&&◌, List, [], ◌∷◌, ◌++◌, ◌==◌, ltb,
  if◌then◌else◌, update,
}
use pthread_benchmark.Prelude.Int.{ℤ, pos, is_negative_one}
use pthread_benchmark.Pthread.Model.{
  Act, exit, tau, input, read, write, cond_wait, signal, create, join, lock, unlock,
}

abbrev pub thread_num : ℕ
thread_num = 4

abbrev pub buffer_size : ℕ
buffer_size = 256

pub record Task : Type 0 where
  pub a : ℤ
  pub b : ℤ

pub record Pool : Type 0 where
  pub task_queue : ℕ → Task
  pub task_count : ℕ
  pub submitted : List Task
  pub taken : List Task

abbrev pub queue_var : ℕ
queue_var = 0

abbrev pub count_var : ℕ
count_var = 1

abbrev pub mutex : ℕ
mutex = 0

abbrev pub cond_full : ℕ
cond_full = 0

abbrev pub cond_empty : ℕ
cond_empty = 1

-- getTask, and the loop of startThread around it. A number after the task is the loop's index.
pub data Worker : Type 0 where
  enter test wait first : Worker
  shift load : Task → ℕ → Worker
  store : Task → ℕ → Task → Worker
  drop : Task → Worker
  lower : Task → ℕ → Worker
  leave tell execute : Task → Worker
  over : Worker

-- main with submitTask; the first number is how many tasks it still submits.
pub data Main : Type 0 where
  spawn : ℕ → ℕ → Main
  draw : ℕ → Main
  draw_b : ℕ → ℤ → Main
  submit test wait put : ℕ → Task → Main
  place : ℕ → Task → ℕ → Main
  count : ℕ → Task → Main
  raise : ℕ → Task → ℕ → Main
  leave tell : ℕ → Task → Main
  await : ℕ → Main
  finish : Main

pub data Local : Type 0 where
  main : Main → Local
  worker : Worker → Local

abbrev pub is_final : Task → Bool
is_final t = is_negative_one t.a && is_negative_one t.b

pub worker_code : Worker → Act Pool Local
worker_code enter = lock mutex (worker Worker.test)
worker_code test =
    read count_var (λ p. if p.task_count == 0 then worker Worker.wait else worker first)
worker_code wait = cond_wait cond_empty mutex (worker Worker.test)
worker_code first = read queue_var (λ p. worker (shift (p.task_queue 0) 0))
worker_code (shift t i) =
    read count_var (λ p. if ltb i (p.task_count - 1) then worker (load t i) else worker (drop t))
worker_code (load t i) = read queue_var (λ p. worker (store t i (p.task_queue (i + 1))))
worker_code (store t i x) =
    write queue_var (λ p. record p { task_queue = update p.task_queue i x })
      (worker (shift t (i + 1)))
worker_code (drop t) = read count_var (λ p. worker (lower t p.task_count))
worker_code (lower t n) =
    write count_var (λ p. record p { task_count = n - 1; taken = p.taken ++ (t ∷ []) })
      (worker (Worker.leave t))
worker_code (leave t) = unlock mutex (worker (Worker.tell t))
worker_code (tell t) = signal cond_full (if is_final t then worker over else worker (execute t))
worker_code (execute t) = tau (worker enter)
worker_code over = exit

-- Threads 1 to 4 are thread[0] to thread[3].
pub main_code : Main → Act Pool Local
main_code (spawn n i) =
    if ltb i thread_num
    then create (suc i) (worker enter) (main (spawn n (suc i)))
    else tau (main (draw n))
main_code (draw zero) = tau (main (await 0))
main_code (draw (suc n)) = input (λ r. main (draw_b n (pos (r % 100))))
main_code (draw_b n a) = input (λ r. main (submit n (record { a = a; b = pos (r % 100) })))
main_code (submit n t) = lock mutex (main (Main.test n t))
main_code (test n t) =
    read count_var
      (λ p. if p.task_count == buffer_size then main (Main.wait n t) else main (put n t))
main_code (wait n t) = cond_wait cond_full mutex (main (Main.test n t))
main_code (put n t) = read count_var (λ p. main (place n t p.task_count))
main_code (place n t c) =
    write queue_var (λ p. record p { task_queue = update p.task_queue c t }) (main (count n t))
main_code (count n t) = read count_var (λ p. main (raise n t p.task_count))
main_code (raise n t c) =
    write count_var (λ p. record p { task_count = c + 1; submitted = p.submitted ++ (t ∷ []) })
      (main (Main.leave n t))
main_code (leave n t) = unlock mutex (main (Main.tell n t))
main_code (tell n t) = signal cond_empty (main (draw n))
main_code (await i) =
    if ltb i thread_num then join (suc i) (main (await (suc i))) else tau (main finish)
main_code finish = exit

pub code : ℕ → Local → Act Pool Local
unfolding worker_code main_code
code t (main p) = main_code p
code t (worker p) = worker_code p

-- The program has n = 500.
abbrev pub begin : ℕ → Local
begin n = main (spawn n 0)

-- Global arrays start with zeros.
abbrev pub no_task : Task
no_task = record { a = pos 0; b = pos 0 }

abbrev pub opened : Pool
opened = record { task_queue = λ _. no_task; task_count = 0; submitted = []; taken = [] }
