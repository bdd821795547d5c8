-- ===== src/Lib.antt =====
-- A verification library for the programs of Pthread-Benchmark, a collection of C programs that
-- share memory between POSIX threads. Each program stands by itself, so the library has one
-- component for each program that it models, over a common model of POSIX threads.
--
-- Prelude: tests, lists, tables, cyclic arrays, names and signed integers over the native numbers.
-- Pthread: what the programs use of POSIX threads. Pthread/Model has the actions that a thread can
-- take (mutexes, condition variables with spurious wake-ups, semaphores, pthread_create and
-- pthread_join, single reads and writes of shared variables) and runs of a program under a
-- schedule, a list of events. A program is a function from a thread and its local state (program
-- counter and local variables) to its next action. Pthread/Roles, Ownership and Absence are
-- properties that follow from annotations of a program; Pthread/Races uses them to exclude data
-- races, and Pthread/Outline is a proof rule for assertions at each program point. The choices of
-- the environment (the value of rand, the thread that a signal unblocks) are part of the schedule.
-- A signal may be given to a thread that does not wait, and is lost then; this adds runs to those
-- that POSIX allows, so what is shown of every run holds of the real ones.
--
-- BoundedBuffer: Fixed/NoBug1/05bounded.c. `producer_code`, `consumer_code` and `main_code` are
-- the three functions, a shared access at a time; `Buffer` is `buffer_t` with the items that the
-- threads print.
--
-- Threshold: Fixed/NoBug1/6.c, thread_with_conditions.c and 11-14UseConditionVariable.c, which have
-- one shape. `inc_code`, `watch_code` and `main_code` are inc_count, watch_count and main, and a
-- `Setting` for each program holds its constants and what its threads do differently.
--
-- QueueCyclic: Fixed/NoBug1/queue_cyclic.c. The operations have the names of the source's functions.
-- Order has the abstract list that the queue implements, Drain queue_dequeueall, and Tally what the
-- actor does with a batch, with `buf` of 50 entries. Loops have fuel, and more fuel than there are entries is enough. The
-- threads of this program are not modelled.
--
-- SortedList: Faulty/ManyBugs/mutex_linked_list.c. `member`, `insert` and `delete` are Member, Insert
-- and Delete on a heap of nodes, `walk` is the loop that they share, with fuel, and more fuel than
-- there are nodes is enough. malloc's choice of an address is an argument. SortedList/Thread has
-- `thread_operation`, Thread_operation where one thread runs; it does not lock the mutex, and runs of
-- several threads are not modelled.
--
-- Philosophers: Fixed/NoBug2/philosophers.c, one pass of main's loop. `meal_code` is meal with the
-- four fork functions, and the forks are mutexes. Pthread/Stuck says when no thread can go on.
--
-- Turns: Fixed/NoBug2/10practice.c. `handler_code` is handlerA, handlerB and handlerC, which differ
-- in their numbers only.
--
-- Timeouts: thr_sleep of Fixed/NoBug1/helper.c and pthread_usleep of Fixed/NoBug1/concurio.c, the
-- times that they compute; what the clock gives is an argument.
--
-- HashTable: Faulty/OneBug/parallel_mutex.c. `insert` and `retrieve` are on the table; `put_code` is
-- put_phase with insert, `main_code` is main up to the end of its joins. From there no thread changes
-- the table, so that `get_phase` is a function of it, with fuel: one more than there are keys is
-- enough. The number of threads, the number of keys (100000 in the program) and the keys are
-- parameters. main's sum of what the threads report is not modelled.
--
-- Tickets: Fixed/NoBug1/PThread-synchronization.c, and Faulty/ManyBugs/PThread-synchronization.c, the
-- same program without its mutex. `seller_code` is mythread1 and mythread2. Pthread/OneLock has the
-- discipline of programs with one mutex, which needs one check for each program point.
--
-- JobList: Fixed/NoBug2/assignment2question2.c. The functions have their names in the source. Order
-- is about the list, Timeline about what jobDisplay prints, and Summary about addToSummary. The
-- threads of this program are not modelled: they read a list that no longer changes.
--
-- ProCon: Fixed/NoBug1/06test_pro_con.c and its copy under Fixed/NoBug2. The number of rounds, 100 in
-- the program, is a parameter.
--
-- Employees: Fixed/NoBug1/employee_with_mutex.c, and Faulty/ManyBugs/employee_with_mutex.c, the same
-- program without its mutex. copy_employee writes one field after the other. The table of employees
-- is a parameter.
--
-- Zad: Fixed/NoBug1/zad_dom1.c. `push_f` and `pop_f` are the functions on the list, `pop_code` and
-- `push_code` popThread and pushThread, which walk along the list in one step under the mutex.
-- Permits counts the semaphore by Pthread/Accounts.
--
-- HotPlate: Fixed/NoBug1/hot_plate_barriers.c, the grid without its barriers. `init_plate`,
-- `update_plate` and `allocate_workload` are initPlate, the sweep of update_plate and
-- allocateWorkload, for a plate of any size. Floating-point numbers and their operations are a
-- parameter, of which nothing is assumed. steady is not modelled.
--
-- Counters: Faulty/OneBug/withmutex.c, which locks its mutex, and Faulty/OneBug/W9mutex1.c,
-- Faulty/OneBug/pth_mutex2.c and Faulty/OneBug/shared_data_mutex.c, which do not, in one model.
-- `count_code` is increment_counter, functionC, execute and entry_point.
--
-- TaskPool: Fixed/NoBug1/pth_pool.c. `worker_code` is getTask and the loop of startThread around it,
-- `main_code` main with submitTask. The number of tasks, 500 in the program, is a parameter. Steps has
-- what the steps under the mutex do to the array.
--
-- NodeStack: Fixed/NoBug1/02.c, `consume` and `produce` with the names of the source.
--
-- HashInvert: Fixed/NoBug2/hashInvertM.c. `count_ones_code` is countOnes, `main_code` the part of main
-- around it. The operations on the bit tables have the names of the source, and a word is the number
-- of its bits. count_ones of the Bloom filter's library is a parameter.
--
-- ArraySum: Fixed/NoBug2/010_mutex_array_sum.c. `func_code` is func. Parts has what a part of the
-- array gives, Frames and Writes what the writes of one thread do to the assertions of the others.
--
-- PingPong: Fixed/NoBug2/ping_pong.c. `ping_code` and `pong_code` are its threads.
--
-- ModeExtra: Fixed/NoBug1/mode_extra.c. Each function that uses the status holds the mutex from its
-- beginning to its end, so that a play is a sequence of presses (`mode_extra_switch`) and rounds
-- (`worker_round`), whatever the schedule. Switch is about a press, Times about the lights that go
-- dark, Play about all sequences, and Matrix about the dots that the worker draws. The number of
-- buttons is a parameter; rand, the clock and the test in floating point whether a light is due
-- are arguments; the score and the times are integers without bound.
--
-- SortInput: Fixed/NoBug2/06mutex.c, the sorting in `func` on an array that nothing else changes.
-- `main`, which fills the array while func sorts it, is not modelled.
--
-- FindMin: Faulty/OneBug/pthread-findminimumvalue.c. `find_min` is its function, `main_code` is main
-- from the creation of the threads on, and `to_int` the conversion of an entry of the list to an int
-- of 32 bits. The list, which does not change by then, the number of threads and the length of a
-- part are parameters.
--
-- Arrays are functions from indices. Loop counts are those of the source. Output is kept where it
-- carries values of the program, as a list; other text is left out. Calls of sleep and usleep
-- only change when a thread is scheduled, and are left out for that reason. Programs about
-- sockets, devices and system services are not modelled, since nearly all that they do lies in
-- calls of the system.
pub mod Prelude
pub mod Pthread
pub mod BoundedBuffer
pub mod Threshold
pub mod QueueCyclic
pub mod SortedList
pub mod Philosophers
pub mod Turns
pub mod Timeouts
pub mod HashTable
pub mod Tickets
pub mod JobList
pub mod ProCon
pub mod Employees
pub mod Zad
pub mod HotPlate
pub mod Counters
pub mod TaskPool
pub mod NodeStack
pub mod HashInvert
pub mod ArraySum
pub mod PingPong
pub mod ModeExtra
pub mod SortInput
pub mod FindMin
