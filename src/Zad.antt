-- ===== src/Zad.antt =====
-- Fixed/NoBug1/zad_dom1.c: one thread pushes numbers on a list, two threads take the last one off.
-- A chain of nodes is a list. The return value -1 stands for an empty list, as in the source.
mod Ends
mod Discipline
mod Assertions
mod Permits
mod Tests
use pthread_benchmark.Prelude.{
  ℕ, zero, suc, ◌%◌, Bool, true, false, not, ◌&&◌, List, [], ◌∷◌, ◌++◌, ◌==◌, if◌then◌else◌,
}
use pthread_benchmark.Prelude.Int.{ℤ, pos, negsuc, is_negative_one}
use pthread_benchmark.Pthread.Model.{
  Act, input, lock, unlock, read, write, sem_wait, sem_post, create, join, exit,
}

-- A printed message; `shown` is the list as `display` prints it.
pub data Message : Type 0 where
  removed inserted : ℤ → Message
  tried : Message
  shown : List ℤ → Message

pub record Shared : Type 0 where
  pub lista : List ℤ
  pub out : List Message

-- The loop of `push_f` to the end of the list.
unfoldable pub push_f : ℤ → List ℤ → List ℤ
push_f value [] = value ∷ []
push_f value (x ∷ xs) = x ∷ push_f value xs

-- The loop of `pop_f` from a node on: the value of the last, and the nodes before it.
unfoldable pub pop_from : ℤ → List ℤ → ℤ × List ℤ
pop_from x [] = (x, [])
pop_from x (y ∷ ys) = let (last, front) = pop_from y ys in (last, x ∷ front)

unfoldable pub pop_f : List ℤ → ℤ × List ℤ
pop_f [] = (negsuc 0, [])
pop_f (x ∷ xs) = pop_from x xs

abbrev pub lista_var : ℕ
lista_var = 0

abbrev pub out_var : ℕ
out_var = 1

abbrev pub mutex : ℕ
mutex = 0

abbrev pub sem : ℕ
sem = 0

pub data Popper : Type 0 where
  rest enter walk : Popper
  unlink : List ℤ → Popper
  tell : ℤ → Popper
  look leave : Popper
  show : List ℤ → Popper

pub data Pusher : Type 0 where
  draw : Pusher
  wait_for walk_with tell_of : ℤ → Pusher
  link : ℤ → List ℤ → Pusher
  look leave post : Pusher
  show : List ℤ → Pusher

pub data Main : Type 0 where
  create_push create_pop_1 create_pop_2 join_push join_pop_1 join_pop_2 : Main
  over : Main

pub data Local : Type 0 where
  main : Main → Local
  pop : Popper → Local
  push : Pusher → Local

-- The threads run for ever, and the joins do not return; what comes after them is left out.
pub main_code : Main → Act Shared Local
main_code create_push = create 1 (push draw) (main create_pop_1)
main_code create_pop_1 = create 2 (pop rest) (main create_pop_2)
main_code create_pop_2 = create 3 (pop rest) (main join_push)
main_code join_push = join 1 (main join_pop_1)
main_code join_pop_1 = join 2 (main join_pop_2)
main_code join_pop_2 = join 3 (main over)
main_code over = exit

abbrev pub message : ℤ → Message
message val = if is_negative_one val then tried else removed val

pub pop_code : Popper → Act Shared Local
pop_code rest = sem_wait sem (pop enter)
pop_code enter = lock mutex (pop Popper.walk)
pop_code walk = read lista_var (λ s. pop (unlink s.lista))
pop_code (unlink xs) =
    write lista_var (λ s. record s { lista = (pop_f xs).1 }) (pop (tell (pop_f xs).0))
pop_code (tell val) =
    write out_var (λ s. record s { out = s.out ++ (message val ∷ []) }) (pop Popper.look)
pop_code look = read lista_var (λ s. pop (Popper.show s.lista))
pop_code (show xs) =
    write out_var (λ s. record s { out = s.out ++ (shown xs ∷ []) }) (pop Popper.leave)
pop_code leave = unlock mutex (pop rest)

-- `rand` gives a number that is not negative.
pub push_code : Pusher → Act Shared Local
push_code draw = input (λ r. push (wait_for (pos (r % 100))))
push_code (wait_for v) = lock mutex (push (walk_with v))
push_code (walk_with v) = read lista_var (λ s. push (link v s.lista))
push_code (link v xs) = write lista_var (λ s. record s { lista = push_f v xs }) (push (tell_of v))
push_code (tell_of v) =
    write out_var (λ s. record s { out = s.out ++ (inserted v ∷ []) }) (push Pusher.look)
push_code look = read lista_var (λ s. push (Pusher.show s.lista))
push_code (show xs) =
    write out_var (λ s. record s { out = s.out ++ (shown xs ∷ []) }) (push Pusher.leave)
push_code leave = unlock mutex (push post)
push_code post = sem_post sem (push draw)

pub code : ℕ → Local → Act Shared Local
unfolding main_code pop_code push_code
code t (main p) = main_code p
code t (pop p) = pop_code p
code t (push p) = push_code p

abbrev pub begin : Local
begin = main create_push

abbrev pub opened : Shared
opened = record { lista = []; out = [] }
