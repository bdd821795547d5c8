-- ===== src/PingPong/Discipline.antt =====
-- The locking discipline of ping_pong.c.
use pthread_benchmark.Prelude.{ℕ, ◌≡◌, refl, Bool, true, false, ◌==◌, arith}
use pthread_benchmark.Pthread.Races.{Discipline}
use pthread_benchmark.Pthread.OneLock.{Guards, one_lock}
use pthread_benchmark.PingPong.{
  Ping, Pong, Local, main, ping, pong, code, begin, create_pong, create_ping,
}

abbrev pub inside : Local → Bool
inside (main p) = false
inside (ping Ping.enter) = false
inside (ping Ping.over) = false
inside (ping _) = true
inside (pong Pong.enter) = false
inside (pong Pong.over) = false
inside (pong _) = true

abbrev pub fits : ℕ → Local → Bool
fits t (main p) = t == 0
fits t (ping p) = t == 1
fits t (pong p) = t == 2

module _ (max_count : ℕ) where
  pub guards : (t : ℕ) (l : Local) → fits t l ≡ true → Guards fits inside t l (code max_count t l)
  unfolding code
  guards t (main create_pong) h = ground arith
  guards t (main create_ping) h = ground arith
  guards t (main _) h = ground arith
  guards t (ping Ping.enter) h = ground arith
  guards t (ping Ping.over) h = ground arith
  guards t (ping (Ping.ring i)) h = ground arith
  guards t (ping _) h = ground arith
  guards t (pong Pong.enter) h = ground arith
  guards t (pong Pong.over) h = ground arith
  guards t (pong Pong.look) h = (refl, λ d. ground arith)
  guards t (pong (Pong.ring i)) h = ground arith
  guards t (pong _) h = ground arith

  unfoldable pub discipline : Discipline (code max_count) begin
  unfolding one_lock
  discipline = one_lock fits inside (code max_count) begin guards refl refl
