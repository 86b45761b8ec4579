-- ===== src/Tests/Workers.antt =====
-- The theorems on processes and threads at concrete inputs.
use rust_tcp_server.App.{new_metrics}
use rust_tcp_server.Base.{
  ℕ, ◌+◌, ◌≤◌, ◌≡◌, refl, max, Bool, true, false, Option, some, List, [], ◌∷◌, if◌then◌else◌, arith,
}
use rust_tcp_server.Server.Workers.Forking.{
  Forking, new_forking, accept_stream, check_cap, reserve, after_fork, sigchld_handler, Forked,
  begun, accepted_one, checked, reserved_one, forked, child_exits, signalled, Counted,
  Forked-Counted,
}
use rust_tcp_server.Server.Workers.Pool.{
  Pool, PoolThread, receiving, spawn_workers, Pooled, accept_to_queue, worker_recv, worker_done,
  new_pool,
}
use rust_tcp_server.Server.Workers.Pool.Balance.{Balanced, Pooled-Balanced}
use rust_tcp_server.Server.Workers.Threads.{
  Threads, Threaded, held_at, Threaded-permits, new_threads, new_semaphore, take_stream,
  take_permit, acquire, spawn, end_thread, release,
}
use rust_tcp_server.Server.Workers.Preforked.{
  serve_preforked, Incoming, stream, nothing, child_main, exits, serves,
}
use rust_tcp_server.Server.Workers.Preforked.Parent.{EndsFor, serve_preforked-EndsFor}
use rust_tcp_server.Server.Workers.Preforked.Child.{
  before_flag, streams, failures, is_set, Counts, child_main-Counts,
}
use rust_tcp_server.Server.Workers.Pool
use rust_tcp_server.Server.Workers.Threads

-- One child, which exits before its parent is back in `accept`.
abbrev forking_run : Forking
forking_run = after_fork true (reserve (check_cap 1 (accept_stream new_forking)))

forking_steps : Forked 1 (sigchld_handler (record forking_run { running = 0; exited = 1 }))
unfolding after_fork reserve check_cap accept_stream
forking_steps =
    signalled (record forking_run { running = 0; exited = 1 })
      (child_exits forking_run 0
        (forked (reserve (check_cap 1 (accept_stream new_forking))) true
          (reserved_one (check_cap 1 (accept_stream new_forking))
            (checked (accept_stream new_forking) (accepted_one new_forking begun refl) refl) refl)
          refl)
        refl)

Forked-Counted_example :
    Counted 1 (sigchld_handler (record forking_run { running = 0; exited = 1 }))
Forked-Counted_example =
    Forked-Counted 1 (sigchld_handler (record forking_run { running = 0; exited = 1 }))
      (omega arith) forking_steps

-- A thread, for a limit of 0.
abbrev one_thread : Threads
one_thread = spawn (take_permit (take_stream (new_threads 0)))

one_thread-Threaded : Threaded 0 one_thread
unfolding spawn take_permit acquire take_stream new_threads new_semaphore
one_thread-Threaded =
    Threads.spawned (take_permit (take_stream (new_threads 0)))
      (Threads.asked (take_stream (new_threads 0))
        (Threads.accepted_one (new_threads 0) Threads.begun refl) refl)
      refl

Threaded-permits_example :
    (one_thread.sem.permits + one_thread.running + held_at one_thread.place ≡ max 0 1)
    × (one_thread.running ≤ max 0 1)
Threaded-permits_example = Threaded-permits 0 one_thread one_thread-Threaded

-- Three streams for one worker and a channel of one place: the first is served.
abbrev pool_first : Pool × PoolThread
pool_first = worker_recv (accept_to_queue 1 new_pool 4) receiving

abbrev pool_run : Pool × PoolThread
pool_run = worker_done (accept_to_queue 1 (accept_to_queue 1 pool_first.0 5) 6) pool_first.1 true

pool_steps : Pooled 1 0 (4 ∷ 5 ∷ 6 ∷ []) pool_run.0 (pool_run.1 ∷ [])
unfolding spawn_workers
pool_steps =
    Pool.done_one (4 ∷ 5 ∷ 6 ∷ []) (accept_to_queue 1 (accept_to_queue 1 pool_first.0 5) 6) []
      pool_first.1 [] true
      (Pool.accepted_one (4 ∷ 5 ∷ []) (accept_to_queue 1 pool_first.0 5) (pool_first.1 ∷ []) 6 (
        Pool.accepted_one (4 ∷ []) pool_first.0 (pool_first.1 ∷ []) 5 (
          Pool.received (4 ∷ []) (accept_to_queue 1 new_pool 4) [] receiving []
            (Pool.accepted_one [] new_pool (receiving ∷ []) 4 Pool.begun))))

Pooled-Balanced_example : Balanced 1 0 (4 ∷ 5 ∷ 6 ∷ []) pool_run.0 (pool_run.1 ∷ [])
Pooled-Balanced_example =
    Pooled-Balanced 1 0 (4 ∷ 5 ∷ 6 ∷ []) pool_run.0 (pool_run.1 ∷ []) pool_steps

-- Two workers, and the third reading of the flag.
abbrev two_forks : ℕ → Option ℕ
two_forks i = some (41 + i)

abbrev flag_readings : List Bool
flag_readings = false ∷ false ∷ true ∷ []

serve_preforked-EndsFor_example :
    EndsFor two_forks (max 2 1) flag_readings (serve_preforked two_forks 2 flag_readings)
serve_preforked-EndsFor_example = serve_preforked-EndsFor two_forks 2 flag_readings

abbrev child_rounds : List (Bool × Incoming)
child_rounds =
    (false, stream true) ∷ (false, nothing) ∷ (false, stream false) ∷ (true, stream true) ∷ []

child_main-Counts_example :
    Counts new_metrics
      (streams (before_flag child_rounds))
      (failures (before_flag child_rounds))
      (child_main true true child_rounds new_metrics).0
    × ((child_main true true child_rounds new_metrics).1
        ≡ (if is_set child_rounds then exits 0 else serves))
unfolding new_metrics
child_main-Counts_example = child_main-Counts child_rounds new_metrics (omega arith) (omega arith)
