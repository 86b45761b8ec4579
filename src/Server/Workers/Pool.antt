-- ===== src/Server/Workers/Pool.antt =====
-- server/src/models/thread_pool.rs: a fixed number of threads behind a bounded channel. A `recv` that
-- would wait is one that is made again later.
pub mod Balance
use rust_tcp_server.Base.{
  ℕ, zero, suc, ◌+◌, ◌%◌, ◌^◌, ◌≤◌, ◌<◌, ◌≡◌, refl, sym, ap, ◌∙◌, max, Bool, true, false,
  Bool-cases, inl, inr, List, [], ◌∷◌, ◌++◌, ◌==◌, if◌then◌else◌, leb, length, length-append, arith,
}
use rust_tcp_server.App.{Metrics, new_metrics, inc_connections, inc_errors}

abbrev pub queue_capacity : ℕ → ℕ
queue_capacity max_connections = max max_connections 1

-- What the channel holds, and the streams that were dropped at a full channel, served to a normal end
-- and served to an error. A stream is a number.
pub record Pool : Type 0 where
  pub queued : List ℕ
  pub rejected : List ℕ
  pub served : List ℕ
  pub failed : List ℕ
  pub metrics : Metrics

abbrev pub new_pool : Pool
new_pool = record { queued = []; rejected = []; served = []; failed = []; metrics = new_metrics }

-- Where a thread is in `worker_loop`: at its `recv`, or at `serve_connection` with a stream.
pub data PoolThread : Type 0 where
  receiving : PoolThread
  serving : ℕ → PoolThread

-- The loop of `serve` that spawns the workers, with `n` of them to go.
unfoldable pub spawn_workers : ℕ → List PoolThread
spawn_workers zero = []
spawn_workers (suc n) = receiving ∷ spawn_workers n

-- A stream is accepted, and `try_send` puts it in the channel or finds that full.
unfoldable pub accept_to_queue : ℕ → Pool → ℕ → Pool
accept_to_queue max_connections s stream =
    let m = inc_connections s.metrics in
    if leb (queue_capacity max_connections) (length s.queued)
    then record s { rejected = s.rejected ++ stream ∷ []; metrics = inc_errors m }
    else record s { queued = s.queued ++ stream ∷ []; metrics = m }

abbrev pub received_from : List ℕ → Pool → Pool × PoolThread
received_from [] s = (s, receiving)
received_from (stream ∷ rest) s = (record s { queued = rest }, serving stream)

-- A thread that is at its `recv` makes it.
unfoldable pub worker_recv : Pool → PoolThread → Pool × PoolThread
worker_recv s receiving = received_from s.queued s
worker_recv s (serving stream) = (s, serving stream)

-- `serve_connection` returns to a thread that called it.
unfoldable pub worker_done : Pool → PoolThread → Bool → Pool × PoolThread
worker_done s receiving good = (s, receiving)
worker_done s (serving stream) true = (record s { served = s.served ++ stream ∷ [] }, receiving)
worker_done s (serving stream) false =
    (record s { failed = s.failed ++ stream ∷ []; metrics = inc_errors s.metrics }, receiving)

-- The accept loop and the threads, in any order, with the streams that were accepted.
pub data Pooled (max_connections workers : ℕ) : List ℕ → Pool → List PoolThread → Type 0 where
  begun : Pooled max_connections workers [] new_pool (spawn_workers (max workers 1))
  accepted_one :
      (xs : List ℕ) (s : Pool) (ts : List PoolThread) (stream : ℕ)
      → Pooled max_connections workers xs s ts
      → Pooled max_connections workers
          (xs ++ stream ∷ [])
          (accept_to_queue max_connections s stream)
          ts
  received :
      (xs : List ℕ) (s : Pool) (before : List PoolThread) (t : PoolThread) (after : List PoolThread)
      → Pooled max_connections workers xs s (before ++ t ∷ after)
      → Pooled max_connections workers xs
          (worker_recv s t).0
          (before ++ (worker_recv s t).1 ∷ after)
  done_one :
      (xs : List ℕ) (s : Pool) (before : List PoolThread) (t : PoolThread) (after : List PoolThread)
      (good : Bool)
      → Pooled max_connections workers xs s (before ++ t ∷ after)
      → Pooled max_connections workers xs
          (worker_done s t good).0
          (before ++ (worker_done s t good).1 ∷ after)
