-- ===== src/Loadgen/Queue.antt =====
-- loadgen/src/main.rs: the queue of scheduled times, and the workers that empty it. A call that
-- would wait for the condition variable is one that is made again later.
pub mod Accounts
pub mod Ends
use rust_tcp_server.Base.{
  ℕ, zero, suc, ◌-◌, ◌≡◌, Bool, true, false, List, [], ◌∷◌, ◌++◌, map, Option, none, some,
  if◌then◌else◌,
}

pub record QueueState : Type 0 where
  pub pending : List ℕ
  pub scheduling_done : Bool

abbrev pub new_queue : QueueState
new_queue = record { pending = []; scheduling_done = false }

unfoldable pub push_time : QueueState → ℕ → QueueState
push_time q t = record q { pending = q.pending ++ t ∷ [] }

-- One look of `pop` under the lock.
pub data Popped : Type 0 where
  scheduled_at : ℕ → Popped
  drained waits : Popped

abbrev pub popped_from : List ℕ → QueueState → QueueState × Popped
popped_from (t ∷ ts) q = (record q { pending = ts }, scheduled_at t)
popped_from [] q = (q, if q.scheduling_done then drained else waits)

unfoldable pub pop_time : QueueState → QueueState × Popped
pop_time q = popped_from q.pending q

unfoldable pub close_queue : QueueState → QueueState
close_queue q = record q { scheduling_done = true }

-- Where a worker is: before a `pop`, between one and its reply, counting the rest as errors, or back.
pub data Phase : Type 0 where
  ready draining stopped : Phase
  sending : ℕ → Phase

-- `latencies` stands for the histogram.
pub record Worker : Type 0 where
  pub phase : Phase
  pub ok : ℕ
  pub errors : ℕ
  pub latencies : List ℕ

-- Whether the stream can be cloned.
unfoldable pub new_worker : Bool → Worker
new_worker cloned = record {
  phase = if cloned then ready else draining;
  ok = 0;
  errors = 0;
  latencies = [];
}

abbrev pub take_time : Phase → Worker → Popped → Worker
take_time ready w (scheduled_at t) = record w { phase = sending t }
take_time draining w (scheduled_at t) = record w { errors = suc w.errors }
take_time ready w drained = record w { phase = stopped }
take_time draining w drained = record w { phase = stopped }
take_time _ w _ = w

abbrev pub popping : QueueState → Worker → Phase → QueueState × Worker
popping q w (sending t) = (q, w)
popping q w stopped = (q, w)
popping q w phase = let (r, p) = pop_time q in (r, take_time phase w p)

-- A call of `pop` by a worker that makes one.
unfoldable pub worker_pop : QueueState → Worker → QueueState × Worker
unfolding pop_time
worker_pop q w = popping q w w.phase

abbrev pub replied_in : Phase → Worker → ℕ → Bool → Worker
replied_in (sending t) w now true = record w {
  phase = ready;
  ok = suc w.ok;
  latencies = (now - t) ∷ w.latencies;
}
replied_in (sending t) w now false = record w { phase = draining; errors = suc w.errors }
replied_in _ w now good = w

-- `send_and_read` returns.
unfoldable pub worker_reply : Worker → ℕ → Bool → Worker
worker_reply w now good = replied_in w.phase w now good

-- What the scheduler and the workers do, in any order, with the times that were scheduled.
pub data Run : List ℕ → QueueState → List Worker → Type 0 where
  started : (cloned : List Bool) → Run [] new_queue (map new_worker cloned)
  scheduled :
      (ts : List ℕ) (q : QueueState) (ws : List Worker) (t : ℕ)
      → Run ts q ws
      → q.scheduling_done ≡ false
      → Run (ts ++ t ∷ []) (push_time q t) ws
  closed :
      (ts : List ℕ) (q : QueueState) (ws : List Worker) → Run ts q ws → Run ts (close_queue q) ws
  popped :
      (ts : List ℕ) (q : QueueState) (before : List Worker) (w : Worker) (after : List Worker)
      → Run ts q (before ++ w ∷ after)
      → Run ts (worker_pop q w).0 (before ++ (worker_pop q w).1 ∷ after)
  replied :
      (ts : List ℕ) (q : QueueState) (before : List Worker) (w : Worker) (after : List Worker)
      (now : ℕ) (good : Bool)
      → Run ts q (before ++ w ∷ after)
      → Run ts q (before ++ worker_reply w now good ∷ after)
