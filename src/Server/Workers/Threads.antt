-- ===== src/Server/Workers/Threads.antt =====
-- server/src/models/thread_per_conn.rs: a thread for each connection, and a semaphore that bounds
-- them. A call that would wait for the condition variable is one that is made again later.
use rust_tcp_server.Base.{
  ℕ, zero, suc, ◌+◌, ◌≤◌, ◌≡◌, refl, ap, max, Bool, if◌then◌else◌, Option, none, some, arith,
}
use rust_tcp_server.App.{Metrics, new_metrics, inc_connections, inc_errors}

pub record Semaphore : Type 0 where
  pub permits : ℕ

unfoldable pub new_semaphore : ℕ → Semaphore
new_semaphore permits = record { permits = permits }

-- `none` is to wait.
abbrev pub acquired : ℕ → Option Semaphore
acquired zero = none
acquired (suc n) = some (record { permits = n })

unfoldable pub acquire : Semaphore → Option Semaphore
acquire sem = acquired sem.permits

unfoldable pub release : Semaphore → Semaphore
release sem = record { permits = sem.permits + 1 }

-- The loop of `serve`: in `accept`, with a stream that waits for a permit, or with one that has it;
-- and the threads that run.
pub data ServeAt : Type 0 where
  at_accept at_acquire at_spawn : ServeAt

pub record Threads : Type 0 where
  pub place : ServeAt
  pub sem : Semaphore
  pub running : ℕ
  pub metrics : Metrics

unfoldable pub new_threads : ℕ → Threads
unfolding new_semaphore
new_threads max_connections = record {
  place = at_accept;
  sem = new_semaphore (max max_connections 1);
  running = 0;
  metrics = new_metrics;
}

-- The steps of the loop, and the end of a thread.
unfoldable pub take_stream : Threads → Threads
take_stream s = record s { place = at_acquire; metrics = inc_connections s.metrics }

abbrev pub with_permit : Threads → Option Semaphore → Threads
with_permit s none = s
with_permit s (some sem) = record s { place = at_spawn; sem = sem }

unfoldable pub take_permit : Threads → Threads
unfolding acquire
take_permit s = with_permit s (acquire s.sem)

unfoldable pub spawn : Threads → Threads
spawn s = record s { place = at_accept; running = suc s.running }

-- A thread ends, whether its connection was served.
abbrev ended : Threads → Bool → Metrics
ended s served = if served then s.metrics else inc_errors s.metrics

abbrev pub thread_left : ℕ → Threads → Bool → Threads
thread_left zero s served = s
thread_left (suc n) s served = record s {
  sem = release s.sem;
  running = n;
  metrics = ended s served;
}

unfoldable pub end_thread : Threads → Bool → Threads
unfolding release
end_thread s served = thread_left s.running s served

pub data Threaded (max_connections : ℕ) : Threads → Type 0 where
  begun : Threaded max_connections (new_threads max_connections)
  accepted_one :
      (s : Threads)
      → Threaded max_connections s
      → s.place ≡ at_accept
      → Threaded max_connections (take_stream s)
  asked :
      (s : Threads)
      → Threaded max_connections s
      → s.place ≡ at_acquire
      → Threaded max_connections (take_permit s)
  spawned :
      (s : Threads)
      → Threaded max_connections s
      → s.place ≡ at_spawn
      → Threaded max_connections (spawn s)
  thread_ends :
      (s : Threads) (served : Bool)
      → Threaded max_connections s
      → Threaded max_connections (end_thread s served)

abbrev pub held_at : ServeAt → ℕ
held_at at_accept = 0
held_at at_acquire = 0
held_at at_spawn = 1

take_permit_lem :
    (s : Threads)
    → s.place ≡ at_acquire
    → (take_permit s).sem.permits + (take_permit s).running + held_at (take_permit s).place
      ≡ s.sem.permits + s.running + held_at s.place
unfolding take_permit acquire
take_permit_lem s e = go s.sem.permits refl
  where
    go :
        (n : ℕ)
        → s.sem.permits ≡ n
        → (let t = with_permit s (acquired n) in t.sem.permits + t.running + held_at t.place)
          ≡ s.sem.permits + s.running + held_at s.place
    go zero d = refl
    go (suc n) d = (let at = ap held_at e in omega (arith, d, at))

end_thread_lem :
    (s : Threads) (served : Bool)
    → (end_thread s served).sem.permits
        + (end_thread s served).running
        + held_at (end_thread s served).place
      ≡ s.sem.permits + s.running + held_at s.place
unfolding end_thread release
end_thread_lem s served = go s.running refl
  where
    go :
        (n : ℕ)
        → s.running ≡ n
        → (let t = thread_left n s served in t.sem.permits + t.running + held_at t.place)
          ≡ s.sem.permits + s.running + held_at s.place
    go zero d = refl
    go (suc n) d = omega (arith, d)

Threaded-total :
    (m : ℕ) (s : Threads) → Threaded m s → s.sem.permits + s.running + held_at s.place ≡ max m 1
unfolding new_threads new_semaphore take_stream spawn
Threaded-total m _ begun = omega arith
Threaded-total m _ (accepted_one s r e) =
    let at = ap held_at e in omega (arith, Threaded-total m s r, at)
Threaded-total m _ (asked s r e) = omega (arith, take_permit_lem s e, Threaded-total m s r)
Threaded-total m _ (spawned s r e) =
    let at = ap held_at e in omega (arith, Threaded-total m s r, at)
Threaded-total m _ (thread_ends s served r) =
    omega (arith, end_thread_lem s served, Threaded-total m s r)

-- Every permit is in the semaphore, with a thread, or with the loop that is about to start one, in
-- every order of the steps: so no more threads run than the limit, or one if that is zero.
pub Threaded-permits :
    (m : ℕ) (s : Threads)
    → Threaded m s
    → (s.sem.permits + s.running + held_at s.place ≡ max m 1) × (s.running ≤ max m 1)
Threaded-permits m s r = (let e = Threaded-total m s r in (e, omega (arith, e)))
