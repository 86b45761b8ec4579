-- ===== src/Loadgen/Queue/Ends.antt =====
-- The workers come to an end when the queue is closed.
use rust_tcp_server.Base.{
  ℕ, suc, ◌+◌, ◌*◌, ◌<◌, ◌≤◌, ◌≡◌, ◌≢◌, refl, sym, ap, subst, Bool, true, false, List, [], ◌∷◌,
  ◌++◌, length, arith,
}
use rust_tcp_server.Loadgen.Queue.Accounts.{total, total-append}
use rust_tcp_server.Loadgen.Queue.{
  QueueState, Popped, popped_from, pop_time, Phase, ready, draining, stopped, sending, Worker,
  take_time, popping, worker_pop, replied_in, worker_reply,
}

-- What a worker does next: its reply comes, at a time and with a result, or it takes from the queue.
abbrev called_in : Phase → QueueState → Worker → ℕ → Bool → QueueState × Worker
called_in (sending t) q w now good = (q, worker_reply w now good)
called_in _ q w now good = worker_pop q w

unfoldable pub worker_call : QueueState → Worker → ℕ → Bool → QueueState × Worker
worker_call q w now good = called_in w.phase q w now good

-- So many calls, of workers that have not stopped, in some order, and what is left after them.
pub data Called : ℕ → QueueState → List Worker → QueueState → List Worker → Type 0 where
  rests : (q : QueueState) (ws : List Worker) → Called 0 q ws q ws
  calls :
      (n : ℕ) (q r : QueueState) (ws before : List Worker) (w : Worker) (after : List Worker)
      (now : ℕ) (good : Bool)
      → Called n q ws r (before ++ w ∷ after)
      → w.phase ≢ stopped
      → Called
          (suc n)
          q
          ws
          (worker_call r w now good).0
          (before ++ (worker_call r w now good).1 ∷ after)

abbrev phase_work : Phase → ℕ
phase_work (sending t) = 2
phase_work ready = 1
phase_work draining = 1
phase_work stopped = 0

phase_work_bound : (p : Phase) → phase_work p ≤ 2
phase_work_bound (sending t) = omega arith
phase_work_bound ready = omega arith
phase_work_bound draining = omega arith
phase_work_bound stopped = omega arith

abbrev worker_work : Worker → ℕ
worker_work w = phase_work w.phase

-- What there is to do for the workers, in calls.
abbrev work : QueueState → List Worker → ℕ
work q ws = 3 * length q.pending + total worker_work ws

-- A call leaves the queue closed, and less to do.
abbrev Falls : QueueState → Worker → QueueState × Worker → Type 0
Falls q w r =
    (r.0.scheduling_done ≡ true)
    × (3 * length r.0.pending + worker_work r.1 < 3 * length q.pending + worker_work w)

abbrev taken_in : Phase → Worker → QueueState × Popped → QueueState × Worker
taken_in p w r = (r.0, take_time p w r.1)

ready-Falls :
    (ts : List ℕ) (q : QueueState) (w : Worker)
    → q.pending ≡ ts
    → w.phase ≡ ready
    → q.scheduling_done ≡ true
    → Falls q w (taken_in ready w (popped_from ts q))
ready-Falls [] q w e f d = rw d (refl, omega (arith, ap phase_work f))
ready-Falls (t ∷ ts) q w e f d = (d, omega (arith, ap phase_work f, ap length e))

draining-Falls :
    (ts : List ℕ) (q : QueueState) (w : Worker)
    → q.pending ≡ ts
    → w.phase ≡ draining
    → q.scheduling_done ≡ true
    → Falls q w (taken_in draining w (popped_from ts q))
draining-Falls [] q w e f d = rw d (refl, omega (arith, ap phase_work f))
draining-Falls (t ∷ ts) q w e f d = (d, omega (arith, ap phase_work f, ap length e))

called_in-Falls :
    (p : Phase) (q : QueueState) (w : Worker) (now : ℕ) (good : Bool)
    → w.phase ≡ p
    → q.scheduling_done ≡ true
    → w.phase ≢ stopped
    → Falls q w (called_in p q w now good)
unfolding worker_pop pop_time worker_reply
called_in-Falls (sending t) q w now true f d h =
    let replied : worker_reply w now true ≡ replied_in (sending t) w now true =
      ap (λ p. replied_in p w now true) f in
    (d, omega (arith, ap phase_work f, ap worker_work replied))
called_in-Falls (sending t) q w now false f d h =
    let replied : worker_reply w now false ≡ replied_in (sending t) w now false =
      ap (λ p. replied_in p w now false) f in
    (d, omega (arith, ap phase_work f, ap worker_work replied))
called_in-Falls ready q w now good f d h =
    subst (Falls q w) (sym (ap (popping q w) f)) (ready-Falls q.pending q w refl f d)
called_in-Falls draining q w now good f d h =
    subst (Falls q w) (sym (ap (popping q w) f)) (draining-Falls q.pending q w refl f d)
called_in-Falls stopped q w now good f d h = absurd (h f)

Called-work :
    (n : ℕ) (q : QueueState) (ws : List Worker) (r : QueueState) (vs : List Worker)
    → Called n q ws r vs
    → q.scheduling_done ≡ true
    → (r.scheduling_done ≡ true) × (n + work r vs ≤ work q ws)
unfolding worker_call total
Called-work _ q ws _ _ (rests _ _) d = (d, omega arith)
Called-work _ q ws _ _ (calls n _ r _ before w after now good c h) d =
    let (e, l) = Called-work n q ws r (before ++ w ∷ after) c d in
    let (closed, less) = called_in-Falls w.phase r w now good refl e h in
    (
      closed,
      omega (
        arith,
        l,
        less,
        total-append worker_work before (w ∷ after),
        total-append worker_work before ((called_in w.phase r w now good).1 ∷ after),
      ),
    )

work_bound : (ws : List Worker) → total worker_work ws ≤ 2 * length ws
unfolding total
work_bound [] = omega arith
work_bound (w ∷ ws) = omega (arith, work_bound ws, phase_work_bound w.phase)

-- When scheduling is done, the workers that have not stopped make no more calls than three for each
-- pending request and two for each worker, in whatever order they run and whatever comes back. So
-- none of them waits or goes round for nothing, and they come to an end.
pub Called-length :
    (n : ℕ) (q : QueueState) (ws : List Worker) (r : QueueState) (vs : List Worker)
    → q.scheduling_done ≡ true
    → Called n q ws r vs
    → n ≤ 3 * length q.pending + 2 * length ws
Called-length n q ws r vs d c = omega (arith, (Called-work n q ws r vs c d).1, work_bound ws)
