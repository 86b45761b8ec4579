-- ===== src/Loadgen/Queue/Accounts.antt =====
-- Every scheduled request is accounted for.
use rust_tcp_server.Base.{
  ℕ, ◌+◌, ◌≡◌, ◌≢◌, refl, sym, ap, ◌∙◌, subst, Bool, true, false, List, [], ◌∷◌, ◌++◌, append_assoc,
  append-nil, map, length, length-append, arith, if◌then◌else◌,
}
use rust_tcp_server.Loadgen.Queue.{
  QueueState, new_queue, push_time, Popped, scheduled_at, drained, waits, popped_from, pop_time,
  close_queue, Phase, ready, draining, stopped, sending, Worker, new_worker, take_time, popping,
  worker_pop, replied_in, worker_reply, Run, started, scheduled, closed, popped, replied,
}

abbrev pub in_hand : Phase → ℕ
in_hand (sending t) = 1
in_hand ready = 0
in_hand draining = 0
in_hand stopped = 0

-- The requests that a worker took off the queue.
abbrev pub taken_by : Worker → ℕ
taken_by w = in_hand w.phase + w.ok + w.errors

unfoldable pub total : (Worker → ℕ) → List Worker → ℕ
total f [] = 0
total f (w ∷ ws) = f w + total f ws

pub total-append : (f : Worker → ℕ) (a b : List Worker) → total f (a ++ b) ≡ total f a + total f b
unfolding total
total-append f [] b = omega arith
total-append f (w ∷ a) b = omega (arith, total-append f a b)

-- A worker stops when nothing is pending and nothing more comes.
abbrev pub StopsLast : QueueState → List Worker → Type 0
StopsLast q [] = Unit {0}
StopsLast q (w ∷ ws) =
    (w.phase ≡ stopped → (q.scheduling_done ≡ true) × (q.pending ≡ [])) × StopsLast q ws

abbrev pub Accounted : List ℕ → QueueState → List Worker → Type 0
Accounted ts q ws =
    (taken : List ℕ) × (taken ++ q.pending ≡ ts)
    × (length taken ≡ total taken_by ws)
    × StopsLast q ws

new_workers_taken : (cloned : List Bool) → total taken_by (map new_worker cloned) ≡ 0
unfolding total new_worker
new_workers_taken [] = refl
new_workers_taken (b ∷ bs) = ground (arith, new_workers_taken bs)

new_workers-StopsLast : (q : QueueState) (cloned : List Bool) → StopsLast q (map new_worker cloned)
unfolding new_worker
new_workers-StopsLast q [] = tt
new_workers-StopsLast q (true ∷ bs) = (λ e. cc, new_workers-StopsLast q bs)
new_workers-StopsLast q (false ∷ bs) = (λ e. cc, new_workers-StopsLast q bs)

abbrev Over : QueueState → Type 0
Over q = (q.scheduling_done ≡ true) × (q.pending ≡ [])

-- One worker and the queue change.
Over-StopsLast :
    (q r : QueueState) (ws : List Worker) → (Over q → Over r) → StopsLast q ws → StopsLast r ws
Over-StopsLast q r [] k h = tt
Over-StopsLast q r (x ∷ ws) k (i, h) = (λ e. k (i e), Over-StopsLast q r ws k h)

StopsLast-change :
    (q r : QueueState) (before : List Worker) (w v : Worker) (after : List Worker)
    → (Over q → Over r)
    → (v.phase ≡ stopped → Over r)
    → StopsLast q (before ++ w ∷ after)
    → StopsLast r (before ++ v ∷ after)
StopsLast-change q r [] w v after k s (h, i) = (s, Over-StopsLast q r after k i)
StopsLast-change q r (x ∷ before) w v after k s (i, j) =
    (λ e. k (i e), StopsLast-change q r before w v after k s j)

change-Accounted :
    (ts : List ℕ) (q r : QueueState) (before : List Worker) (w v : Worker) (after : List Worker)
    (new : List ℕ)
    → new ++ r.pending ≡ q.pending
    → taken_by v ≡ taken_by w + length new
    → (Over q → Over r)
    → (v.phase ≡ stopped → Over r)
    → Accounted ts q (before ++ w ∷ after)
    → Accounted ts r (before ++ v ∷ after)
unfolding total
change-Accounted ts q r before w v after new p n k s (taken, e, l, h) = (
  taken ++ new,
  append_assoc taken new r.pending ∙ ap (◌++◌ taken) p ∙ e,
  omega (
    arith,
    length-append taken new,
    l,
    n,
    total-append taken_by before (w ∷ after),
    total-append taken_by before (v ∷ after),
  ),
  StopsLast-change q r before w v after k s h,
)

pop_time_empty :
    (q : QueueState)
    → q.pending ≡ []
    → pop_time q ≡ (q, if q.scheduling_done then drained else waits)
unfolding pop_time
pop_time_empty q p = ap (λ ts. popped_from ts q) p

-- A worker that is ready or draining asks for a time.
popping-Accounted :
    (ts : List ℕ) (q : QueueState) (before : List Worker) (w : Worker) (after : List Worker)
    (take : Worker → Popped → Worker)
    → ((t : ℕ)
        → (taken_by (take w (scheduled_at t)) ≡ taken_by w + 1)
          × ((take w (scheduled_at t)).phase ≢ stopped))
    → taken_by (take w drained) ≡ taken_by w
    → take w waits ≡ w
    → Accounted ts q (before ++ w ∷ after)
    → Accounted ts (pop_time q).0 (before ++ take w (pop_time q).1 ∷ after)
popping-Accounted ts q before w after take got out wait h = go q.pending refl
  where
    Next : QueueState × Popped → Type 0
    Next x = Accounted ts x.0 (before ++ take w x.1 ∷ after)

    idle :
        (b : Bool) → q.scheduling_done ≡ b → q.pending ≡ [] → Next (q, if b then drained else waits)
    idle true d p =
        change-Accounted ts q q before w (take w drained) after [] refl (omega (arith, out))
          (λ o. o) (λ s. (d, p)) h
    idle false d p = rw wait h

    go : (pending : List ℕ) → q.pending ≡ pending → Next (pop_time q)
    go (t ∷ rest) p =
        let here : pop_time q ≡ (record q { pending = rest }, scheduled_at t) =
          (unfold pop_time in ap (λ ts. popped_from ts q) p) in
        subst Next (sym here) (
          change-Accounted ts q (record q { pending = rest }) before w (take w (scheduled_at t))
            after (t ∷ []) (sym p) (got t).0 (λ o. cc) (λ s. absurd ((got t).1 s)) h)
    go [] p = subst Next (sym (pop_time_empty q p)) (idle q.scheduling_done refl p)

popped-Accounted :
    (ts : List ℕ) (q : QueueState) (before : List Worker) (w : Worker) (after : List Worker)
    → Accounted ts q (before ++ w ∷ after)
    → Accounted ts (worker_pop q w).0 (before ++ (worker_pop q w).1 ∷ after)
unfolding worker_pop
popped-Accounted ts q before w after h = go w.phase refl
  where
    go :
        (phase : Phase)
        → w.phase ≡ phase
        → Accounted ts (popping q w phase).0 (before ++ (popping q w phase).1 ∷ after)
    go (sending t) e = h
    go stopped e = h
    go ready e =
        popping-Accounted ts q before w after (take_time ready) (λ t. (rw e (omega arith), λ s. cc))
          (rw e refl) refl h
    go draining e =
        popping-Accounted ts q before w after (take_time draining)
          (λ t. (rw e (omega arith), λ s. cc)) (rw e refl) refl h

replied-Accounted :
    (ts : List ℕ) (q : QueueState) (before : List Worker) (w : Worker) (after : List Worker)
    (now : ℕ) (good : Bool)
    → Accounted ts q (before ++ w ∷ after)
    → Accounted ts q (before ++ worker_reply w now good ∷ after)
unfolding worker_reply
replied-Accounted ts q before w after now good h = go w.phase refl good
  where
    go :
        (phase : Phase)
        → w.phase ≡ phase
        → (good : Bool) → Accounted ts q (before ++ replied_in phase w now good ∷ after)
    go (sending t) e true =
        change-Accounted ts q q before w (replied_in (sending t) w now true) after [] refl
          (rw e (omega arith)) (λ o. o) (λ s. cc) h
    go (sending t) e false =
        change-Accounted ts q q before w (replied_in (sending t) w now false) after [] refl
          (rw e (omega arith)) (λ o. o) (λ s. cc) h
    go ready e b = h
    go draining e b = h
    go stopped e b = h

-- In every order of the calls, the times come off the queue in the order in which they were
-- scheduled, each of them once: those taken are in the hands of a worker or counted as answered or
-- as an error, and the rest is pending. A worker stops only when nothing is pending and nothing more
-- will be.
pub Run-Accounted :
    (ts : List ℕ) (q : QueueState) (ws : List Worker) → Run ts q ws → Accounted ts q ws
unfolding push_time close_queue
Run-Accounted _ _ _ (started cloned) =
    ([], refl, sym (new_workers_taken cloned), new_workers-StopsLast new_queue cloned)
Run-Accounted _ _ _ (scheduled ts q ws t r more) =
    let (taken, e, l, h) = Run-Accounted ts q ws r in
    (
      taken,
      sym (append_assoc taken q.pending (t ∷ [])) ∙ ap (λ s. s ++ t ∷ []) e,
      l,
      Over-StopsLast q (push_time q t) ws (λ o. cc) h,
    )
Run-Accounted _ _ _ (closed ts q ws r) =
    let (taken, e, l, h) = Run-Accounted ts q ws r in
    (taken, e, l, Over-StopsLast q (close_queue q) ws (λ o. (refl, o.1)) h)
Run-Accounted _ _ _ (popped ts q before w after r) =
    popped-Accounted ts q before w after (Run-Accounted ts q (before ++ w ∷ after) r)
Run-Accounted _ _ _ (replied ts q before w after now good r) =
    replied-Accounted ts q before w after now good (Run-Accounted ts q (before ++ w ∷ after) r)

abbrev pub AllStopped : List Worker → Type 0
AllStopped [] = Unit {0}
AllStopped (w ∷ ws) = (w.phase ≡ stopped) × AllStopped ws

stopped_taken :
    (ws : List Worker)
    → AllStopped ws
    → total taken_by ws ≡ total (λ w. w.ok) ws + total (λ w. w.errors) ws
unfolding total
stopped_taken [] h = refl
stopped_taken (w ∷ ws) (s, h) =
    let idle : in_hand w.phase ≡ 0 = ap in_hand s in omega (arith, idle, stopped_taken ws h)

-- When all the workers are back, of which there is at least one, every request that was scheduled is
-- counted once, as answered or as an error: none is dropped, however late it was sent.
pub Run-finished :
    (ts : List ℕ) (q : QueueState) (w : Worker) (ws : List Worker)
    → Run ts q (w ∷ ws)
    → AllStopped (w ∷ ws)
    → total (λ v. v.ok) (w ∷ ws) + total (λ v. v.errors) (w ∷ ws) ≡ length ts
Run-finished ts q w ws r all =
    let (taken, e, l, h) = Run-Accounted ts q (w ∷ ws) r in
    let over = h.0 all.0 in
    let whole : taken ≡ ts = sym (append-nil taken) ∙ ap (◌++◌ taken) (sym over.1) ∙ e in
    sym (stopped_taken (w ∷ ws) all) ∙ sym l ∙ ap length whole
