-- ===== src/Server/Workers/Pool/Balance.antt =====
-- Where the streams of the pool are.
use rust_tcp_server.Base.{
  ℕ, zero, suc, ◌+◌, ◌%◌, ◌^◌, ◌≤◌, ◌<◌, ◌≡◌, refl, ap, ◌∙◌, max, Bool, true, false, Bool-cases,
  inl, inr, List, [], ◌∷◌, ◌++◌, ◌==◌, if◌then◌else◌, leb, length, length-append, arith,
}
use rust_tcp_server.App.{new_metrics, inc_connections, inc_errors}
use rust_tcp_server.Server.Workers.Pool.{
  queue_capacity, Pool, new_pool, PoolThread, receiving, serving, spawn_workers, accept_to_queue,
  received_from, worker_recv, worker_done, Pooled, begun, accepted_one, received, done_one,
}

-- How often a stream stands in a list.
unfoldable pub count : ℕ → List ℕ → ℕ
count x [] = 0
count x (y ∷ ys) = (if x == y then 1 else 0) + count x ys

abbrev in_hand : PoolThread → List ℕ
in_hand receiving = []
in_hand (serving stream) = stream ∷ []

-- The streams that threads have.
unfoldable pub in_hands : List PoolThread → List ℕ
in_hands [] = []
in_hands (t ∷ ts) = in_hand t ++ in_hands ts

abbrev pub Balanced : ℕ → ℕ → List ℕ → Pool → List PoolThread → Type 0
Balanced m workers xs s ts =
    ((x : ℕ)
      → count x xs
        ≡ count x s.queued
          + count x s.rejected
          + count x s.served
          + count x s.failed
          + count x (in_hands ts))
    × (length s.queued ≤ max m 1)
    × (length ts ≡ max workers 1)
    × (s.metrics.connections ≡ length xs % 2 ^ 64)
    × (s.metrics.errors ≡ (length s.rejected + length s.failed) % 2 ^ 64)

count-append : (x : ℕ) (a b : List ℕ) → count x (a ++ b) ≡ count x a + count x b
unfolding count
count-append x [] b = omega arith
count-append x (y ∷ a) b = omega (arith, count-append x a b)

-- What the threads have, with one of them changed.
count-in_hands :
    (x : ℕ) (before : List PoolThread) (t : PoolThread) (after : List PoolThread)
    → count x (in_hands (before ++ t ∷ after))
      ≡ count x (in_hands before) + count x (in_hand t) + count x (in_hands after)
unfolding in_hands count
count-in_hands x [] t after = omega (arith, count-append x (in_hand t) (in_hands after))
count-in_hands x (u ∷ before) t after = omega (
  arith,
  count-append x (in_hand u) (in_hands (before ++ t ∷ after)),
  count-append x (in_hand u) (in_hands before),
  count-in_hands x before t after,
)

same_number :
    (before : List PoolThread) (t u : PoolThread) (after : List PoolThread)
    → length (before ++ t ∷ after) ≡ length (before ++ u ∷ after)
same_number before t u after =
    omega (arith, length-append before (t ∷ after), length-append before (u ∷ after))

spawn_workers-Balanced :
    (m workers : ℕ) → Balanced m workers [] new_pool (spawn_workers (max workers 1))
unfolding spawn_workers in_hands count new_metrics
spawn_workers-Balanced m workers = (
  λ x. omega (arith, none_held x (max workers 1)),
  omega arith,
  number (max workers 1),
  refl,
  refl,
)
  where
    none_held : (x n : ℕ) → count x (in_hands (spawn_workers n)) ≡ 0
    none_held x zero = refl
    none_held x (suc n) = none_held x n

    number : (n : ℕ) → length (spawn_workers n) ≡ n
    number zero = refl
    number (suc n) = omega (arith, number n)

accept_to_queue-Balanced :
    (m workers : ℕ) (xs : List ℕ) (s : Pool) (ts : List PoolThread) (stream : ℕ)
    → Balanced m workers xs s ts
    → Balanced m workers (xs ++ stream ∷ []) (accept_to_queue m s stream) ts
unfolding accept_to_queue inc_connections inc_errors
accept_to_queue-Balanced m workers xs s ts stream (b, q, w, c, e) =
    elim (Bool-cases (leb (queue_capacity m) (length s.queued))) [
      | inl full ↦ rw full (
        λ x.
            omega (
              arith,
              b x,
              count-append x xs (stream ∷ []),
              count-append x s.rejected (stream ∷ []),
            ),
        q,
        w,
        omega (arith, c, length-append xs (stream ∷ [])),
        omega (arith, e, length-append s.rejected (stream ∷ [])),
      )
      | inr room ↦
          let below : length s.queued < queue_capacity m = ground arith in
          rw room (
            λ x. omega (
              arith,
              b x,
              count-append x xs (stream ∷ []),
              count-append x s.queued (stream ∷ []),
            ),
            omega (arith, length-append s.queued (stream ∷ []), below),
            w,
            omega (arith, c, length-append xs (stream ∷ [])),
            e,
          )
    ]

received_from-Balanced :
    (m workers : ℕ) (xs queued : List ℕ) (s : Pool) (before after : List PoolThread)
    → s.queued ≡ queued
    → Balanced m workers xs s (before ++ receiving ∷ after)
    → Balanced m workers xs
        (received_from queued s).0
        (before ++ (received_from queued s).1 ∷ after)
received_from-Balanced m workers xs [] s before after k h = h
received_from-Balanced m workers xs (y ∷ rest) s before after k (b, q, w, c, e) = (
  λ x.
      (let n : count x s.queued ≡ count x ((y ∷ []) ++ rest) = ap (count x) k in
        omega (
          arith,
          b x,
          n,
          count-append x (y ∷ []) rest,
          count-in_hands x before receiving after,
          count-in_hands x before (serving y) after,
          count_none x,
        )),
  omega (arith, q, ap length k),
  same_number before (serving y) receiving after ∙ w,
  c,
  e,
)
  where
    count_none : (x : ℕ) → count x [] ≡ 0
    count_none x = unfold count in refl

worker_recv-Balanced :
    (m workers : ℕ) (xs : List ℕ) (s : Pool) (before : List PoolThread) (t : PoolThread)
    (after : List PoolThread)
    → Balanced m workers xs s (before ++ t ∷ after)
    → Balanced m workers xs (worker_recv s t).0 (before ++ (worker_recv s t).1 ∷ after)
unfolding worker_recv
worker_recv-Balanced m workers xs s before receiving after h =
    received_from-Balanced m workers xs s.queued s before after refl h
worker_recv-Balanced m workers xs s before (serving y) after h = h

worker_done-Balanced :
    (m workers : ℕ) (xs : List ℕ) (s : Pool) (before : List PoolThread) (t : PoolThread)
    (after : List PoolThread) (good : Bool)
    → Balanced m workers xs s (before ++ t ∷ after)
    → Balanced m workers xs (worker_done s t good).0 (before ++ (worker_done s t good).1 ∷ after)
unfolding worker_done inc_errors count
worker_done-Balanced m workers xs s before receiving after good h = h
worker_done-Balanced m workers xs s before (serving y) after true (b, q, w, c, e) = (
  λ x. omega (
    arith,
    b x,
    count-append x s.served (y ∷ []),
    count-in_hands x before receiving after,
    count-in_hands x before (serving y) after,
  ),
  q,
  same_number before receiving (serving y) after ∙ w,
  c,
  e,
)
worker_done-Balanced m workers xs s before (serving y) after false (b, q, w, c, e) = (
  λ x. omega (
    arith,
    b x,
    count-append x s.failed (y ∷ []),
    count-in_hands x before receiving after,
    count-in_hands x before (serving y) after,
  ),
  q,
  same_number before receiving (serving y) after ∙ w,
  c,
  omega (arith, e, length-append s.failed (y ∷ [])),
)

-- In every order of the calls, each stream that was accepted is in exactly one place, in the channel,
-- with a thread, served, or dropped at a full channel, as often as it was accepted; the channel never
-- holds more than the limit, or one if that is zero; there are as many threads as the setting says,
-- or one, so no more streams are being served; and the counters have the streams that were accepted,
-- and those that were dropped or failed, modulo their width.
pub Pooled-Balanced :
    (m workers : ℕ) (xs : List ℕ) (s : Pool) (ts : List PoolThread)
    → Pooled m workers xs s ts
    → Balanced m workers xs s ts
Pooled-Balanced m workers _ _ _ begun = spawn_workers-Balanced m workers
Pooled-Balanced m workers _ _ ts (accepted_one xs s _ stream r) =
    accept_to_queue-Balanced m workers xs s ts stream (Pooled-Balanced m workers xs s ts r)
Pooled-Balanced m workers xs _ _ (received _ s before t after r) =
    worker_recv-Balanced m workers xs s before t after
      (Pooled-Balanced m workers xs s (before ++ t ∷ after) r)
Pooled-Balanced m workers xs _ _ (done_one _ s before t after good r) =
    worker_done-Balanced m workers xs s before t after good
      (Pooled-Balanced m workers xs s (before ++ t ∷ after) r)
