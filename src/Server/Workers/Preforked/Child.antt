-- ===== src/Server/Workers/Preforked/Child.antt =====
-- What a worker counts.
use rust_tcp_server.App.{Metrics, inc_connections, inc_errors}
use rust_tcp_server.Base.{
  ℕ, suc, ◌+◌, ◌%◌, ◌^◌, ◌<◌, ◌≡◌, refl, ap, Bool, true, false, List, [], ◌∷◌, map, if◌then◌else◌,
  arith,
}
use rust_tcp_server.Server.Workers.Preforked.{
  is_seen, Incoming, stream, nothing, child_step, child_loop, exits, serves, child_end, child_main,
}

-- What a worker accepts before the flag is set.
abbrev pub before_flag : List (Bool × Incoming) → List Incoming
before_flag [] = []
before_flag ((true, c) ∷ rounds) = []
before_flag ((false, c) ∷ rounds) = c ∷ before_flag rounds

abbrev pub streams : List Incoming → ℕ
streams [] = 0
streams (stream good ∷ cs) = suc (streams cs)
streams (nothing ∷ cs) = streams cs

abbrev pub failures : List Incoming → ℕ
failures [] = 0
failures (stream false ∷ cs) = suc (failures cs)
failures (stream true ∷ cs) = failures cs
failures (nothing ∷ cs) = failures cs

abbrev pub is_set : List (Bool × Incoming) → Bool
is_set rounds = is_seen (map (λ r. r.0) rounds)

-- `connections` and `errors` are those of before, with these added.
abbrev pub Counts : Metrics → ℕ → ℕ → Metrics → Type 0
Counts m n e t =
    (t.connections ≡ (m.connections + n) % 2 ^ 64)
    × (t.errors ≡ (m.errors + e) % 2 ^ 64)
    × (t.requests ≡ m.requests)

abbrev Wraps : Metrics → Type 0
Wraps m = (m.connections < 2 ^ 64) × (m.errors < 2 ^ 64)

child_step-Wraps : (m : Metrics) (c : Incoming) → Wraps m → Wraps (child_step m c)
unfolding child_step inc_connections inc_errors
child_step-Wraps m (stream true) h = (omega arith, h.1)
child_step-Wraps m (stream false) h = (omega arith, omega arith)
child_step-Wraps m nothing h = h

child_step-Counts :
    (m : Metrics) (c : Incoming) (cs : List Incoming) (t : Metrics)
    → Counts (child_step m c) (streams cs) (failures cs) t
    → Counts m (streams (c ∷ cs)) (failures (c ∷ cs)) t
unfolding child_step inc_connections inc_errors
child_step-Counts m (stream true) cs t (n, e, r) = (omega (arith, n), e, r)
child_step-Counts m (stream false) cs t (n, e, r) = (omega (arith, n), omega (arith, e), r)
child_step-Counts m nothing cs t h = h

child_loop-Counts :
    (rounds : List (Bool × Incoming)) (m : Metrics)
    → Wraps m
    → Counts m
        (streams (before_flag rounds))
        (failures (before_flag rounds))
        (child_loop rounds m).0
      × ((child_loop rounds m).1 ≡ is_set rounds)
unfolding child_loop is_seen
child_loop-Counts [] m h = ((omega (arith, h.0), omega (arith, h.1), refl), refl)
child_loop-Counts ((true, c) ∷ rounds) m h = ((omega (arith, h.0), omega (arith, h.1), refl), refl)
child_loop-Counts ((false, c) ∷ rounds) m h =
    let (n, e) = child_loop-Counts rounds (child_step m c) (child_step-Wraps m c h) in
    (child_step-Counts m c (before_flag rounds) (child_loop rounds (child_step m c)).0 n, e)

child_end_lem : (r : Metrics × Bool) → (child_end r ≡ (r.0, if r.1 then exits 0 else serves))
child_end_lem (m, true) = refl
child_end_lem (m, false) = refl

-- A worker that has its listener ends exactly if it reads that the flag is set, and then with the
-- code 0. By then it has counted each stream that it accepted before that once, and each of those
-- that failed once as an error, modulo the width of the counters; timeouts and errors of `accept`
-- count for nothing.
pub child_main-Counts :
    (rounds : List (Bool × Incoming)) (m : Metrics)
    → m.connections < 2 ^ 64
    → m.errors < 2 ^ 64
    → Counts m
        (streams (before_flag rounds))
        (failures (before_flag rounds))
        (child_main true true rounds m).0
      × ((child_main true true rounds m).1 ≡ (if is_set rounds then exits 0 else serves))
unfolding child_main is_seen
child_main-Counts rounds m c e =
    let (n, s) = child_loop-Counts rounds m (c, e) in
    rw (child_end_lem (child_loop rounds m)) (n, ap (λ b. if b then exits 0 else serves) s)
