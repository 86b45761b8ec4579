-- ===== src/Server/Workers/Forking.antt =====
-- server/src/models/forking.rs and the reaper of server/src/sys/signal.rs: the parent counts its
-- live children in an atomic `usize`, which the handler of SIGCHLD may change between any two steps.
use rust_tcp_server.Base.{
  ℕ, zero, suc, ◌+◌, ◌-◌, ◌%◌, ◌^◌, ◌≤◌, ◌<◌, ◌≡◌, refl, ap, subst, Bool, true, false, Bool-cases,
  inl, inr, leb, if◌then◌else◌, arith,
}
use rust_tcp_server.App.{Metrics, new_metrics, inc_connections, inc_errors}

-- Where the parent is in its loop: in `accept`, with a stream, below the cap, or about to fork.
pub data Stage : Type 0 where
  accepting admitted below_cap reserved : Stage

-- The counters of the parent, and its children: those that run, and those that have exited and are
-- not waited for.
pub record Forking : Type 0 where
  pub stage : Stage
  pub live_children : ℕ
  pub running : ℕ
  pub exited : ℕ
  pub metrics : Metrics

abbrev pub new_forking : Forking
new_forking = record {
  stage = accepting;
  live_children = 0;
  running = 0;
  exited = 0;
  metrics = new_metrics;
}

-- `fetch_add(1)` and `fetch_sub(1)` wrap.
abbrev pub fetch_add : ℕ → ℕ
fetch_add n = (n + 1) % 2 ^ 64

abbrev pub fetch_sub : ℕ → ℕ
fetch_sub n = (n + (2 ^ 64 - 1)) % 2 ^ 64

unfoldable pub accept_stream : Forking → Forking
accept_stream s = record s { stage = admitted; metrics = inc_connections s.metrics }

unfoldable pub check_cap : ℕ → Forking → Forking
check_cap max_connections s =
    if leb max_connections s.live_children
    then record s { stage = accepting; metrics = inc_errors s.metrics }
    else record s { stage = below_cap }

unfoldable pub reserve : Forking → Forking
reserve s = record s { stage = reserved; live_children = fetch_add s.live_children }

-- `fork` fails, or the parent goes on with one child more.
unfoldable pub after_fork : Bool → Forking → Forking
after_fork false s = record s {
  stage = accepting;
  live_children = fetch_sub s.live_children;
  metrics = inc_errors s.metrics;
}
after_fork true s = record s { stage = accepting; running = suc s.running }

-- The loop of `sigchld_handler`, which waits for `n` children.
unfoldable pub reap_count : ℕ → ℕ → ℕ
reap_count zero live = live
reap_count (suc n) live = reap_count n (fetch_sub live)

unfoldable pub sigchld_handler : Forking → Forking
unfolding reap_count
sigchld_handler s = record s { live_children = reap_count s.exited s.live_children; exited = 0 }

-- The steps of the parent, the exit of a child, and the handler between them.
pub data Forked (max_connections : ℕ) : Forking → Type 0 where
  begun : Forked max_connections new_forking
  accepted_one :
      (s : Forking)
      → Forked max_connections s
      → s.stage ≡ accepting
      → Forked max_connections (accept_stream s)
  checked :
      (s : Forking)
      → Forked max_connections s
      → s.stage ≡ admitted
      → Forked max_connections (check_cap max_connections s)
  reserved_one :
      (s : Forking)
      → Forked max_connections s
      → s.stage ≡ below_cap
      → Forked max_connections (reserve s)
  forked :
      (s : Forking) (worked : Bool)
      → Forked max_connections s
      → s.stage ≡ reserved
      → Forked max_connections (after_fork worked s)
  child_exits :
      (s : Forking) (n : ℕ)
      → Forked max_connections s
      → s.running ≡ suc n
      → Forked max_connections (record s { running = n; exited = suc s.exited })
  signalled : (s : Forking) → Forked max_connections s → Forked max_connections (sigchld_handler s)

-- The place that a parent about to fork has taken.
abbrev pub place : Stage → ℕ
place accepting = 0
place admitted = 0
place below_cap = 0
place reserved = 1

-- A parent that found room still has it.
abbrev pub HasRoom : ℕ → Stage → ℕ → Type 0
HasRoom m below_cap n = n < m
HasRoom m accepting n = Unit {0}
HasRoom m admitted n = Unit {0}
HasRoom m reserved n = Unit {0}

abbrev pub Counted : ℕ → Forking → Type 0
Counted m s =
    (s.live_children ≡ s.running + s.exited + place s.stage)
    × (s.live_children ≤ m)
    × HasRoom m s.stage s.live_children

reap_count_exact : (n live : ℕ) → n ≤ live → live < 2 ^ 64 → reap_count n live ≡ live - n
unfolding reap_count
reap_count_exact zero live h l = omega arith
reap_count_exact (suc n) live h l =
    omega (arith, reap_count_exact n (fetch_sub live) (omega arith) (omega arith))

HasRoom-fewer : (m : ℕ) (s : Stage) (a b : ℕ) → b ≤ a → HasRoom m s a → HasRoom m s b
HasRoom-fewer m accepting a b l h = tt
HasRoom-fewer m admitted a b l h = tt
HasRoom-fewer m below_cap a b l h = omega arith
HasRoom-fewer m reserved a b l h = tt

-- Whenever children exit and the handler runs, the counter is the number of the children that are
-- not waited for, with the one that the parent is about to fork, and is never above the limit; so it
-- never wraps, and no more children than the limit run.
pub Forked-Counted : (m : ℕ) (s : Forking) → m < 2 ^ 64 → Forked m s → Counted m s
unfolding accept_stream check_cap reserve after_fork sigchld_handler
Forked-Counted m _ w begun = (refl, omega arith, tt)
Forked-Counted m _ w (accepted_one s r e) =
    let (c, l, h) = Forked-Counted m s w r in let at = ap place e in (omega (arith, c, at), l, tt)
Forked-Counted m _ w (checked s r e) =
    let (c, l, h) = Forked-Counted m s w r in
    let at = ap place e in
    elim (Bool-cases (leb m s.live_children)) [
      | inl full ↦ rw full (omega (arith, c, at), l, tt)
      | inr free ↦ rw free (omega (arith, c, at), l, ground arith)
    ]
Forked-Counted m _ w (reserved_one s r e) =
    let (c, l, h) = Forked-Counted m s w r in
    let at = ap place e in
    let room : s.live_children < m = subst (λ x. HasRoom m x s.live_children) e h in
    (omega (arith, c, at), omega arith, tt)
Forked-Counted m _ w (forked s false r e) =
    let (c, l, h) = Forked-Counted m s w r in
    let at = ap place e in (omega (arith, c, at), omega (arith, c, at), tt)
Forked-Counted m _ w (forked s true r e) =
    let (c, l, h) = Forked-Counted m s w r in let at = ap place e in (omega (arith, c, at), l, tt)
Forked-Counted m _ w (child_exits s n r e) =
    let (c, l, h) = Forked-Counted m s w r in (omega (arith, c, e), l, h)
Forked-Counted m _ w (signalled s r) =
    let (c, l, h) = Forked-Counted m s w r in
    let gone = reap_count_exact s.exited s.live_children (omega (arith, c)) (omega arith) in
    (
      omega (arith, c, gone),
      omega (arith, c, gone),
      HasRoom-fewer m s.stage s.live_children (reap_count s.exited s.live_children)
          (omega (arith, gone)) h,
    )
