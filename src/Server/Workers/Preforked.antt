-- ===== src/Server/Workers/Preforked.antt =====
-- server/src/models/preforked.rs: a fixed number of worker processes, of which each has a listener of
-- its own. Processes are numbers.
pub mod Parent
pub mod Child
use rust_tcp_server.App.{Metrics, inc_connections, inc_errors}
use rust_tcp_server.Base.{
  ℕ, zero, suc, ◌+◌, ◌%◌, ◌^◌, ◌<◌, ◌≡◌, refl, sym, ap, subst, ◌∙◌, max, Bool, true, false, ◌||◌,
  Option, none, some, Option-cases, inl, inr, List, [], ◌∷◌, ◌++◌, map, append-nil, append_assoc,
  length, length-append, if◌then◌else◌, arith,
}

-- The calls that are made on a child that was forked.
pub data Call : Type 0 where
  kill waitpid : ℕ → Call

unfoldable pub forward_signal : List ℕ → List Call
forward_signal [] = []
forward_signal (pid ∷ children) = kill pid ∷ forward_signal children

unfoldable pub reap : List ℕ → List Call
reap [] = []
reap (pid ∷ children) = waitpid pid ∷ reap children

-- What a `fork` gives to the parent.
abbrev pub forked_one : (ℕ → List ℕ × Bool) → List ℕ → Option ℕ → List ℕ × Bool
forked_one go children none = (children, false)
forked_one go children (some pid) = go pid

-- The loop of `serve` over the workers, with `n` of them to go: the children, and whether all the
-- calls of `fork` succeeded. The call for the worker `i` returns `fork i`.
unfoldable pub fork_from : (ℕ → Option ℕ) → ℕ → ℕ → List ℕ → List ℕ × Bool
fork_from fork zero i children = (children, true)
fork_from fork (suc n) i children =
    forked_one (λ pid. fork_from fork n (suc i) (children ++ pid ∷ [])) children (fork i)

-- The parent is in its loop of naps, or has returned, after these calls.
pub data Serve : Type 0 where
  idles : List ℕ → Serve
  returned : Bool → List Call → Serve

-- Whether one of the readings of the flag is set.
unfoldable pub is_seen : List Bool → Bool
is_seen [] = false
is_seen (flag ∷ flags) = flag || is_seen flags

abbrev pub serve_with : List ℕ × Bool → Bool → Serve
serve_with (children, false) seen = returned false (forward_signal children ++ reap children)
serve_with (children, true) seen =
    if seen then returned true (forward_signal children ++ reap children) else idles children

unfoldable pub serve_preforked : (ℕ → Option ℕ) → ℕ → List Bool → Serve
unfolding fork_from
serve_preforked fork workers flags =
    serve_with (fork_from fork (max workers 1) 0 []) (is_seen flags)

-- What `accept` gives to a worker: a stream, with whether it is served without an error, or none,
-- for a timeout, a signal or an error.
pub data Incoming : Type 0 where
  stream : Bool → Incoming
  nothing : Incoming

unfoldable pub child_step : Metrics → Incoming → Metrics
child_step m (stream good) = if good then inc_connections m else inc_errors (inc_connections m)
child_step m nothing = m

-- The loop of a worker: each round has a reading of the flag and, if that is not set, an `accept`.
unfoldable pub child_loop : List (Bool × Incoming) → Metrics → Metrics × Bool
child_loop [] m = (m, false)
child_loop ((flag, c) ∷ rounds) m =
    let rest = child_loop rounds (child_step m c) in if flag then (m, true) else rest

pub data ChildEnd : Type 0 where
  exits : ℕ → ChildEnd
  serves : ChildEnd

abbrev pub child_end : Metrics × Bool → Metrics × ChildEnd
child_end (m, true) = (m, exits 0)
child_end (m, false) = (m, serves)

-- Whether the listener can be bound, and its timeout set.
unfoldable pub child_main : Bool → Bool → List (Bool × Incoming) → Metrics → Metrics × ChildEnd
unfolding child_loop
child_main false timed rounds m = (m, exits 1)
child_main true false rounds m = (m, exits 1)
child_main true true rounds m = child_end (child_loop rounds m)
