-- ===== src/Server/Uring/Flight.antt =====
-- What is in flight on the ring of io_uring.rs: how often each word was pushed and has not come back.
pub mod Pushes
pub mod Fits
pub mod Finished
pub mod Steps
pub mod Rounds
use rust_tcp_server.Base.{
  ℕ, zero, suc, ◌+◌, ◌<◌, ◌≤◌, ◌^◌, ◌≡◌, ◌≢◌, List, [], ◌∷◌, Option, none, some, Bool, true, false,
  ◌==◌, if◌then◌else◌, length,
}
use rust_tcp_server.Base.Assoc.{find_key}
use rust_tcp_server.Connection.Invariant.{Inv}
use rust_tcp_server.Connection.{ConnState, reading, writing, closed, Connection}
use rust_tcp_server.Http.Request.{Request}
use rust_tcp_server.Http.Response.{Response, encode}
use rust_tcp_server.Server.Uring.Words.{op_accept, op_recv, op_send, op_close, pack}
use rust_tcp_server.Server.Uring.{
  Sqe, Outcome, done, errno, Cqe, RingCalls, Runtime, Wait, woken, retry, rearm, on_cqe,
}

-- How many completions carry a word.
unfoldable pub carried : ℕ → List Cqe → ℕ
carried w [] = 0
carried w (c ∷ cs) = let rest = carried w cs in if c.user_data == w then suc rest else rest

abbrev pub Pushed : {R : Type 0} → (R → ℕ → ℕ) → R → Sqe → R × Bool → Type 0
Pushed flight r e (s, true) =
    (w : ℕ) → flight s w ≡ (if e.user_data == w then suc (flight r w) else flight r w)
Pushed flight r e (s, false) = (w : ℕ) → flight s w ≡ flight r w

abbrev pub Completed : {R : Type 0} → (R → ℕ → ℕ) → R → R × (ℕ → ℕ) × List Cqe → Type 0
Completed flight r (s, pool, cqes) =
    (fd : ℕ)
    → ((carried (pack op_recv fd) cqes + flight s (pack op_recv fd) ≡ flight r (pack op_recv fd))
        × (carried (pack op_send fd) cqes + flight s (pack op_send fd)
            ≡ flight r (pack op_send fd)))

-- What the loop relies on of the ring: `flight` counts the submissions with a word that are not
-- completed, of which a `recv` or a `send` completes once; a submission empties the queue, so that
-- the next push finds room.
pub record RingLaws {R : Type 0} (calls : RingCalls R) : Type 0 where
  pub flight : R → ℕ → ℕ
  pub pushed : (r : R) (e : Sqe) → Pushed flight r e (calls.push r e)
  pub submitted : (r : R) (w : ℕ) → flight (calls.submit r) w ≡ flight r w
  pub room : (r : R) (e : Sqe) → (calls.push (calls.submit r) e).1 ≡ true
  pub waited : (r : R) (w : ℕ) → flight (calls.submit_with_args r).0 w ≡ flight r w
  pub completed : (r : R) (pool : ℕ → ℕ) → Completed flight r (calls.completions r pool)
  -- Of the app: every response fits in the length of a `send`.
  pub fits :
      (q : Request) (keep_alive include_body : Bool)
      → length (encode (calls.respond q) keep_alive include_body []) < 2 ^ 32

-- A connection, with what is in flight for it: one `recv` while it reads, one `send` while it writes.
abbrev pub recvs : ConnState → ℕ
recvs reading = 1
recvs writing = 0
recvs closed = 0

abbrev pub sends : ConnState → ℕ
sends reading = 0
sends writing = 1
sends closed = 0

abbrev pub Busy : Option Connection → ℕ → ℕ → Type 0
Busy none r s = (r ≡ 0) × (s ≡ 0)
Busy (some c) r s =
    Inv c
    × (c.state ≢ closed)
    × (length c.write_buf < 2 ^ 32)
    × (r ≡ recvs c.state)
    × (s ≡ sends c.state)

-- A descriptor that is accepted is an `i32` that is none of a connection's.
abbrev pub New : Outcome → List (ℕ × Connection) → Type 0
New (errno e) conns = Unit {0}
New (done fd) conns = (fd < 2 ^ 31) × (find_key fd conns ≡ none)

-- The word of a completion is one that the loop packs.
abbrev pub Known : Cqe → List (ℕ × Connection) → Type 0
Known c conns =
    (op : ℕ) × (fd : ℕ) × (op < 256)
    × (fd < 2 ^ 32)
    × (c.user_data ≡ pack op fd)
    × (op ≡ op_accept → New c.result conns)

module _ {R : Type 0} (calls : RingCalls R) (laws : RingLaws calls) where
  -- What is in flight with a word, with the completions that are not handled yet.
  abbrev pub due : List Cqe → Runtime R → ℕ → ℕ
  due cs rt w = carried w cs + laws.flight rt.ring w

  abbrev pub BusyAt : List Cqe → Runtime R → ℕ → Type 0
  BusyAt cs rt q =
      Busy (find_key q rt.conns) (due cs rt (pack op_recv q)) (due cs rt (pack op_send q))

  -- Each connection has the one operation in flight that its state waits for, and no descriptor
  -- without a connection has any.
  abbrev pub Driven : List Cqe → Runtime R → Type 0
  Driven cs rt =
      ((q : ℕ) → q < 2 ^ 32 → BusyAt cs rt q) × ((q : ℕ) → 2 ^ 32 ≤ q → find_key q rt.conns ≡ none)

  -- The completions of a batch, one after the other.
  abbrev pub Honest : Runtime R → List Cqe → Type 0
  Honest rt [] = Unit {0}
  Honest rt (c ∷ cs) = Known c rt.conns × Honest (on_cqe calls rt c) cs

  -- What an iteration gets from the kernel.
  abbrev pub GenuineBatch : Runtime R → R × (ℕ → ℕ) × List Cqe → Type 0
  GenuineBatch rt (r, pool, cqes) =
      Honest (record rt { ring = r; br = record rt.br { pool = pool } }) cqes

  abbrev pub GenuineWait : Runtime R → R × Wait → Type 0
  GenuineWait rt (r, woken) = GenuineBatch (record rt { ring = r }) (calls.completions r rt.br.pool)
  GenuineWait rt (r, retry) = Unit {0}

  abbrev pub Genuine : Runtime R → Type 0
  Genuine rt =
      let s = rearm calls rt.accept_armed rt in GenuineWait s (calls.submit_with_args s.ring)
