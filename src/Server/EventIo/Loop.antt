-- ===== src/Server/EventIo/Loop.antt =====
-- The loop of `drive_io` ends, whatever property its calls keep.
use rust_tcp_server.Base.{
  ℕ, zero, suc, ◌<◌, ◌≡◌, ◌≢◌, refl, sym, ap, ◌∙◌, Bool, Bool-cases, inl, inr, [], ◌∷◌,
  if◌then◌else◌, arith, Bytes, length,
}
use rust_tcp_server.App.{Metrics}
use rust_tcp_server.Base.Extension.{Kind, unclaimed, Falls, loop_returns}
use rust_tcp_server.Base.Rounds.{ret, loop-Ends}
use rust_tcp_server.Connection.Actions.{pending_write_reading, pending_write_writing}
use rust_tcp_server.Connection.Invariant.{Inv}
use rust_tcp_server.Connection.{
  ConnAction, want_read, want_write, close, ConnState, reading, writing, closed, Connection,
  action_in, pending_write, on_bytes, on_written,
}
use rust_tcp_server.Http.Parser.{is_empty}
use rust_tcp_server.Http.Request.{Request}
use rust_tcp_server.Http.Response.{Response}
use rust_tcp_server.Server.EventIo.Drive.{ReadKeeps, WriteKeeps, Going, Left, io_step-Ends}
use rust_tcp_server.Server.EventIo.{
  IoResult, got, would_block, io_error, Driven, first_action, go_on, sent_out, after_read,
  after_write, write_pending, io_in, io_step, drive_io,
}

-- A call that moves bytes leaves less for the socket to move: `moves` bounds the calls that can
-- succeed before one would block, on what is queued and on the room there is.
module _ {K : Type 0} (moves : K → ℕ) where
  abbrev pub ReadMoves : K → K × IoResult Bytes → Type 0
  ReadMoves k (j, got (b ∷ bs)) = moves j < moves k
  ReadMoves k (j, _) = Unit {0}

  abbrev pub WriteMoves : K → K × IoResult ℕ → Type 0
  WriteMoves k (j, got (suc n)) = moves j < moves k
  WriteMoves k (j, _) = Unit {0}

module _ {K : Type 0} (read : K → K × IoResult Bytes) (write : K → Bytes → K × IoResult ℕ)
    (moves : K → ℕ) (read_moves : (k : K) → ReadMoves moves k (read k))
    (write_moves : (k : K) (p : Bytes) → WriteMoves moves k (write k p))
    (respond : Request → Response) (now : ℕ) (drain : Bool) where
  abbrev no_wait : ConnAction → Kind
  no_wait a = unclaimed

  abbrev room : Driven K → ℕ
  room d = moves d.stream

  abbrev Any : Driven K → Type 0
  Any d = Unit {0}

  go_on-Falls :
      (d t : Driven K)
      → room t < room d
      → Falls no_wait Any room d (go_on read write respond now drain t)
  go_on-Falls d t l = elim (Bool-cases drain) [ inl e ↦ rw e (tt, l) | inr e ↦ rw e (λ k. cc) ]

  after_read-Falls :
      (d : Driven K) (x : K × IoResult Bytes)
      → ReadMoves moves d.stream x
      → Falls no_wait Any room d (after_read read write respond now drain d x)
  after_read-Falls d (k, got []) l = λ e. cc
  after_read-Falls d (k, got (b ∷ bs)) l =
      let x = on_bytes respond d.conn (b ∷ bs) in
      go_on-Falls d (record d { stream = k; conn = x.0; action = x.1 }) l
  after_read-Falls d (k, would_block) l = λ e. cc
  after_read-Falls d (k, io_error) l = λ e. cc

  sent_out-Falls :
      (d t : Driven K) (c : Connection) (a : ConnAction)
      → room t < room d
      → Falls no_wait Any room d (sent_out read write respond now drain t (c, a))
  sent_out-Falls d t c want_write l = λ e. cc
  sent_out-Falls d t c want_read l = go_on-Falls d (record t { conn = c; action = want_read }) l
  sent_out-Falls d t c close l = go_on-Falls d (record t { conn = c; action = close }) l

  write_pending-Falls :
      (d : Driven K) (p : Bytes)
      → Falls no_wait Any room d (write_pending read write respond now drain d p)
  write_pending-Falls d [] = λ e. cc
  write_pending-Falls d (b ∷ bs) = go (write d.stream (b ∷ bs)) (write_moves d.stream (b ∷ bs))
    where
      go :
          (x : K × IoResult ℕ)
          → WriteMoves moves d.stream x
          → Falls no_wait Any room d (after_write read write respond now drain d x)
      go (k, got zero) l = λ e. cc
      go (k, got (suc n)) l =
          let x = on_written now d.conn (suc n) in
          sent_out-Falls d (record d { stream = k }) x.0 x.1 l
      go (k, would_block) l = λ e. cc
      go (k, io_error) l = λ e. cc

  io_in-Falls :
      (a : ConnAction) (d : Driven K)
      → Falls no_wait Any room d (io_in read write respond now drain a d)
  io_in-Falls want_read d = after_read-Falls d (read d.stream) (read_moves d.stream)
  io_in-Falls want_write d = write_pending-Falls d (pending_write d.conn)
  io_in-Falls close d = λ e. cc

  io_step-Falls :
      (d : Driven K) → Any d → Falls no_wait Any room d (io_step read write respond now drain d)
  unfolding io_step
  io_step-Falls d t = io_in-Falls d.action d

first_action_lem : (c : Connection) → Inv c → c.state ≢ closed → first_action c ≡ action_in c.state
first_action_lem c v n = go c.state refl
  where
    some_bytes :
        (p : Bytes) → 0 < length p → (if is_empty p then want_read else want_write) ≡ want_write
    some_bytes [] l = absurd (omega arith)
    some_bytes (b ∷ bs) l = refl

    go : (s : ConnState) → c.state ≡ s → first_action c ≡ action_in c.state
    go reading e =
        ap (λ p. if is_empty p then want_read else want_write) (pending_write_reading c e)
        ∙ ap action_in (sym e)
    go writing e = some_bytes (pending_write c) (pending_write_writing c v e) ∙ ap action_in (sym e)
    go closed e = absurd (n e)

-- With fuel for one call more than the socket can serve, an event ends, with the property kept.
pub drive_io-Left :
    {K : Type 0} (read : K → K × IoResult Bytes) (write : K → Bytes → K × IoResult ℕ)
    (moves : K → ℕ) (read_moves : (k : K) → ReadMoves moves k (read k))
    (write_moves : (k : K) (p : Bytes) → WriteMoves moves k (write k p))
    (respond : Request → Response) (now : ℕ) (drain : Bool) (Told : K → Connection → Type 0)
    (reads : (k : K) (c : Connection)
      → c.state ≡ reading
      → Told k c
      → ReadKeeps Told respond now c (read k))
    (writes : (k : K) (c : Connection)
      → Inv c
      → c.state ≡ writing
      → Told k c
      → WriteKeeps Told respond now c (write k (pending_write c)))
    (fuel : ℕ) (k : K) (c : Connection) (metrics : Metrics)
    → Inv c
    → c.state ≢ closed
    → moves k < fuel
    → Told k c
    → (d : Driven K) × (a : ConnAction) × (drive_io read write respond now drain fuel k c metrics
        ≡ (d, ret a))
      × Left read write respond now drain Told reads writes a d
unfolding drive_io
drive_io-Left {K} read write moves read_moves write_moves respond now drain Told reads writes fuel k
      c metrics v n l h =
    let d : Driven K = record {
      stream = k;
      conn = c;
      metrics = metrics;
      action = first_action c;
    } in
    let step = io_step read write respond now drain in
    let (t, a, e) =
      loop_returns (λ a. unclaimed) (λ d. Unit {0}) (λ d. moves d.stream) step
        (io_step-Falls read write moves read_moves write_moves respond now drain) fuel d tt l in
    let kept =
      loop-Ends (Going read write respond now drain Told reads writes)
        (Left read write respond now drain Told reads writes) step
        (io_step-Ends read write respond now drain Told reads writes) fuel d
        (v, first_action_lem c v n, h) in
    (t, a, e, rw e at kept)

-- As far as a loop looks that only minds its connections.
any_read :
    {K : Type 0} (respond : Request → Response) (now : ℕ) (c : Connection) (x : K × IoResult Bytes)
    → ReadKeeps (λ k c. Unit {0}) respond now c x
any_read respond now c (j, got []) = tt
any_read respond now c (j, got (b ∷ bs)) = tt
any_read respond now c (j, would_block) = tt
any_read respond now c (j, io_error) = tt

any_write :
    {K : Type 0} (respond : Request → Response) (now : ℕ) (c : Connection) (x : K × IoResult ℕ)
    → WriteKeeps (λ k c. Unit {0}) respond now c x
any_write respond now c (j, got zero) = tt
any_write respond now c (j, got (suc n)) = tt
any_write respond now c (j, would_block) = tt
any_write respond now c (j, io_error) = tt

pub drive_io_ends :
    {K : Type 0} (read : K → K × IoResult Bytes) (write : K → Bytes → K × IoResult ℕ)
    (moves : K → ℕ) (read_moves : (k : K) → ReadMoves moves k (read k))
    (write_moves : (k : K) (p : Bytes) → WriteMoves moves k (write k p))
    (respond : Request → Response) (now : ℕ) (drain : Bool) (fuel : ℕ) (k : K) (c : Connection)
    (metrics : Metrics)
    → Inv c
    → c.state ≢ closed
    → moves k < fuel
    → (d : Driven K) × (a : ConnAction) × (drive_io read write respond now drain fuel k c metrics
        ≡ (d, ret a))
      × Inv d.conn
      × (a ≢ close → a ≡ action_in d.conn.state)
drive_io_ends {K} read write moves read_moves write_moves respond now drain fuel k c metrics v n l =
    let (d, a, e, h) =
      drive_io-Left read write moves read_moves write_moves respond now drain (λ k c. Unit {0})
        (λ k c _ _. any_read respond now c (read k))
        (λ k c _ _ _. any_write respond now c (write k (pending_write c))) fuel k c metrics v n l
        tt in
    (d, a, e, h.0, h.2)
