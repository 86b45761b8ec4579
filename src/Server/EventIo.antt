-- ===== src/Server/EventIo.antt =====
-- server/src/models/event_io.rs, `drive_io`: a socket driven through one event. A socket is a value
-- of `K`, and `read` and `write` are the calls of a non-blocking stream on it.
pub mod Answers
pub mod Delivery
pub mod Drive
pub mod Loop
pub mod Ends
use rust_tcp_server.Base.{ℕ, zero, suc, Bool, true, false, List, [], ◌∷◌, if◌then◌else◌, Bytes}
use rust_tcp_server.App.{Metrics, inc_errors}
use rust_tcp_server.Base.Rounds.{Round, again, ret, loop}
use rust_tcp_server.Connection.{
  ConnAction, want_read, want_write, close, Connection, pending_write, on_bytes, on_written,
}
use rust_tcp_server.Http.Parser.{is_empty}
use rust_tcp_server.Http.Request.{Request}
use rust_tcp_server.Http.Response.{Response}

-- `io::Result<A>` of a call on a socket, with the kinds of error that the source tells apart.
pub data IoResult (A : Type 0) : Type 0 where
  got : A → IoResult A
  would_block io_error : IoResult A

-- What `drive_io` changes: the socket and the connection of the slot, the counters of the app, and
-- its local action.
pub record Driven (K : Type 0) : Type 0 where
  pub stream : K
  pub conn : Connection
  pub metrics : Metrics
  pub action : ConnAction

-- The direction that the state of the connection asks for.
abbrev pub first_action : Connection → ConnAction
first_action c = if is_empty (pending_write c) then want_read else want_write

module _ {K : Type 0} (read : K → K × IoResult Bytes) (write : K → Bytes → K × IoResult ℕ)
    (respond : Request → Response) (now : ℕ) (drain : Bool) where
  abbrev pub go_on : Driven K → Driven K × Round ConnAction
  go_on d = if drain then (d, again) else (d, ret d.action)

  abbrev took_in : Driven K → Connection × ConnAction → Driven K × Round ConnAction
  took_in d (c, a) = go_on (record d { conn = c; action = a })

  abbrev pub after_read : Driven K → K × IoResult Bytes → Driven K × Round ConnAction
  after_read d (k, got []) = (record d { stream = k }, ret close)
  after_read d (k, got (b ∷ bs)) =
      took_in (record d { stream = k }) (on_bytes respond d.conn (b ∷ bs))
  after_read d (k, would_block) = (record d { stream = k }, ret want_read)
  after_read d (k, io_error) = (record d { stream = k; metrics = inc_errors d.metrics }, ret close)

  -- A response that is not fully sent waits for the next event, drained or not.
  abbrev pub sent_out : Driven K → Connection × ConnAction → Driven K × Round ConnAction
  sent_out d (c, want_write) = (record d { conn = c; action = want_write }, ret want_write)
  sent_out d (c, want_read) = go_on (record d { conn = c; action = want_read })
  sent_out d (c, close) = go_on (record d { conn = c; action = close })

  abbrev pub after_write : Driven K → K × IoResult ℕ → Driven K × Round ConnAction
  after_write d (k, got zero) = (record d { stream = k }, ret close)
  after_write d (k, got (suc n)) =
      sent_out (record d { stream = k }) (on_written now d.conn (suc n))
  after_write d (k, would_block) = (record d { stream = k }, ret want_write)
  after_write d (k, io_error) = (record d { stream = k; metrics = inc_errors d.metrics }, ret close)

  abbrev pub write_pending : Driven K → Bytes → Driven K × Round ConnAction
  write_pending d [] = (d, ret want_read)
  write_pending d (b ∷ bs) = after_write d (write d.stream (b ∷ bs))

  abbrev pub io_in : ConnAction → Driven K → Driven K × Round ConnAction
  io_in want_read d = after_read d (read d.stream)
  io_in want_write d = write_pending d (pending_write d.conn)
  io_in close d = (d, ret close)

  unfoldable pub io_step : Driven K → Driven K × Round ConnAction
  io_step d = io_in d.action d

  -- Every round but the last is a call that moves bytes: `fuel` is one more than the socket can move.
  unfoldable pub drive_io : ℕ → K → Connection → Metrics → Driven K × Round ConnAction
  unfolding io_step loop
  drive_io fuel k c metrics =
      loop fuel io_step
        (record { stream = k; conn = c; metrics = metrics; action = first_action c })
