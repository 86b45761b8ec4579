-- ===== src/Connection.antt =====
-- core/src/conn.rs: the state machine of a connection. Instants and durations are numbers of one
-- unit, and the clock's reading is an argument where the source calls `Instant::now()`.
pub mod Answered
pub mod Invariant
pub mod Exchange
pub mod Pipelining
pub mod Actions
pub mod Refusals
use rust_tcp_server.Base.{
  ℕ, ◌+◌, Bool, true, false, not, [], ◌∷◌, ◌++◌, ltb, leb, if◌then◌else◌, Bytes, length, drop,
  codes,
}
use rust_tcp_server.App.{App, handle}
use rust_tcp_server.Http.Method.{head, same_method}
use rust_tcp_server.Http.Parser.{push}
use rust_tcp_server.Http.Request.{Request, wants_keep_alive}
use rust_tcp_server.Http.Response.{Response, text_response, write_usize, encode}
use rust_tcp_server.Http.State.{
  RequestParser, new_parser, reset, ParseStatus, incomplete, complete, failed,
}
use rust_tcp_server.Http.Status.{ParseError, StatusCode, error_status, reason}

pub data ConnAction : Type 0 where
  want_read want_write close : ConnAction

pub data ConnState : Type 0 where
  reading writing closed : ConnState

pub record Connection : Type 0 where
  pub parser : RequestParser
  pub state : ConnState
  pub write_buf : Bytes
  pub write_pos : ℕ
  pub close_after_write : Bool
  pub read_timeout : ℕ
  pub deadline : ℕ

unfoldable pub new_connection : ℕ → ℕ → Connection
unfolding new_parser
new_connection now read_timeout = record {
  parser = new_parser;
  state = reading;
  write_buf = [];
  write_pos = 0;
  close_after_write = false;
  read_timeout = read_timeout;
  deadline = now + read_timeout;
}

abbrev pub action_in : ConnState → ConnAction
action_in reading = want_read
action_in writing = want_write
action_in closed = close

abbrev pub pending_in : ConnState → Connection → Bytes
pending_in writing c = drop c.write_pos c.write_buf
pending_in reading c = []
pending_in closed c = []

unfoldable pub pending_write : Connection → Bytes
pending_write c = pending_in c.state c

unfoldable pub start_writing : Connection → Response → Bool → Bool → Connection
start_writing c response keep_alive include_body = record c {
  write_buf = encode response keep_alive include_body [];
  write_pos = 0;
  close_after_write = not keep_alive;
  state = writing;
}

-- `format!("{} {}\n", status.0, status.reason())` as the body of the answer to a parse error.
unfoldable pub error_response : ParseError → Response
error_response e =
    let status = error_status e in
    text_response status (write_usize [] status.code ++ (b' ' ∷ (reason status ++ b'\n' ∷ [])))

-- `on_bytes` and `handle_status` answer a request by `respond`, which is `App::handle`.
module _ (respond : Request → Response) where
  unfoldable pub handle_status : Connection → ParseStatus → Connection × ConnAction
  unfolding start_writing
  handle_status c incomplete = (record c { state = reading }, want_read)
  handle_status c (complete request n) = (
    start_writing c (respond request) (wants_keep_alive request)
        (not (same_method request.method head)),
    want_write,
  )
  handle_status c (failed e) = (start_writing c (error_response e) false true, want_write)

  abbrev pub parsed : Connection → RequestParser × ParseStatus → Connection × ConnAction
  parsed c (parser, status) = handle_status (record c { parser = parser }) status

  abbrev pub on_bytes_in : ConnState → Connection → Bytes → Connection × ConnAction
  on_bytes_in reading c bytes = parsed c (push c.parser bytes)
  on_bytes_in writing c bytes = (c, want_write)
  on_bytes_in closed c bytes = (c, close)

  unfoldable pub on_bytes : Connection → Bytes → Connection × ConnAction
  unfolding handle_status
  on_bytes c bytes = on_bytes_in c.state c bytes

-- The keep-alive end of `on_written`.
abbrev pub next_request : ℕ → Connection → Connection
next_request now c = record c {
  parser = reset c.parser;
  write_buf = [];
  write_pos = 0;
  state = reading;
  deadline = now + c.read_timeout;
}

abbrev pub written : ℕ → Connection → Connection × ConnAction
written now c =
    if ltb c.write_pos (length c.write_buf)
    then (c, want_write)
    else if c.close_after_write
    then (record c { state = closed }, close)
    else (next_request now c, want_read)

abbrev pub on_written_in : ConnState → ℕ → Connection → ℕ → Connection × ConnAction
on_written_in writing now c n = written now (record c { write_pos = c.write_pos + n })
on_written_in reading now c n = (c, want_read)
on_written_in closed now c n = (c, close)

unfoldable pub on_written : ℕ → Connection → ℕ → Connection × ConnAction
on_written now c n = on_written_in c.state now c n

unfoldable pub is_expired : Connection → ℕ → Bool
is_expired c now = leb c.deadline now
