-- ===== src/Server/Blocking.antt =====
-- server/src/models/blocking.rs, `serve_connection`: one connection served to its end on a blocking
-- stream. The time at which a write returned is read off the stream that it leaves.
pub mod Delivery
use rust_tcp_server.Base.{ℕ, Bool, true, false, [], ◌∷◌, Bytes}
use rust_tcp_server.Base.Rounds.{Round, again, ret, loop}
use rust_tcp_server.Connection.{
  ConnAction, want_read, want_write, close, Connection, new_connection, pending_write, on_bytes,
  on_written,
}
use rust_tcp_server.Http.Request.{Request}
use rust_tcp_server.Http.Response.{Response}
use rust_tcp_server.Server.EventIo.{IoResult, got, would_block, io_error}

pub record Serving (K : Type 0) : Type 0 where
  pub stream : K
  pub conn : Connection
  pub action : ConnAction

module _ {K : Type 0} (read : K → K × IoResult Bytes) (write : K → Bytes → K × IoResult ℕ)
    (clock : K → ℕ) (respond : Request → Response) where
  abbrev pub turned : K → Connection × ConnAction → Serving K × Round Bool
  turned k (c, a) = (record { stream = k; conn = c; action = a }, again)

  -- `true` is the end of the connection, and `false` the I/O error; a timeout is an error too.
  abbrev pub serve_read : Serving K → K × IoResult Bytes → Serving K × Round Bool
  serve_read d (k, got []) = (record d { stream = k }, ret true)
  serve_read d (k, got (b ∷ bs)) = turned k (on_bytes respond d.conn (b ∷ bs))
  serve_read d (k, would_block) = (record d { stream = k }, ret false)
  serve_read d (k, io_error) = (record d { stream = k }, ret false)

  abbrev pub serve_write : Serving K → K × IoResult ℕ → Serving K × Round Bool
  serve_write d (k, got n) = turned k (on_written (clock k) d.conn n)
  serve_write d (k, would_block) = (record d { stream = k }, ret false)
  serve_write d (k, io_error) = (record d { stream = k }, ret false)

  abbrev pub serve_in : ConnAction → Serving K → Serving K × Round Bool
  serve_in want_read d = serve_read d (read d.stream)
  serve_in want_write d = serve_write d (write d.stream (pending_write d.conn))
  serve_in close d = (d, ret true)

  unfoldable pub serve_step : Serving K → Serving K × Round Bool
  serve_step d = serve_in d.action d

  -- Every round but the last is a call that the stream answers.
  unfoldable pub serve_connection : ℕ → ℕ → K → Serving K × Round Bool
  unfolding serve_step loop new_connection
  serve_connection fuel read_timeout k =
      loop fuel serve_step
        (record { stream = k; conn = new_connection (clock k) read_timeout; action = want_read })
