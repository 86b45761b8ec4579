-- ===== src/Connection/Refusals.antt =====
-- A connection whose client declares a length that it cannot have.
use rust_tcp_server.Base.{
  ℕ, ◌+◌, ◌≡◌, refl, true, false, ltb, some, [], arith, Bytes, codes, length,
}
use rust_tcp_server.Connection.{
  ConnAction, want_write, close, Connection, new_connection, pending_write, on_bytes, on_written,
  error_response, handle_status, start_writing,
}
use rust_tcp_server.Http.Headers.{get_header}
use rust_tcp_server.Http.Method.{Version}
use rust_tcp_server.Http.Parser.Messages.{Message, sent, declared_length, fields_of}
use rust_tcp_server.Http.Parser.Refusals.{length_error, IsHead, push_refused}
use rust_tcp_server.Http.Parser.{push}
use rust_tcp_server.Http.Request.{Request}
use rust_tcp_server.Http.Response.{Response, encode}
use rust_tcp_server.Http.State.{ParseStatus, failed, new_parser}
use rust_tcp_server.Http.Status.{ParseError}

module _ (respond : Request → Response) where
  -- What is left of a connection that is refused, when its answer is written at a time.
  abbrev pub Refuses : Connection × ConnAction → ParseError → ℕ → Type 0
  Refuses r e later =
      (r.1 ≡ want_write)
      × (pending_write r.0 ≡ encode (error_response e) false true [])
      × ((on_written later r.0 (length (pending_write r.0))).1 ≡ close)

  failed-Refuses :
      (c : Connection) (s : ParseStatus) (e : ParseError) (later : ℕ)
      → s ≡ failed e
      → Refuses (handle_status respond c s) e later
  unfolding handle_status start_writing pending_write on_written
  failed-Refuses c s e later h = rw h (
    refl,
    refl,
    (let l = length (encode (error_response e) false true []) in
        let all : ltb (0 + l) l ≡ false = ground arith in rw all refl),
  )

  -- A client whose first message is well formed but for the length that it declares is sent the
  -- answer to that error and nothing else, as soon as its header block is there and whatever
  -- follows, and is closed when that is written: the error of a malformed header if the length is
  -- no number, and that of a body that is too large if it is above the ceiling.
  pub on_bytes_refused :
      (m : Message) (v : Version) (rest : Bytes) (e : ParseError) (now timeout later : ℕ)
      → IsHead m v
      → length_error (declared_length (get_header (fields_of m) (codes "content-length"))) ≡ some e
      → Refuses (on_bytes respond (new_connection now timeout) (sent m rest)) e later
  unfolding on_bytes new_connection
  on_bytes_refused m v rest e now timeout later h bad =
      failed-Refuses
        (record (new_connection now timeout) { parser = (push new_parser (sent m rest)).0 })
        (push new_parser (sent m rest)).1 e later (push_refused m v rest e h bad)
