-- ===== src/Connection/Invariant.antt =====
-- The invariant of a connection, and that `on_bytes` and `on_written` keep it.
use rust_tcp_server.Base.{
  ℕ, ◌+◌, ◌<◌, ◌≡◌, ◌≢◌, refl, ap, ◌⊎◌, inl, inr, Bool, true, false, not, [], ltb, Bytes,
  Bool-cases, length, arith, ltb→lt,
}
use rust_tcp_server.Connection.{
  ConnState, reading, writing, closed, Connection, new_connection, start_writing, error_response,
  handle_status, on_bytes, on_written, on_bytes_in, on_written_in,
}
use rust_tcp_server.Http.Headers.{no_headers}
use rust_tcp_server.Http.Parser.Bounds.{IsValid}
use rust_tcp_server.Http.Parser.Busy.{push_busy}
use rust_tcp_server.Http.Parser.Ceilings.{StatusPost, push-Post, new_parser-IsValid, reset-IsValid}
use rust_tcp_server.Http.Parser.{push}
use rust_tcp_server.Http.Request.{Request}
use rust_tcp_server.Http.Response.Layout.{encode_layout}
use rust_tcp_server.Http.Response.{Response, encode}
use rust_tcp_server.Http.State.{
  done, RequestParser, reset, ParseStatus, incomplete, complete, failed,
}

-- A reading connection has a parser at work; a writing one has bytes left, and a parser that is
-- ready for a reset unless the connection is to be closed.
abbrev pub InvIn : ConnState → Connection → Type 0
InvIn reading c = IsValid c.parser × (c.parser.state ≢ done)
InvIn writing c =
    (c.write_pos < length c.write_buf)
    × ((c.close_after_write ≡ true) ⊎ ((c.parser.state ≡ done) × (c.parser.headers ≡ no_headers)))
InvIn closed c = Unit {0}

abbrev pub Inv : Connection → Type 0
Inv c = InvIn c.state c

pub new_connection-Inv : (now timeout : ℕ) → Inv (new_connection now timeout)
unfolding new_connection
new_connection-Inv now timeout = (new_parser-IsValid, λ e. cc)

-- Every response has bytes to write.
encode-nonempty :
    (r : Response) (keep_alive include_body : Bool)
    → 0 < length (encode r keep_alive include_body [])
encode-nonempty r keep_alive include_body =
    rw (encode_layout r keep_alive include_body []) (omega arith)

start_writing-Inv :
    (c : Connection) (r : Response) (keep_alive include_body : Bool)
    → (keep_alive ≡ false) ⊎ ((c.parser.state ≡ done) × (c.parser.headers ≡ no_headers))
    → Inv (start_writing c r keep_alive include_body)
unfolding start_writing
start_writing-Inv c r keep_alive include_body (inl e) =
    (encode-nonempty r keep_alive include_body, inl (ap not e))
start_writing-Inv c r keep_alive include_body (inr d) =
    (encode-nonempty r keep_alive include_body, inr d)

module _ (respond : Request → Response) where
  handle_status-Inv :
      (c : Connection) (s : ParseStatus)
      → StatusPost s c.parser
      → (s ≡ incomplete → c.parser.state ≢ done)
      → Inv (handle_status respond c s).0
  unfolding handle_status
  handle_status-Inv c incomplete p n = (p.0, n refl)
  handle_status-Inv c (complete r k) p n = start_writing-Inv c (respond r) _ _ (inr (p.0, p.1))
  handle_status-Inv c (failed e) p n = start_writing-Inv c (error_response e) false true (inl refl)

  on_bytes_in-Inv :
      (s : ConnState) (c : Connection) (bytes : Bytes)
      → c.state ≡ s
      → InvIn s c
      → Inv (on_bytes_in respond s c bytes).0
  on_bytes_in-Inv reading c bytes e (v, n) =
      handle_status-Inv (record c { parser = (push c.parser bytes).0 }) (push c.parser bytes).1
        (push-Post c.parser bytes v)
        (λ d.
          push_busy c.parser (push c.parser bytes).0 bytes v n
            (λ i. ((push c.parser bytes).0, d i)))
  on_bytes_in-Inv writing c bytes e v = ground arith
  on_bytes_in-Inv closed c bytes e v = ground arith

  -- Whatever bytes come in, in whatever state, the connection keeps its invariant.
  pub on_bytes-Inv : (c : Connection) (bytes : Bytes) → Inv c → Inv (on_bytes respond c bytes).0
  unfolding on_bytes
  on_bytes-Inv c bytes v = on_bytes_in-Inv c.state c bytes refl v

reset_busy : (p : RequestParser) → (reset p).state ≢ done
unfolding reset
reset_busy p e = cc

on_written_in-Inv :
    (s : ConnState) (now : ℕ) (c : Connection) (n : ℕ)
    → c.state ≡ s
    → InvIn s c
    → Inv (on_written_in s now c n).0
on_written_in-Inv writing now c n e (low, flag) =
    elim (Bool-cases (ltb (c.write_pos + n) (length c.write_buf))) [
      | inl more ↦ rw (more, e) (ltb→lt _ _ more, flag)
      | inr all ↦ rw all (elim (Bool-cases c.close_after_write) [
        | inl last ↦ rw last tt
        | inr keep ↦ rw keep (elim flag [
          | inl last ↦ cc
          | inr (d, h) ↦ (reset-IsValid c.parser h, reset_busy c.parser)
        ])
      ])
    ]
on_written_in-Inv reading now c n e v = ground arith
on_written_in-Inv closed now c n e v = ground arith

-- Whatever count is reported as written, the connection keeps its invariant.
pub on_written-Inv : (now : ℕ) (c : Connection) (n : ℕ) → Inv c → Inv (on_written now c n).0
unfolding on_written
on_written-Inv now c n v = on_written_in-Inv c.state now c n refl v
