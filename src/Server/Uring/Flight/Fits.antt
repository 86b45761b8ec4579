-- ===== src/Server/Uring/Flight/Fits.antt =====
-- Every answer fits in the length of a `send`, if those of the app do.
use rust_tcp_server.Base.{ℕ, ◌<◌, ◌^◌, refl, [], false, true, Bytes, Bool, length, ltb→lt, arith}
use rust_tcp_server.Connection.{
  ConnState, reading, writing, closed, Connection, on_bytes, on_bytes_in, on_written, on_written_in,
  error_response, handle_status, start_writing,
}
use rust_tcp_server.Http.Headers.{insert_header}
use rust_tcp_server.Http.Parser.{push}
use rust_tcp_server.Http.Request.{Request}
use rust_tcp_server.Http.Response.{
  Response, new_response, text_response, write_digits, write_usize, is_owned, write_fields, encode,
}
use rust_tcp_server.Http.State.{ParseStatus, incomplete, complete, failed}
use rust_tcp_server.Http.Status.{
  ParseError, malformed_request_line, unsupported_version, malformed_header, request_line_too_long,
  headers_too_large, too_many_headers, body_too_large, error_status, reason,
}
use rust_tcp_server.Text.Ascii.{to_ascii_lowercase, eq_ignore_ascii_case}

-- The answer to a parse error is short.
error_response_fits : (e : ParseError) → length (encode (error_response e) false true []) < 2 ^ 32
unfolding encode error_response text_response new_response insert_header write_fields write_usize
    write_digits is_owned eq_ignore_ascii_case to_ascii_lowercase error_status reason
error_response_fits malformed_request_line = ltb→lt _ _ refl
error_response_fits unsupported_version = ltb→lt _ _ refl
error_response_fits malformed_header = ltb→lt _ _ refl
error_response_fits request_line_too_long = ltb→lt _ _ refl
error_response_fits headers_too_large = ltb→lt _ _ refl
error_response_fits too_many_headers = ltb→lt _ _ refl
error_response_fits body_too_large = ltb→lt _ _ refl

module _ (respond : Request → Response)
    (fits : (q : Request) (keep_alive include_body : Bool)
      → length (encode (respond q) keep_alive include_body []) < 2 ^ 32) where
  handle_status_fits :
      (c : Connection) (s : ParseStatus)
      → length c.write_buf < 2 ^ 32
      → length (handle_status respond c s).0.write_buf < 2 ^ 32
  unfolding handle_status start_writing
  handle_status_fits c incomplete b = b
  handle_status_fits c (complete q n) b = fits q _ _
  handle_status_fits c (failed e) b = error_response_fits e

  pub on_bytes_fits :
      (c : Connection) (bytes : Bytes)
      → length c.write_buf < 2 ^ 32
      → length (on_bytes respond c bytes).0.write_buf < 2 ^ 32
  unfolding on_bytes
  on_bytes_fits c bytes b = go c.state
    where
      go : (s : ConnState) → length (on_bytes_in respond s c bytes).0.write_buf < 2 ^ 32
      go reading =
          handle_status_fits (record c { parser = (push c.parser bytes).0 }) (push c.parser bytes).1
            b
      go writing = b
      go closed = b

pub on_written_fits :
    (now : ℕ) (c : Connection) (n : ℕ)
    → length c.write_buf < 2 ^ 32
    → length (on_written now c n).0.write_buf < 2 ^ 32
unfolding on_written
on_written_fits now c n b = go c.state
  where
    go : (s : ConnState) → length (on_written_in s now c n).0.write_buf < 2 ^ 32
    go reading = b
    go writing = ground arith
    go closed = b
