-- ===== src/Tests/Requests.antt =====
-- The unit tests of core/src/http/request.rs.
use rust_tcp_server.Base.{◌≡◌, refl, [], ◌∷◌, ◌++◌, Bytes, codes}
use rust_tcp_server.Base.Rounds.{loop}
use rust_tcp_server.Http.Headers.{get_header, insert_header}
use rust_tcp_server.Http.Method.{parse_method, parse_version, get, http11}
use rust_tcp_server.Http.Parser.{
  push, advance, advance_in, parse_request_line, next_crlf, scan_crlf, three_parts, parse_headers,
  header_step, parse_body,
}
use rust_tcp_server.Text.Ascii.{eq_ignore_ascii_case}
use rust_tcp_server.Text.Number.{parse_usize}
use rust_tcp_server.Text.Split.{split, position}
use rust_tcp_server.Text.Trim.{trim}
use rust_tcp_server.Text.Utf8.{is_utf8}
use rust_tcp_server.Http.Request.{Request}
use rust_tcp_server.Http.State.{ParseStatus, complete, new_parser, reset, RequestParser}

abbrev line : Bytes → Bytes
line s = s ++ b'\r' ∷ b'\n' ∷ []

abbrev pub hello : Bytes
hello =
    line (codes "GET /a HTTP/1.1") ++ line (codes "Content-Length:  5 ") ++ line [] ++ codes "hello"

abbrev pub hello_request : Request
hello_request = record {
  method = get;
  path = codes "/a";
  version = http11;
  headers = record { inner = (codes "Content-Length", codes "5") ∷ [] };
  body = codes "hello";
}

-- `push`, with all that it calls.
unfoldable pub push_runs : RequestParser → Bytes → RequestParser × ParseStatus
unfolding push advance advance_in parse_request_line next_crlf scan_crlf three_parts split is_utf8
    parse_version parse_method parse_headers header_step position trim get_header insert_header
    parse_usize eq_ignore_ascii_case parse_body loop new_parser reset
push_runs = push

push-hello : (push new_parser (hello ++ codes "GET")).1 ≡ complete hello_request 45
unfolding push_runs
push-hello = refl
