-- ===== src/Http/State.antt =====
-- core/src/http/request.rs: the state of `RequestParser`, and what `push` returns.
use rust_tcp_server.Base.{ℕ, [], Bytes}
use rust_tcp_server.Http.Headers.{Headers, no_headers}
use rust_tcp_server.Http.Method.{Method, unsupported, Version, http11}
use rust_tcp_server.Http.Request.{Request}
use rust_tcp_server.Http.Status.{ParseError}

pub data ParseStatus : Type 0 where
  incomplete : ParseStatus
  complete : Request → ℕ → ParseStatus
  failed : ParseError → ParseStatus

pub data State : Type 0 where
  at_request_line at_headers at_body done : State

pub record RequestParser : Type 0 where
  pub buf : Bytes
  pub state : State
  pub line_start : ℕ
  pub scanned : ℕ
  pub header_block_start : ℕ
  pub body_start : ℕ
  pub header_count : ℕ
  pub content_length : ℕ
  pub method : Method
  pub path : Bytes
  pub version : Version
  pub headers : Headers

unfoldable pub new_parser : RequestParser
new_parser = record {
  buf = [];
  state = at_request_line;
  line_start = 0;
  scanned = 0;
  header_block_start = 0;
  body_start = 0;
  header_count = 0;
  content_length = 0;
  method = unsupported;
  path = [];
  version = http11;
  headers = no_headers;
}

unfoldable pub reset : RequestParser → RequestParser
reset p = record p {
  state = at_request_line;
  line_start = 0;
  scanned = 0;
  header_block_start = 0;
  body_start = 0;
  header_count = 0;
  content_length = 0;
  method = unsupported;
  path = [];
  version = http11;
}

-- `Result<A, ParseError>`.
pub data Result (A : Type 0) : Type 0 where
  ok : A → Result A
  err : ParseError → Result A
