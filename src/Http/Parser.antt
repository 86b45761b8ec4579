-- ===== src/Http/Parser.antt =====
-- core/src/http/request.rs, `RequestParser`: the incremental parser. Its loops run a step until the
-- step returns, on fuel (Base.Rounds).
pub mod Search
pub mod Bounds
pub mod Fields
pub mod Advance
pub mod Growth
pub mod Chunks
pub mod Ceilings
pub mod Busy
pub mod Stream
pub mod Grammar
pub mod Accepts
pub mod Block
pub mod RequestLine
pub mod Messages
pub mod RoundTrip
pub mod Refusals
use rust_tcp_server.Base.{
  ℕ, zero, suc, ◌+◌, ◌-◌, ◌<◌, max, Bool, true, false, ◌&&◌, not, List, [], ◌∷◌, ◌++◌, Option, none,
  some, ltb, leb, ◌==◌, if◌then◌else◌, Bytes, codes, length, take, drop, slice,
}
use rust_tcp_server.Base.Rounds.{Round, again, ret, returned, loop}
use rust_tcp_server.Http.Headers.{Headers, no_headers, get_header, insert_header}
use rust_tcp_server.Http.Method.{Method, unsupported, Version, http11, parse_method, parse_version}
use rust_tcp_server.Http.Request.{Request}
use rust_tcp_server.Http.State.{
  ParseStatus, incomplete, complete, failed, State, at_request_line, at_headers, at_body, done,
  RequestParser, Result, ok, err,
}
use rust_tcp_server.Http.Status.{
  ParseError, malformed_request_line, unsupported_version, malformed_header, request_line_too_long,
  headers_too_large, too_many_headers, body_too_large,
}
use rust_tcp_server.Limits.{max_request_line, max_header_bytes, max_header_count, max_body_bytes}
use rust_tcp_server.Text.Number.{parse_usize}
use rust_tcp_server.Text.Split.{split, position}
use rust_tcp_server.Text.Trim.{trim}
use rust_tcp_server.Text.Utf8.{is_utf8}

-- The search of `next_crlf`, at index `i` with the bytes from there on.
pub data Scan : Type 0 where
  found : ℕ → Scan
  stopped : ℕ → Scan

unfoldable pub scan_crlf : ℕ → Bytes → Scan
scan_crlf i [] = stopped i
scan_crlf i (c ∷ []) = stopped i
scan_crlf i (c ∷ d ∷ r) =
    let rest = scan_crlf (i + 1) (d ∷ r) in if c == b'\r' && d == b'\n' then found i else rest

abbrev pub after_scan : RequestParser → Scan → RequestParser × Option ℕ
after_scan p (found eol) = (p, some eol)
after_scan p (stopped i) = (record p { scanned = i }, none)

unfoldable pub next_crlf : RequestParser → RequestParser × Option ℕ
next_crlf p = let i = max p.scanned p.line_start in after_scan p (scan_crlf i (drop i p.buf))

abbrev pub is_empty : Bytes → Bool
is_empty [] = true
is_empty (c ∷ r) = false

-- The match on `parts.next()`, four times: three parts, none of them empty.
unfoldable pub three_parts : List Bytes → Option (Bytes × Bytes × Bytes)
three_parts (m ∷ p ∷ v ∷ []) =
    if not (is_empty m) && not (is_empty p) && not (is_empty v) then some (m, p, v) else none
three_parts _ = none

-- `parse_request_line` from its three parts on.
abbrev pub accept_parts :
    RequestParser → ℕ → Option (Bytes × Bytes × Bytes) → RequestParser × Result Bool
accept_parts p eol none = (p, err malformed_request_line)
accept_parts p eol (some (m, path, v)) =
    if is_utf8 path
    then (elim (parse_version v) [
      | none ↦ (p, err unsupported_version)
      | some version ↦ (
        record p {
          method = parse_method m;
          path = path;
          version = version;
          line_start = eol + 2;
          scanned = eol + 2;
          header_block_start = eol + 2;
          state = at_headers;
        },
        ok true,
      )
    ])
    else (p, err malformed_request_line)

unfoldable pub request_line_at : RequestParser × Option ℕ → RequestParser × Result Bool
request_line_at (p, none) =
    if ltb max_request_line (length p.buf - p.line_start)
    then (p, err request_line_too_long)
    else (p, ok false)
request_line_at (p, some eol) =
    if ltb max_request_line (eol - p.line_start)
    then (p, err request_line_too_long)
    else accept_parts p eol (three_parts (split b' ' (slice p.line_start eol p.buf)))

unfoldable pub parse_request_line : RequestParser → RequestParser × Result Bool
unfolding request_line_at
parse_request_line p = request_line_at (next_crlf p)

abbrev declared : RequestParser → Option ℕ → RequestParser × Result Bool
declared p none = (p, err malformed_header)
declared p (some n) =
    if ltb max_body_bytes n
    then (p, err body_too_large)
    else (record p { content_length = n; state = at_body }, ok true)

-- `determine_content_length()?`, then the state of the body.
abbrev end_of_headers : RequestParser → Option Bytes → RequestParser × Result Bool
end_of_headers p none = (record p { content_length = 0; state = at_body }, ok true)
end_of_headers p (some v) = declared p (parse_usize (trim v))

unfoldable pub determine_content_length : RequestParser → RequestParser × Result Bool
determine_content_length p = end_of_headers p (get_header p.headers (codes "content-length"))

-- One field line, as split at its colon.
abbrev pub accept_field : RequestParser → ℕ → Bytes → Bytes → RequestParser × Round (Result Bool)
accept_field p eol name value =
    if not (is_utf8 name)
    then (p, ret (err malformed_header))
    else if not (is_utf8 value)
    then (p, ret (err malformed_header))
    else if is_empty (trim name)
    then (p, ret (err malformed_header))
    else if ltb max_header_count (p.header_count + 1)
    then (record p { header_count = p.header_count + 1 }, ret (err too_many_headers))
    else (
      record p {
        header_count = p.header_count + 1;
        headers = insert_header p.headers (trim name) (trim value);
        line_start = eol + 2;
        scanned = eol + 2;
      },
      again,
    )

abbrev pub accept_line : RequestParser → ℕ → Bytes → Option ℕ → RequestParser × Round (Result Bool)
accept_line p eol line none = (p, ret (err malformed_header))
accept_line p eol line (some colon) = accept_field p eol (take colon line) (drop (colon + 1) line)

-- The body of the loop of `parse_headers`, from the result of `next_crlf` on.
unfoldable pub header_at : RequestParser × Option ℕ → RequestParser × Round (Result Bool)
unfolding determine_content_length
header_at (p, none) =
    if ltb max_header_bytes (length p.buf - p.header_block_start)
    then (p, ret (err headers_too_large))
    else (p, ret (ok false))
header_at (p, some eol) =
    if ltb max_header_bytes (eol + 2 - p.header_block_start)
    then (p, ret (err headers_too_large))
    else if eol == p.line_start
    then returned (determine_content_length (record p { body_start = eol + 2 }))
    else (let line = slice p.line_start eol p.buf in accept_line p eol line (position b':' line))

unfoldable pub header_step : RequestParser → RequestParser × Round (Result Bool)
unfolding header_at
header_step p = header_at (next_crlf p)

-- Every round but the last counts one field, so these rounds are enough.
abbrev pub header_fuel : ℕ
header_fuel = suc (suc max_header_count)

unfoldable pub parse_headers : RequestParser → RequestParser × Round (Result Bool)
unfolding loop
parse_headers = loop header_fuel header_step

abbrev pub request_of : RequestParser → Request
request_of p = record {
  method = p.method;
  path = p.path;
  version = p.version;
  headers = p.headers;
  body = slice p.body_start (p.body_start + p.content_length) p.buf;
}

unfoldable pub parse_body : RequestParser → RequestParser × ParseStatus
parse_body p = if ltb (length p.buf - p.body_start) p.content_length then (p, incomplete) else (
  record p {
    path = [];
    headers = no_headers;
    buf = drop (p.body_start + p.content_length) p.buf;
    state = done;
  },
  complete (request_of p) (p.body_start + p.content_length),
)

-- How `advance` goes on from what a part returns; `fail` sets the state.
abbrev pub proceed : RequestParser × Round (Result Bool) → RequestParser × Round ParseStatus
proceed (p, again) = (p, again)
proceed (p, ret (ok true)) = (p, again)
proceed (p, ret (ok false)) = (p, ret incomplete)
proceed (p, ret (err e)) = (record p { state = done }, ret (failed e))

unfoldable pub advance_in : State → RequestParser → RequestParser × Round ParseStatus
advance_in at_request_line p = proceed (returned (parse_request_line p))
advance_in at_headers p = proceed (parse_headers p)
advance_in at_body p = returned (parse_body p)
advance_in done p = (p, ret incomplete)

abbrev pub advance_step : RequestParser → RequestParser × Round ParseStatus
advance_step p = advance_in p.state p

abbrev pub settle : RequestParser × Round ParseStatus → RequestParser × ParseStatus
settle (p, again) = (p, incomplete)
settle (p, ret s) = (p, s)

-- The state moves on in every round but the last, so four rounds are enough.
unfoldable pub advance : RequestParser → RequestParser × ParseStatus
unfolding loop
advance p = settle (loop 4 advance_step p)

unfoldable pub push : RequestParser → Bytes → RequestParser × ParseStatus
push p bytes = advance (record p { buf = p.buf ++ bytes })
