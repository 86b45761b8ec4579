-- ===== src/Http/Parser/Ceilings.antt =====
-- What `push` returns with: the parser stays valid, what it holds and what it hands on is bounded.
use rust_tcp_server.Base.{
  ℕ, ◌+◌, ◌-◌, ◌≤◌, ◌≡◌, ◌≢◌, refl, ap, Bool, true, false, Option, some, none, [], arith, Bytes,
  length, length-take, length-drop, drop,
}
use rust_tcp_server.Base.Rounds.{ret, returned, Ends, loop-Ends}
use rust_tcp_server.Http.Headers.{no_headers}
use rust_tcp_server.Http.Parser.Advance.{parse_headers_returns}
use rust_tcp_server.Http.Parser.Bounds.{extend, Bounds, IsValid, Searches, next_crlf-Searches}
use rust_tcp_server.Http.Parser.Chunks.{extend-IsValid, advance_lem, advance_returns}
use rust_tcp_server.Http.Parser.Fields.{HeaderPost}
use rust_tcp_server.Http.Parser.{
  next_crlf, request_line_at, parse_request_line, parse_body, proceed, advance_in, advance_step,
  push,
}
use rust_tcp_server.Http.Request.{Request}
use rust_tcp_server.Http.State.{
  State, at_request_line, at_headers, at_body, done, RequestParser, Result, ok, err, ParseStatus,
  incomplete, complete, failed, new_parser, reset,
}
use rust_tcp_server.Limits.{max_request_line, max_header_bytes, max_header_count, max_body_bytes}

-- The most that a parser holds of a request that is not complete.
abbrev pub max_held : ℕ
max_held = max_request_line + 2 + max_header_bytes + max_body_bytes

abbrev pub Held : State → RequestParser → Type 0
Held done p = Unit {0}
Held _ p = length p.buf ≤ max_held

-- A request within the ceilings.
abbrev pub WithinLimits : Request → Type 0
WithinLimits r = (length r.headers.inner ≤ max_header_count) × (length r.body ≤ max_body_bytes)

abbrev pub StatusPost : ParseStatus → RequestParser → Type 0
StatusPost incomplete p = IsValid p × Held p.state p
StatusPost (complete r n) p = (p.state ≡ done) × (p.headers ≡ no_headers) × WithinLimits r
StatusPost (failed e) p = p.state ≡ done

request_line_at-Ends :
    (p : RequestParser) (r : RequestParser × Option ℕ)
    → p.state ≡ at_request_line
    → Bounds at_request_line p
    → Searches [] p r
    → Ends IsValid StatusPost (proceed (returned (request_line_at r)))
unfolding request_line_at
request_line_at-Ends p (q, none) s v w = ground arith
request_line_at-Ends p (q, some eol) s v w = ground arith

proceed-Ends :
    (q : RequestParser) (r : Result Bool)
    → HeaderPost r q
    → Ends IsValid StatusPost (proceed (q, ret r))
proceed-Ends q (ok true) h = ground arith
proceed-Ends q (ok false) h = ground arith
proceed-Ends q (err e) h = ground arith

parse_body-Ends :
    (p : RequestParser)
    → p.state ≡ at_body
    → Bounds at_body p
    → Ends IsValid StatusPost (returned (parse_body p))
unfolding parse_body
parse_body-Ends p s v = ground (
  arith,
  length-take (p.body_start + p.content_length - p.body_start) (drop p.body_start p.buf),
  length-drop p.body_start p.buf,
)

advance_in-Ends :
    (s : State) (p : RequestParser)
    → p.state ≡ s
    → Bounds s p
    → Ends IsValid StatusPost (advance_in s p)
unfolding advance_in
advance_in-Ends at_request_line p e v =
    unfold parse_request_line in
    request_line_at-Ends p (next_crlf p) e v (next_crlf-Searches [] p v.0)
advance_in-Ends at_headers p e v =
    let (q, r, d, post) = parse_headers_returns p (e, v) in rw d (proceed-Ends q r post)
advance_in-Ends at_body p e v = parse_body-Ends p e v
advance_in-Ends done p e v = ground arith

pub push-Post :
    (p : RequestParser) (bytes : Bytes) → IsValid p → StatusPost (push p bytes).1 (push p bytes).0
unfolding push
push-Post p bytes v =
    let p' = extend bytes p in
    let w = extend-IsValid bytes p v in
    let (q, s, e) = advance_returns p' w in
    rw (advance_lem p', e)
      (rw e at (
        loop-Ends IsValid StatusPost advance_step (λ u x. advance_in-Ends u.state u refl x) 4 p' w))

-- A parser that starts, or starts over after a completed request, is valid.
pub new_parser-IsValid : IsValid new_parser
unfolding new_parser
new_parser-IsValid = omega arith

pub reset-IsValid : (p : RequestParser) → p.headers ≡ no_headers → IsValid (reset p)
unfolding reset
reset-IsValid p h = ground arith

-- A push leaves the parser valid: every index that the next call reads stays within the buffer.
pub push-IsValid : (p : RequestParser) (bytes : Bytes) → IsValid p → IsValid (push p bytes).0
push-IsValid p bytes v = go (push p bytes).1 (push p bytes).0 (push-Post p bytes v)
  where
    go : (s : ParseStatus) (q : RequestParser) → StatusPost s q → IsValid q
    go incomplete q w = w.0
    go (complete r n) q w = ground arith
    go (failed e) q w = ground arith

-- Whatever a client sends, a parser that waits for more holds no more than the three ceilings
-- allow together, unless it waits for a reset.
pub push_held :
    (p q : RequestParser) (bytes : Bytes)
    → IsValid p
    → push p bytes ≡ (q, incomplete)
    → q.state ≢ done
    → length q.buf ≤ max_held
push_held p q bytes v e n = go q.state refl (rw e at (push-Post p bytes v)).1
  where
    go : (s : State) → q.state ≡ s → Held s q → length q.buf ≤ max_held
    go at_request_line d h = h
    go at_headers d h = h
    go at_body d h = h
    go done d h = absurd (n d)

-- A request that is handed on has no more fields and no more body than the ceilings allow.
pub push-WithinLimits :
    (p q : RequestParser) (bytes : Bytes) (r : Request) (n : ℕ)
    → IsValid p
    → push p bytes ≡ (q, complete r n)
    → WithinLimits r
push-WithinLimits p q bytes r n v e = (rw e at (push-Post p bytes v)).2

pub reset_fresh :
    (p : RequestParser) → p.headers ≡ no_headers → reset p ≡ record new_parser { buf = p.buf }
unfolding reset new_parser
reset_fresh p h = ap (λ hs. record new_parser { buf = p.buf; headers = hs }) h

-- After a completed request `reset` gives the parser that starts afresh on the bytes left over,
-- though it does not itself clear the header fields.
pub push-reset :
    (p q : RequestParser) (bytes : Bytes) (r : Request) (n : ℕ)
    → IsValid p
    → push p bytes ≡ (q, complete r n)
    → (reset q ≡ record new_parser { buf = q.buf }) × IsValid (reset q)
push-reset p q bytes r n v e =
    let empty = (rw e at (push-Post p bytes v)).1 in (reset_fresh q empty, reset-IsValid q empty)
