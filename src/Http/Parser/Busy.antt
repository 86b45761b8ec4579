-- ===== src/Http/Parser/Busy.antt =====
-- A parser that waits for more bytes is not done: only a completed or refused request ends it.
use rust_tcp_server.Base.{
  ℕ, ◌≡◌, ◌≢◌, refl, subst, Bool, true, false, Option, some, none, [], arith, Bytes,
}
use rust_tcp_server.Base.Rounds.{ret, returned, Ends, loop, loop-Ends}
use rust_tcp_server.Http.Parser.Advance.{parse_headers_returns}
use rust_tcp_server.Http.Parser.Bounds.{extend, Bounds, IsValid, Searches, next_crlf-Searches}
use rust_tcp_server.Http.Parser.Chunks.{extend-IsValid, advance_lem, advance_returns}
use rust_tcp_server.Http.Parser.Fields.{HeaderPost}
use rust_tcp_server.Http.Parser.{
  next_crlf, request_line_at, parse_request_line, parse_body, proceed, advance_in, advance_step,
  settle, push,
}
use rust_tcp_server.Http.State.{
  State, at_request_line, at_headers, at_body, done, RequestParser, Result, ok, err, ParseStatus,
  incomplete, complete, failed,
}

abbrev Busy : RequestParser → Type 0
Busy p = IsValid p × (p.state ≢ done)

abbrev BusyPost : ParseStatus → RequestParser → Type 0
BusyPost incomplete p = p.state ≢ done
BusyPost (complete r n) p = Unit {0}
BusyPost (failed e) p = Unit {0}

line-Busy :
    (p : RequestParser) (r : RequestParser × Option ℕ)
    → p.state ≡ at_request_line
    → Bounds at_request_line p
    → Searches [] p r
    → Ends Busy BusyPost (proceed (returned (request_line_at r)))
unfolding request_line_at
line-Busy p (q, none) s v w = ground arith
line-Busy p (q, some eol) s v w = ground arith

proceed-Busy :
    (q : RequestParser) (r : Result Bool) → HeaderPost r q → Ends Busy BusyPost (proceed (q, ret r))
proceed-Busy q (ok true) h = ground arith
proceed-Busy q (ok false) h = ground arith
proceed-Busy q (err e) h = ground arith

advance_in-Busy :
    (s : State) (p : RequestParser)
    → p.state ≡ s
    → s ≢ done
    → Bounds s p
    → Ends Busy BusyPost (advance_in s p)
unfolding advance_in
advance_in-Busy at_request_line p e n v =
    unfold parse_request_line in line-Busy p (next_crlf p) e v (next_crlf-Searches [] p v.0)
advance_in-Busy at_headers p e n v =
    let (q, r, d, post) = parse_headers_returns p (e, v) in rw d (proceed-Busy q r post)
advance_in-Busy at_body p e n v = unfold parse_body in ground arith
advance_in-Busy done p e n v = absurd (n refl)

-- A parser at work that is left incomplete is still at work.
pub push_busy :
    (p q : RequestParser) (bytes : Bytes)
    → IsValid p
    → p.state ≢ done
    → push p bytes ≡ (q, incomplete)
    → q.state ≢ done
unfolding push
push_busy p q bytes v n e =
    let p' = extend bytes p in
    let w = extend-IsValid bytes p v in
    let (r, s, d) = advance_returns p' w in
    let post =
      loop-Ends Busy BusyPost advance_step (λ u x. advance_in-Busy u.state u refl x.1 x.0) 4 p'
        (w, n) in
    let e' : settle (loop 4 advance_step p') ≡ (q, incomplete) = rw (advance_lem p') at e in
    subst (λ x. BusyPost x.1 x.0) (rw d at e') (rw d at post)
