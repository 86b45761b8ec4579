-- ===== src/Http/Parser/Advance.antt =====
-- One round of the loop of `advance`: the state moves on or the round returns, and with more bytes
-- in the buffer it does the same or takes up where it waited.
use rust_tcp_server.Base.{
  ℕ, ◌<◌, ◌≡◌, refl, sym, ap, ◌∙◌, Bool, true, false, Option, some, none, [], arith, Bytes,
  length-append,
}
use rust_tcp_server.Base.Extension.{
  Kind, waits, settles, fails, unclaimed, erase, Agrees, Falls, loop_returns, loop-Agrees,
}
use rust_tcp_server.Base.Rounds.{Round, again, ret, returned, loop-Ends}
use rust_tcp_server.Http.Parser.Bounds.{extend, Bounds, IsValid, Searches, next_crlf-Searches}
use rust_tcp_server.Http.Parser.Fields.{
  forget, header_kind, header_norm, InHeaders, fields_left, HeaderPost, header_step-Falls,
  header_step-Ends, header_step-Agrees,
}
use rust_tcp_server.Http.Parser.{
  next_crlf, request_line_at, parse_request_line, header_fuel, header_step, parse_headers,
  parse_body, proceed, advance_in, advance_step,
}
use rust_tcp_server.Http.State.{
  State, at_request_line, at_headers, at_body, done, RequestParser, Result, ok, err, ParseStatus,
  incomplete, complete, failed,
}
use rust_tcp_server.Http.Status.{
  ParseError, malformed_request_line, unsupported_version, malformed_header, request_line_too_long,
  headers_too_large, too_many_headers, body_too_large,
}

-- A request line that grew too long before its end came is the one error that more bytes may undo.
abbrev pub error_kind : ParseError → Kind
error_kind malformed_request_line = fails
error_kind unsupported_version = fails
error_kind malformed_header = fails
error_kind request_line_too_long = unclaimed
error_kind headers_too_large = fails
error_kind too_many_headers = fails
error_kind body_too_large = fails

abbrev pub status_kind : ParseStatus → Kind
status_kind incomplete = waits
status_kind (complete r n) = settles
status_kind (failed e) = error_kind e

abbrev pub status_norm : Round ParseStatus → RequestParser → RequestParser
status_norm r p = forget p

abbrev rank_of : State → ℕ
rank_of at_request_line = 3
rank_of at_headers = 2
rank_of at_body = 1
rank_of done = 0

abbrev pub rank : RequestParser → ℕ
rank p = rank_of p.state

rank_of-lt : (s : State) → rank_of s < 4
rank_of-lt at_request_line = omega arith
rank_of-lt at_headers = omega arith
rank_of-lt at_body = omega arith
rank_of-lt done = omega arith

pub rank-lt : (p : RequestParser) → rank p < 4
rank-lt p = rank_of-lt p.state

-- The loop over the header fields returns within its fuel for every valid parser in the header
-- block: at the end of the block the body begins within the buffer, a block left unfinished is
-- within its ceiling, and a refused one leaves the state to `fail`.
pub parse_headers_returns :
    (p : RequestParser)
    → InHeaders p
    → (q : RequestParser) × (r : Result Bool) × (parse_headers p ≡ (q, ret r)) × HeaderPost r q
unfolding parse_headers
parse_headers_returns p v =
    let (q, r, e) =
      loop_returns header_kind InHeaders fields_left header_step header_step-Falls header_fuel p v
        (omega arith) in
    (q, r, e, rw e at (loop-Ends InHeaders HeaderPost header_step header_step-Ends header_fuel p v))

extend-InHeaders : (b : Bytes) (p : RequestParser) → InHeaders p → InHeaders (extend b p)
extend-InHeaders b p v = ground (arith, length-append p.buf b)

pub parse_headers-Agrees :
    (b : Bytes) (p : RequestParser)
    → InHeaders p
    → Agrees header_kind header_norm
        (extend b)
        parse_headers
        (parse_headers (extend b p))
        (parse_headers p)
unfolding parse_headers
parse_headers-Agrees b p v =
    loop-Agrees header_kind InHeaders fields_left header_step header_step-Falls header_norm
      (extend b) (extend-InHeaders b) (λ s. refl)
      (λ s t v w e. ap (λ u. erase header_norm (header_step u)) e) (header_step-Agrees b)
      header_fuel p v (omega arith)

request_line_at-Falls :
    (p : RequestParser) (r : RequestParser × Option ℕ)
    → p.state ≡ at_request_line
    → Bounds at_request_line p
    → Searches [] p r
    → Falls status_kind IsValid rank p (proceed (returned (request_line_at r)))
unfolding request_line_at
request_line_at-Falls p (q, none) s v w = ground arith
request_line_at-Falls p (q, some eol) s v w = ground arith

proceed-Falls :
    (p q : RequestParser) (r : Result Bool)
    → p.state ≡ at_headers
    → HeaderPost r q
    → Falls status_kind IsValid rank p (proceed (q, ret r))
proceed-Falls p q (ok true) s h = ground arith
proceed-Falls p q (ok false) s h = ground arith
proceed-Falls p q (err e) s h = ground arith

headers-Falls :
    (p : RequestParser) → InHeaders p → Falls status_kind IsValid rank p (proceed (parse_headers p))
headers-Falls p v =
    let (q, r, e, post) = parse_headers_returns p v in rw e (proceed-Falls p q r v.0 post)

advance_in-Falls :
    (s : State) (p : RequestParser)
    → p.state ≡ s
    → Bounds s p
    → Falls status_kind IsValid rank p (advance_in s p)
unfolding advance_in
advance_in-Falls at_request_line p e v =
    unfold parse_request_line in
    request_line_at-Falls p (next_crlf p) e v (next_crlf-Searches [] p v.0)
advance_in-Falls at_headers p e v = headers-Falls p (e, v)
advance_in-Falls at_body p e v = unfold parse_body in ground arith
advance_in-Falls done p e v = ground arith

pub advance_step-Falls :
    (p : RequestParser) → IsValid p → Falls status_kind IsValid rank p (advance_step p)
advance_step-Falls p v = advance_in-Falls p.state p refl v

pub forget-forget : (p : RequestParser) → forget p ≡ forget (forget p)
forget-forget p = go p.state refl
  where
    go : (s : State) → p.state ≡ s → forget p ≡ forget (forget p)
    go at_request_line e = ground arith
    go at_headers e = ground arith
    go at_body e = ground arith
    go done e = ground arith

proceed_norm :
    (r : Round (Result Bool)) (p : RequestParser)
    → erase status_norm (proceed (p, r)) ≡ erase status_norm (proceed (header_norm r p, r))
proceed_norm again p = refl
proceed_norm (ret (ok true)) p = ap (λ q. (q, again)) (forget-forget p)
proceed_norm (ret (ok false)) p = refl
proceed_norm (ret (err e)) p = refl

pub proceed-erase :
    (x y : RequestParser × Round (Result Bool))
    → erase header_norm x ≡ erase header_norm y
    → erase status_norm (proceed x) ≡ erase status_norm (proceed y)
proceed-erase x y h =
    proceed_norm x.1 x.0 ∙ ap (λ z. erase status_norm (proceed z)) h ∙ sym (proceed_norm y.1 y.0)
