-- ===== src/Http/Parser/Chunks.antt =====
-- `push` on a stream that comes in pieces: what a piece decides stays decided, and a wait takes up
-- where it stopped.
use rust_tcp_server.Base.{
  ◌≡◌, ◌≢◌, refl, sym, ap, ◌∙◌, ◌++◌, arith, Bytes, length-append, append_assoc,
}
use rust_tcp_server.Base.Extension.{erase, Agrees, loop_returns, loop-Agrees}
use rust_tcp_server.Base.Rounds.{Round, again, ret, returned, loop}
use rust_tcp_server.Http.Parser.Advance.{
  status_kind, status_norm, rank, rank-lt, advance_step-Falls,
}
use rust_tcp_server.Http.Parser.Bounds.{extend, Bounds, IsValid}
use rust_tcp_server.Http.Parser.Fields.{forget_scan, forget_in, forget}
use rust_tcp_server.Http.Parser.Growth.{advance_step-Follows}
use rust_tcp_server.Http.Parser.{parse_body, advance_in, advance_step, advance, settle, push}
use rust_tcp_server.Http.State.{
  State, at_request_line, at_headers, at_body, done, RequestParser, ParseStatus, incomplete,
  complete, failed,
}
use rust_tcp_server.Http.Status.{
  ParseError, malformed_request_line, unsupported_version, malformed_header, request_line_too_long,
  headers_too_large, too_many_headers, body_too_large,
}

extend_in : (b : Bytes) (s : State) (p : RequestParser) → Bounds s p → Bounds s (extend b p)
extend_in b at_request_line p v = omega (arith, length-append p.buf b)
extend_in b at_headers p v = omega (arith, length-append p.buf b)
extend_in b at_body p v = omega (arith, length-append p.buf b)
extend_in b done p v = tt

pub extend-IsValid : (b : Bytes) (p : RequestParser) → IsValid p → IsValid (extend b p)
extend-IsValid b p v = extend_in b p.state p v

body-forget_scan :
    (p : RequestParser)
    → p.state ≡ at_body
    → erase status_norm (returned (parse_body p))
      ≡ erase status_norm (returned (parse_body (forget_scan p)))
unfolding parse_body
body-forget_scan p e = ground arith

respects_in :
    (k : State) (s t : RequestParser)
    → s.state ≡ k
    → t.state ≡ k
    → forget_in k s ≡ forget_in k t
    → erase status_norm (advance_in k s) ≡ erase status_norm (advance_in k t)
unfolding advance_in
respects_in at_request_line s t d e h = ap (λ p. erase status_norm (advance_in at_request_line p)) h
respects_in at_headers s t d e h = ap (λ p. erase status_norm (advance_in at_headers p)) h
respects_in at_body s t d e h =
    body-forget_scan s d
    ∙ ap (λ p. erase status_norm (returned (parse_body p))) h
    ∙ sym (body-forget_scan t e)
respects_in done s t d e h =
    ap (λ k. waiting (forget_in k s)) d ∙ ap waiting h ∙ ap (λ k. waiting (forget_in k t)) (sym e)
  where
    waiting : RequestParser → RequestParser × Round ParseStatus
    waiting p = (p, ret incomplete)

forget-state : (p : RequestParser) → (forget p).state ≡ p.state
forget-state p = go p.state
  where
    go : (s : State) → (forget_in s p).state ≡ p.state
    go at_request_line = refl
    go at_headers = refl
    go at_body = refl
    go done = refl

advance_step-respects :
    (s t : RequestParser)
    → IsValid s
    → IsValid t
    → forget s ≡ forget t
    → erase status_norm (advance_step s) ≡ erase status_norm (advance_step t)
advance_step-respects s t v w h =
    let e : s.state ≡ t.state = sym (forget-state s) ∙ ap (λ p. p.state) h ∙ forget-state t in
    respects_in s.state s t refl (sym e) (h ∙ ap (λ k. forget_in k t) (sym e))
    ∙ ap (λ k. erase status_norm (advance_in k t)) e

loop-Follows :
    (b : Bytes) (p : RequestParser)
    → IsValid p
    → Agrees status_kind status_norm
        (extend b)
        (loop 4 advance_step)
        (loop 4 advance_step (extend b p))
        (loop 4 advance_step p)
loop-Follows b p v =
    loop-Agrees status_kind IsValid rank advance_step advance_step-Falls status_norm (extend b)
      (extend-IsValid b) (λ s. refl) advance_step-respects (advance_step-Follows b) 4 p v
      (rank-lt p)

-- What a caller can tell of a result: all but the `scanned` of a parser past its header block.
abbrev pub seen : RequestParser × ParseStatus → RequestParser × ParseStatus
seen (p, s) = (forget p, s)

-- How a push of more bytes turns out, from the result of a push of the first of them.
abbrev pub Grows : Bytes → RequestParser × ParseStatus → RequestParser × ParseStatus → Type 0
Grows b (q, incomplete) r = seen r ≡ seen (push q b)
Grows b (q, complete request n) r = r ≡ (extend b q, complete request n)
Grows b (q, failed e) r = e ≢ request_line_too_long → r.1 ≡ failed e

-- The loop of `advance` returns within its four rounds for every valid parser.
pub advance_returns :
    (p : RequestParser)
    → IsValid p
    → (q : RequestParser) × (s : ParseStatus) × (loop 4 advance_step p ≡ (q, ret s))
advance_returns p v =
    loop_returns status_kind IsValid rank advance_step advance_step-Falls 4 p v (rank-lt p)

pub advance_lem : (p : RequestParser) → advance p ≡ settle (loop 4 advance_step p)
unfolding advance
advance_lem p = refl

seen-settle :
    (x : RequestParser × Round ParseStatus) → seen (settle x) ≡ settle (erase status_norm x)
seen-settle (p, again) = refl
seen-settle (p, ret s) = refl

settle_value :
    (x : RequestParser × Round ParseStatus) (s : ParseStatus) → x.1 ≡ ret s → (settle x).1 ≡ s
settle_value (p, again) s h = cc
settle_value (p, ret r) s h = ground arith

refusal :
    (b : Bytes) (x : RequestParser × Round ParseStatus) (q : RequestParser) (e : ParseError)
    → Agrees status_kind status_norm (extend b) (loop 4 advance_step) x (q, ret (failed e))
    → e ≢ request_line_too_long
    → (settle x).1 ≡ failed e
refusal b x q malformed_request_line h n = settle_value x _ h
refusal b x q unsupported_version h n = settle_value x _ h
refusal b x q malformed_header h n = settle_value x _ h
refusal b x q request_line_too_long h n = absurd (n refl)
refusal b x q headers_too_large h n = settle_value x _ h
refusal b x q too_many_headers h n = settle_value x _ h
refusal b x q body_too_large h n = settle_value x _ h

settle-Grows :
    (b : Bytes) (x : RequestParser × Round ParseStatus) (q : RequestParser) (s : ParseStatus)
    → Agrees status_kind status_norm (extend b) (loop 4 advance_step) x (q, ret s)
    → Grows b (q, s) (settle x)
unfolding push
settle-Grows b x q incomplete h =
    seen-settle x
    ∙ ap settle h
    ∙ sym (seen-settle (loop 4 advance_step (extend b q)))
    ∙ ap seen (sym (advance_lem (extend b q)))
settle-Grows b x q (complete request n) h = ap settle h
settle-Grows b x q (failed e) h = refusal b x q e h

advance-Grows :
    (b : Bytes) (p : RequestParser) → IsValid p → Grows b (advance p) (advance (extend b p))
advance-Grows b p v =
    let (q, s, e) = advance_returns p v in
    rw (advance_lem p, e, advance_lem (extend b p))
      (settle-Grows b (loop 4 advance_step (extend b p)) q s (rw e at (loop-Follows b p v)))

-- Bytes that come in two pieces are parsed as the whole: if the first piece leaves the request
-- unfinished, the second goes on from there; if it completes the request, more bytes only stand
-- behind it in the buffer; if it is refused, for any reason but a request line that is too long,
-- the whole is refused for that reason.
pub push-append :
    (p : RequestParser) (a b : Bytes) → IsValid p → Grows b (push p a) (push p (a ++ b))
unfolding push
push-append p a b v =
    rw (← append_assoc p.buf a b) (advance-Grows b (extend a p) (extend-IsValid a p v))
