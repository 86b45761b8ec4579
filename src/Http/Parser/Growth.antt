-- ===== src/Http/Parser/Growth.antt =====
-- One round of `advance` on a buffer with more bytes behind it.
use rust_tcp_server.Base.{
  ℕ, ◌+◌, ◌-◌, ◌≤◌, ◌≡◌, refl, sym, ap, ◌∙◌, Bool, true, false, Option, some, none, arith, Bytes,
  length, length-append, slice-append, drop-append, Bool-cases, inl, inr, ltb,
}
use rust_tcp_server.Base.Extension.{erase, Agrees}
use rust_tcp_server.Base.Rounds.{Round, again, ret, returned}
use rust_tcp_server.Http.Parser.Advance.{
  status_kind, status_norm, parse_headers_returns, parse_headers-Agrees, proceed-erase,
}
use rust_tcp_server.Http.Parser.Bounds.{extend, Bounds, IsValid, Searches, next_crlf-Searches}
use rust_tcp_server.Http.Parser.Fields.{header_kind, header_norm, InHeaders, HeaderPost}
use rust_tcp_server.Http.Parser.{
  Scan, found, stopped, next_crlf, after_scan, request_line_at, parse_request_line, parse_headers,
  parse_body, proceed, advance_in, advance_step,
}
use rust_tcp_server.Http.State.{
  State, at_request_line, at_headers, at_body, done, RequestParser, Result, ok, err, ParseStatus,
  failed,
}
use rust_tcp_server.Limits.{max_request_line}
use rust_tcp_server.Http.Status.{
  ParseError, malformed_request_line, unsupported_version, malformed_header, request_line_too_long,
  headers_too_large, too_many_headers, body_too_large,
}

abbrev Follows :
    Bytes → RequestParser × Round ParseStatus → RequestParser × Round ParseStatus → Type 0
Follows b = Agrees status_kind status_norm (extend b) advance_step

failed_value :
    (b : Bytes) (r : RequestParser × Round ParseStatus) (p : RequestParser) (e : ParseError)
    → r.1 ≡ ret (failed e)
    → Follows b r (p, ret (failed e))
failed_value b r p malformed_request_line h = h
failed_value b r p unsupported_version h = h
failed_value b r p malformed_header h = h
failed_value b r p request_line_too_long h = tt
failed_value b r p headers_too_large h = h
failed_value b r p too_many_headers h = h
failed_value b r p body_too_large h = h

proceed_value :
    (x : RequestParser × Round (Result Bool)) (e : ParseError)
    → x.1 ≡ ret (err e)
    → (proceed x).1 ≡ ret (failed e)
proceed_value (p, again) e h = cc
proceed_value (p, ret (ok true)) e h = cc
proceed_value (p, ret (ok false)) e h = cc
proceed_value (p, ret (err d)) e h = ground arith

advance_step_headers :
    (p : RequestParser) → p.state ≡ at_headers → advance_step p ≡ proceed (parse_headers p)
unfolding advance_in
advance_step_headers p e = ap (λ s. advance_in s p) e

proceed-Follows :
    (b : Bytes) (x : RequestParser × Round (Result Bool)) (q : RequestParser) (r : Result Bool)
    → HeaderPost r q
    → Agrees header_kind header_norm (extend b) parse_headers x (q, ret r)
    → Follows b (proceed x) (proceed (q, ret r))
proceed-Follows b x q (ok true) w h = ap proceed h
proceed-Follows b x q (ok false) w h =
    proceed-erase x (parse_headers (extend b q)) h
    ∙ ap (erase status_norm) (sym (advance_step_headers (extend b q) w.0.0))
proceed-Follows b x q (err e) w h =
    failed_value b (proceed x) (record q { state = done }) e (proceed_value x e h)

headers-Follows :
    (b : Bytes) (p : RequestParser)
    → InHeaders p
    → Follows b (proceed (parse_headers (extend b p))) (proceed (parse_headers p))
headers-Follows b p v =
    let (q, r, e, post) = parse_headers_returns p v in
    rw e (
      proceed-Follows b (parse_headers (extend b p)) q r post
        (rw e at (parse_headers-Agrees b p v)))

body-Follows :
    (b : Bytes) (p : RequestParser)
    → p.state ≡ at_body
    → Bounds at_body p
    → Follows b (returned (parse_body (extend b p))) (returned (parse_body p))
unfolding parse_body advance_in
body-Follows b p s v = elim (Bool-cases (ltb (length p.buf - p.body_start) p.content_length)) [
  | inl short ↦ rw short (ap (λ z. erase status_norm (advance_in z (extend b p))) (sym s))
  | inr enough ↦
      let end = p.body_start + p.content_length in
      let fits : end ≤ length p.buf = ground arith in
      ground (
        arith,
        length-append p.buf b,
        slice-append p.body_start end p.buf b (omega arith) fits,
        drop-append end p.buf b fits,
      )
]

line-extend :
    (b : Bytes) (p : RequestParser) (eol : ℕ)
    → p.state ≡ at_request_line
    → p.line_start ≤ eol
    → eol ≤ length p.buf
    → Follows b
        (proceed (returned (request_line_at (extend b p, some eol))))
        (proceed (returned (request_line_at (p, some eol))))
unfolding request_line_at
line-extend b p eol s h k = ground (arith, slice-append p.line_start eol p.buf b h k)

line-forget_scan :
    (p : RequestParser) (eol j : ℕ)
    → p.state ≡ at_request_line
    → erase status_norm (proceed (returned (request_line_at (p, some eol))))
      ≡ erase status_norm
          (proceed (returned (request_line_at (record p { scanned = j }, some eol))))
unfolding request_line_at
line-forget_scan p eol j h = ground arith

advance_step_line :
    (p : RequestParser)
    → p.state ≡ at_request_line
    → advance_step p ≡ proceed (returned (request_line_at (next_crlf p)))
unfolding advance_in parse_request_line
advance_step_line p e = ap (λ s. advance_in s p) e

line-waits :
    (b : Bytes) (p : RequestParser) (j : ℕ) (x : Scan)
    → p.state ≡ at_request_line
    → next_crlf (extend b (record p { scanned = j }))
      ≡ after_scan (extend b (record p { scanned = j })) x
    → Follows b
        (proceed (returned (request_line_at (after_scan (extend b p) x))))
        (proceed (returned (request_line_at (record p { scanned = j }, none))))
unfolding request_line_at
line-waits b p j x s e = elim (Bool-cases (ltb max_request_line (length p.buf - p.line_start))) [
  | inl long ↦ rw long tt
  | inr short ↦ rw short (
      line_same p j x s
      ∙ ap (λ z. erase status_norm (proceed (returned (request_line_at z)))) (sym e)
      ∙ ap (erase status_norm) (sym (advance_step_line (extend b (record p { scanned = j })) s)))
]
  where
    line_same :
        (p : RequestParser) (j : ℕ) (x : Scan)
        → p.state ≡ at_request_line
        → erase status_norm (proceed (returned (request_line_at (after_scan (extend b p) x))))
          ≡ erase status_norm (
              proceed
                (returned (request_line_at (after_scan (extend b (record p { scanned = j })) x))))
    line_same p j (stopped k) s = refl
    line_same p j (found eol) s = line-forget_scan (extend b p) eol j s

line-Follows :
    (b : Bytes) (p : RequestParser) (r : RequestParser × Option ℕ)
    → p.state ≡ at_request_line
    → Searches b p r
    → Follows b
        (proceed (returned (request_line_at (next_crlf (extend b p)))))
        (proceed (returned (request_line_at r)))
line-Follows b p (q, some eol) s (e, low, high, found_again) =
    rw (found_again, e) (line-extend b p eol s low (omega arith))
line-Follows b p (q, none) s (j, e, low, high, last, x, w, first, second) =
    rw (first, e) (line-waits b p j x s (rw e at second))

advance_in-Follows :
    (b : Bytes) (s : State) (p : RequestParser)
    → p.state ≡ s
    → Bounds s p
    → Follows b (advance_in s (extend b p)) (advance_in s p)
unfolding advance_in
advance_in-Follows b at_request_line p e v =
    unfold parse_request_line in line-Follows b p (next_crlf p) e (next_crlf-Searches b p v.0)
advance_in-Follows b at_headers p e v = headers-Follows b p (e, v)
advance_in-Follows b at_body p e v = body-Follows b p e v
advance_in-Follows b done p e v = ap (λ z. erase status_norm (advance_in z (extend b p))) (sym e)

pub advance_step-Follows :
    (b : Bytes) (p : RequestParser)
    → IsValid p
    → Agrees status_kind status_norm
        (extend b)
        advance_step
        (advance_step (extend b p))
        (advance_step p)
advance_step-Follows b p v = advance_in-Follows b p.state p refl v
