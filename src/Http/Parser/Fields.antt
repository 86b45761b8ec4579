-- ===== src/Http/Parser/Fields.antt =====
-- One round of the loop of `parse_headers`: it counts a field or returns, and with more bytes in
-- the buffer it does the same or takes up where it waited.
use rust_tcp_server.Base.{
  ℕ, suc, ◌+◌, ◌-◌, ◌≤◌, ◌≡◌, ap, Bool, true, false, Option, some, none, arith, Bytes, length,
  length-append, slice-append, [],
}
use rust_tcp_server.Base.Extension.{Kind, waits, settles, fails, erase, Agrees, Falls}
use rust_tcp_server.Base.Rounds.{Round, again, ret, Ends}
use rust_tcp_server.Http.Headers.{length-insert_header}
use rust_tcp_server.Http.Parser.Bounds.{extend, Bounds, Beyond, Searches, next_crlf-Searches}
use rust_tcp_server.Http.Parser.{
  Scan, found, stopped, next_crlf, after_scan, header_at, header_step,
}
use rust_tcp_server.Http.State.{
  State, at_request_line, at_headers, at_body, done, RequestParser, Result, ok, err,
}
use rust_tcp_server.Limits.{max_header_bytes, max_header_count}

-- `scanned` is a cache for the search in a line; past the header block nothing reads it.
abbrev pub forget_scan : RequestParser → RequestParser
forget_scan p = record p { scanned = 0 }

abbrev pub forget_in : State → RequestParser → RequestParser
forget_in at_request_line p = p
forget_in at_headers p = p
forget_in at_body p = forget_scan p
forget_in done p = forget_scan p

abbrev pub forget : RequestParser → RequestParser
forget p = forget_in p.state p

abbrev pub header_kind : Result Bool → Kind
header_kind (ok true) = settles
header_kind (ok false) = waits
header_kind (err e) = fails

abbrev pub header_norm : Round (Result Bool) → RequestParser → RequestParser
header_norm again p = p
header_norm (ret (ok true)) p = forget p
header_norm (ret (ok false)) p = p
header_norm (ret (err e)) p = forget_scan p

abbrev pub InHeaders : RequestParser → Type 0
InHeaders p = (p.state ≡ at_headers) × Bounds at_headers p

abbrev pub fields_left : RequestParser → ℕ
fields_left p = suc max_header_count - p.header_count

header_at-Falls :
    (b : Bytes) (p : RequestParser) (r : RequestParser × Option ℕ)
    → InHeaders p
    → Searches b p r
    → Falls header_kind InHeaders fields_left p (header_at r)
unfolding header_at
header_at-Falls b p (q, none) v s = ground arith
header_at-Falls b p (q, some eol) v s = grind (arith, length-insert_header)

pub header_step-Falls :
    (p : RequestParser) → InHeaders p → Falls header_kind InHeaders fields_left p (header_step p)
unfolding header_step
header_step-Falls p v = header_at-Falls [] p (next_crlf p) v (next_crlf-Searches [] p v.1.0)

-- Where the header block ends, the body begins within the buffer; while it has not ended, the block
-- is within its ceiling.
abbrev pub HeaderPost : Result Bool → RequestParser → Type 0
HeaderPost (ok true) p = (p.state ≡ at_body) × Bounds at_body p
HeaderPost (ok false) p = InHeaders p × (length p.buf ≤ p.header_block_start + max_header_bytes)
HeaderPost (err e) p = p.state ≡ at_headers

header_at-Ends :
    (b : Bytes) (p : RequestParser) (r : RequestParser × Option ℕ)
    → InHeaders p
    → Searches b p r
    → Ends InHeaders HeaderPost (header_at r)
unfolding header_at
header_at-Ends b p (q, none) v s = ground arith
header_at-Ends b p (q, some eol) v s = grind (arith, length-insert_header)

pub header_step-Ends : (p : RequestParser) → InHeaders p → Ends InHeaders HeaderPost (header_step p)
unfolding header_step
header_step-Ends p v = header_at-Ends [] p (next_crlf p) v (next_crlf-Searches [] p v.1.0)

-- A line that was found is read alike with more bytes behind it.
header_at-extend :
    (b : Bytes) (p : RequestParser) (eol : ℕ)
    → p.line_start ≤ eol
    → eol ≤ length p.buf
    → Agrees header_kind header_norm
        (extend b)
        header_step
        (header_at (extend b p, some eol))
        (header_at (p, some eol))
unfolding header_at
header_at-extend b p eol h k = ground (arith, slice-append p.line_start eol p.buf b h k)

header_at-forget_scan :
    (p : RequestParser) (eol j : ℕ)
    → p.state ≡ at_headers
    → erase header_norm (header_at (p, some eol))
      ≡ erase header_norm (header_at (record p { scanned = j }, some eol))
unfolding header_at
header_at-forget_scan p eol j h = ground arith

header_at-waits :
    (b : Bytes) (p : RequestParser) (j : ℕ) (x : Scan)
    → InHeaders p
    → length p.buf ≤ j + 1
    → Beyond j x
    → header_step (extend b (record p { scanned = j }))
      ≡ header_at (after_scan (extend b (record p { scanned = j })) x)
    → Agrees header_kind header_norm
        (extend b)
        header_step
        (header_at (after_scan (extend b p) x))
        (header_at (record p { scanned = j }, none))
unfolding header_at
header_at-waits b p j (stopped k) v l w e = ground (arith, length-append p.buf b)
header_at-waits b p j (found eol) v l w e =
    ground (arith, length-append p.buf b, header_at-forget_scan (extend b p) eol j v.0)

header_round-Agrees :
    (b : Bytes) (p : RequestParser) (r : RequestParser × Option ℕ)
    → InHeaders p
    → Searches b p r
    → Agrees header_kind header_norm
        (extend b)
        header_step
        (header_at (next_crlf (extend b p)))
        (header_at r)
header_round-Agrees b p (q, some eol) v (e, low, high, found_again) =
    rw (found_again, e) (header_at-extend b p eol low (omega arith))
header_round-Agrees b p (q, none) v (j, e, low, high, last, x, w, first, second) =
    rw (first, e)
      (header_at-waits b p j x v last w (unfold header_step in ap header_at (rw e at second)))

pub header_step-Agrees :
    (b : Bytes) (p : RequestParser)
    → InHeaders p
    → Agrees header_kind header_norm
        (extend b)
        header_step
        (header_step (extend b p))
        (header_step p)
unfolding header_step
header_step-Agrees b p v = header_round-Agrees b p (next_crlf p) v (next_crlf-Searches b p v.1.0)
