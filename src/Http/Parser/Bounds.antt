-- ===== src/Http/Parser/Bounds.antt =====
-- The indices of the parser stay within its buffer, so no slice and no subtraction of the source
-- is out of range; and the loops end.
use rust_tcp_server.Base.{
  ℕ, ◌+◌, ◌-◌, ◌≤◌, max, ◌≡◌, refl, ap, ◌∙◌, Option, some, none, ◌++◌, arith, Bytes, length,
  length-drop, drop, drop-append, drop-drop,
}
use rust_tcp_server.Http.Parser.Search.{
  ScanBounds, scan_crlf-ScanBounds, ScanMore, scan_crlf-ScanMore,
}
use rust_tcp_server.Http.Parser.{Scan, found, stopped, scan_crlf, next_crlf, after_scan}
use rust_tcp_server.Http.State.{State, at_request_line, at_headers, at_body, done, RequestParser}
use rust_tcp_server.Limits.{max_request_line, max_header_bytes, max_header_count, max_body_bytes}

-- The same parser with more bytes in its buffer.
abbrev pub extend : Bytes → RequestParser → RequestParser
extend b p = record p { buf = p.buf ++ b }

-- The line in progress starts and was searched within the buffer, and the fields are counted.
pub record InBuffer (p : RequestParser) : Type 0 where
  pub line_fits : p.line_start ≤ length p.buf
  pub scan_fits : p.scanned ≤ length p.buf
  pub count_fits : p.header_count ≤ max_header_count
  pub counted : length p.headers.inner ≡ p.header_count

abbrev pub Bounds : State → RequestParser → Type 0
Bounds at_request_line p = InBuffer p × (p.line_start ≡ 0)
Bounds at_headers p =
    InBuffer p
    × (p.header_block_start ≤ p.line_start)
    × (p.header_block_start ≤ max_request_line + 2)
Bounds at_body p =
    (p.body_start ≤ length p.buf)
    × (p.body_start ≤ max_request_line + 2 + max_header_bytes)
    × (p.content_length ≤ max_body_bytes)
    × (length p.headers.inner ≤ max_header_count)
Bounds done p = Unit {0}

abbrev pub IsValid : RequestParser → Type 0
IsValid p = Bounds p.state p

-- A search that went on from `j` found or stopped no earlier.
abbrev pub Beyond : ℕ → Scan → Type 0
Beyond j (found e) = j ≤ e
Beyond j (stopped k) = j ≤ k

scan_crlf-Beyond : (j : ℕ) (s : Bytes) → Beyond j (scan_crlf j s)
scan_crlf-Beyond j s = go (scan_crlf j s) (scan_crlf-ScanBounds j s)
  where
    go : (x : Scan) → ScanBounds j s x → Beyond j x
    go (found e) w = w.0
    go (stopped k) w = w.0

-- What `next_crlf` returns, and what it returns with `b` behind the buffer.
abbrev pub Searches : Bytes → RequestParser → RequestParser × Option ℕ → Type 0
Searches b p (q, some eol) =
    (q ≡ p)
    × (p.line_start ≤ eol)
    × (eol + 2 ≤ length p.buf)
    × (next_crlf (extend b p) ≡ (extend b p, some eol))
Searches b p (q, none) =
    (j : ℕ) × (q ≡ record p { scanned = j })
    × (p.line_start ≤ j)
    × (j ≤ length p.buf)
    × (length p.buf ≤ j + 1)
    × (x : Scan) × Beyond j x
    × (next_crlf (extend b p) ≡ after_scan (extend b p) x)
    × (next_crlf (extend b q) ≡ after_scan (extend b q) x)

abbrev start : RequestParser → ℕ
start p = max p.scanned p.line_start

extended_scan :
    (b : Bytes) (p : RequestParser)
    → InBuffer p
    → next_crlf (extend b p)
      ≡ after_scan (extend b p) (scan_crlf (start p) (drop (start p) p.buf ++ b))
unfolding next_crlf
extended_scan b p v =
    ap (λ s. after_scan (extend b p) (scan_crlf (start p) s))
      (drop-append (start p) p.buf b (omega arith))

next_crlf_from :
    (b : Bytes) (p : RequestParser) (x : Scan)
    → InBuffer p
    → ScanBounds (start p) (drop (start p) p.buf) x
    → ScanMore (start p) (drop (start p) p.buf) b x
    → Searches b p (after_scan p x)
next_crlf_from b p (found e) v w m = (
  refl,
  omega arith,
  omega (arith, length-drop (start p) p.buf),
  extended_scan b p v ∙ ap (after_scan (extend b p)) m,
)
next_crlf_from b p (stopped j) v w m =
    let len = length-drop (start p) p.buf in
    let q = record p { scanned = j } in
    let at_j : start q ≡ j = omega arith in
    let on : start p + (j - start p) ≡ j = omega arith in
    let again_at_j : drop (j - start p) (drop (start p) p.buf) ≡ drop j p.buf =
      drop-drop (j - start p) (start p) p.buf ∙ ap (λ k. drop k p.buf) on in
    (
      j,
      refl,
      omega arith,
      omega (arith, len),
      omega (arith, len),
      scan_crlf j (drop j p.buf ++ b),
      scan_crlf-Beyond j (drop j p.buf ++ b),
      extended_scan b p v
          ∙ ap (after_scan (extend b p)) (m ∙ ap (λ s. scan_crlf j (s ++ b)) again_at_j),
      extended_scan b q (record {
        line_fits = v.line_fits;
        scan_fits = omega (arith, len);
        count_fits = v.count_fits;
        counted = v.counted;
      })
          ∙ ap (λ k. after_scan (extend b q) (scan_crlf k (drop k p.buf ++ b))) at_j,
    )

pub next_crlf-Searches : (b : Bytes) (p : RequestParser) → InBuffer p → Searches b p (next_crlf p)
unfolding next_crlf
next_crlf-Searches b p v =
    next_crlf_from b p (scan_crlf (start p) (drop (start p) p.buf)) v
      (scan_crlf-ScanBounds (start p) (drop (start p) p.buf))
      (scan_crlf-ScanMore (start p) (drop (start p) p.buf) b)
