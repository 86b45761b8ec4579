-- ===== src/Http/Parser/RequestLine.antt =====
-- The parser reads a well-formed request line: three words, one space between them.
use rust_tcp_server.Base.{
  ℕ, ◌+◌, ◌-◌, ◌≤◌, ◌≡◌, ◌≢◌, refl, sym, ap, ◌∙◌, true, false, ltb, some, [], ◌∷◌, ◌++◌, ◌==◌,
  arith, Bytes, length, slice,
}
use rust_tcp_server.Http.Method.{Version, parse_method, parse_version}
use rust_tcp_server.Http.Parser.Accepts.{is_empty-named}
use rust_tcp_server.Http.Parser.Grammar.{
  ended, Lacks, Lacks-append, At, next_crlf-ended, slice-ended,
}
use rust_tcp_server.Http.Parser.{three_parts, accept_parts, request_line_at, parse_request_line}
use rust_tcp_server.Http.State.{at_headers, RequestParser, ok}
use rust_tcp_server.Limits.{max_request_line}
use rust_tcp_server.Text.Split.{split}
use rust_tcp_server.Text.Utf8.{is_utf8}

-- The three words as the client wrote them.
pub record Words : Type 0 where
  pub method : Bytes
  pub path : Bytes
  pub version : Bytes

abbrev pub request_line : Words → Bytes
request_line w = w.method ++ (b' ' ∷ w.path ++ (b' ' ∷ w.version))

pub record IsWord (w : Bytes) : Type 0 where
  pub one_word : Lacks b' ' w
  pub one_line : Lacks b'\r' w
  pub non_empty : w ≢ []

pub record IsRequestLine (w : Words) (v : Version) : Type 0 where
  pub method_word : IsWord w.method
  pub path_word : IsWord w.path
  pub version_word : IsWord w.version
  pub path_utf8 : is_utf8 w.path ≡ true
  pub known_version : parse_version w.version ≡ some v
  pub short : length (request_line w) ≤ max_request_line

split_word : (sep : ℕ) (w : Bytes) → Lacks sep w → split sep w ≡ w ∷ []
unfolding split
split_word sep [] h = refl
split_word sep (c ∷ r) h = rw (h.0, split_word sep r h.1) refl

split_append :
    (sep : ℕ) (w r : Bytes)
    → Lacks sep w
    → (sep == sep) ≡ true
    → split sep (w ++ (sep ∷ r)) ≡ w ∷ split sep r
unfolding split
split_append sep [] r h e = rw e refl
split_append sep (c ∷ w) r h e = rw (h.0, split_append sep w r h.1 e) refl

three_parts-request_line :
    (w : Words) (v : Version)
    → IsRequestLine w v
    → three_parts (split b' ' (request_line w)) ≡ some (w.method, w.path, w.version)
unfolding three_parts
three_parts-request_line w v h =
    ap three_parts
      (split_append b' ' w.method (w.path ++ (b' ' ∷ w.version)) h.method_word.one_word refl)
    ∙ ap (λ ps. three_parts (w.method ∷ ps))
        (split_append b' ' w.path w.version h.path_word.one_word refl)
    ∙ ap (λ ps. three_parts (w.method ∷ w.path ∷ ps))
        (split_word b' ' w.version h.version_word.one_word)
    ∙ rw
        (
          is_empty-named w.method h.method_word.non_empty,
          is_empty-named w.path h.path_word.non_empty,
          is_empty-named w.version h.version_word.non_empty,
        )
        refl

abbrev pub with_request_line : RequestParser → Words → Version → ℕ → RequestParser
with_request_line p w v eol = record p {
  method = parse_method w.method;
  path = w.path;
  version = v;
  line_start = eol + 2;
  scanned = eol + 2;
  header_block_start = eol + 2;
  state = at_headers;
}

request_line-Lacks : (w : Words) (v : Version) → IsRequestLine w v → Lacks b'\r' (request_line w)
request_line-Lacks w v h =
    Lacks-append b'\r' w.method (b' ' ∷ w.path ++ (b' ' ∷ w.version)) h.method_word.one_line (
      refl,
      Lacks-append b'\r' w.path (b' ' ∷ w.version) h.path_word.one_line
          (refl, h.version_word.one_line),
    )

pub parse_request_line-IsRequestLine :
    (p : RequestParser) (w : Words) (v : Version) (rest : Bytes)
    → At p [] (ended (request_line w) rest)
    → IsRequestLine w v
    → parse_request_line p ≡ (with_request_line p w v (length (request_line w)), ok true)
unfolding parse_request_line request_line_at
parse_request_line-IsRequestLine p w v rest a h =
    let line = request_line w in
    let eol = length line in
    let whole : 0 + eol ≡ eol = omega arith in
    let fits : ltb max_request_line (eol - p.line_start) ≡ false = ground arith in
    let read : slice p.line_start eol p.buf ≡ line =
      ap (λ k. slice k eol p.buf) a.starts
      ∙ ap (slice 0 eol) a.holds
      ∙ ap (λ k. slice 0 k (ended line rest)) (sym whole)
      ∙ slice-ended [] line rest in
    ap request_line_at (next_crlf-ended p [] line rest a (request_line-Lacks w v h))
    ∙ ap (λ k. request_line_at (p, some k)) whole
    ∙ rw fits (
        ap (λ l. accept_parts p eol (three_parts (split b' ' l))) read
        ∙ ap (accept_parts p eol) (three_parts-request_line w v h)
        ∙ rw (h.path_utf8, h.known_version) refl)
