-- ===== src/Loadgen/Reader/RoundTrip.antt =====
-- The load generator reads a response of the server to its end, and no further.
use rust_tcp_server.Base.{
  ℕ, ◌≤◌, ◌≡◌, ◌≢◌, refl, ap, ◌∙◌, Bool, true, false, Bool-cases, inl, inr, List, [], ◌∷◌, ◌++◌,
  append_assoc, none, some, ltb, if◌then◌else◌, Bytes, codes, length, drop-length, length-append,
  arith,
}
use rust_tcp_server.Base.Rounds.{ret}
use rust_tcp_server.Http.Response.{Response, body_bytes, is_owned, crlf, encode}
use rust_tcp_server.Http.Response.Layout.{
  decimal, kept, field_lines, head_of, encode_layout, parse_usize-write_usize,
}
use rust_tcp_server.Http.Status.{reason}
use rust_tcp_server.Loadgen.Reader.Fields.{
  OneLine, OneLine-append, line_step_text, line_step_blank, header_value_other, header_value-none,
  header_value_size, trim_digits,
}
use rust_tcp_server.Loadgen.Reader.Texts.{
  IsLine, IsLine-append, is_plain, is_plain-IsLine, is_one_line, is_one_line-OneLine, reason-IsLine,
  AllDigits-IsLine, decimal-AllDigits,
}
use rust_tcp_server.Loadgen.Reader.Lines.{NoColon, read_lines, read_lines_again, read_lines_end}
use rust_tcp_server.Loadgen.Reader.{
  header_value, split_colon, whole, Reading, sized, after_line, body_read, read_response,
}
use rust_tcp_server.Text.Number.{parse_usize, usize_max}
use rust_tcp_server.Text.Ascii.{to_ascii_lowercase, eq_ignore_ascii_case}
use rust_tcp_server.Text.Trim.{
  is_space, is_space_pair, is_space_triple, width_front, width_back, trim_by, trim,
}

-- A field as handlers set them: a name without white space around it or a colon in it, and a value,
-- each of one line.
abbrev pub AreClean : List (Bytes × Bytes) → Type 0
AreClean [] = Unit {0}
AreClean ((k, v) ∷ rest) = (OneLine k × NoColon k × (trim k ≡ k) × OneLine v) × AreClean rest

abbrev reading_of : Bytes → ℕ → Reading
reading_of s n = record { coming = s; content_length = n }

-- A line without a length is passed.
passed :
    (l rest : Bytes) (n : ℕ)
    → l ≢ []
    → OneLine l
    → header_value (l ++ crlf) (codes "content-length") ≡ none
    → read_lines (reading_of (l ++ (crlf ++ rest)) n) ≡ read_lines (reading_of rest n)
passed [] rest n some_text h e = absurd (some_text refl)
passed (c ∷ l) rest n some_text h e =
    read_lines_again (reading_of ((c ∷ l) ++ (crlf ++ rest)) n) (reading_of rest n)
      (line_step_text c l rest n h ∙ ap (after_line (reading_of rest n)) e)

field_text : Bytes → Bytes → Bytes
field_text k v = k ++ (codes ": " ++ v)

field_text_some : (k v : Bytes) → field_text k v ≢ []
unfolding field_text
field_text_some [] v = λ e. cc
field_text_some (c ∷ k) v = λ e. cc

read_fields :
    (hs : List (Bytes × Bytes)) (rest : Bytes) (n : ℕ)
    → AreClean hs
    → read_lines (reading_of (field_lines (kept hs) ++ rest) n) ≡ read_lines (reading_of rest n)
read_fields [] rest n h = refl
read_fields ((k, v) ∷ hs) rest n ((ok, nk, tk, ov), h) = elim (Bool-cases (is_owned k)) [
  | inl owned ↦ rw owned (read_fields hs rest n h)
  | inr free ↦
      let more = field_lines (kept hs) ++ rest in
      let line : OneLine (field_text k v) =
        (unfold field_text in
          OneLine-append k (codes ": " ++ v) ok
            (omega arith, refl, refl, (omega arith, refl, refl, ov))) in
      let cut : (k ++ (codes ": " ++ (v ++ (crlf ++ field_lines (kept hs))))) ++ rest
          ≡ field_text k v ++ (crlf ++ more) =
        (unfold field_text in simp append_assoc) in
      let other = header_value_other k v nk tk free in
      rw (free, cut)
        (passed (field_text k v) more n (field_text_some k v) line (unfold field_text in other)
          ∙ read_fields hs rest n h)
]

-- The length is taken as the encoder wrote it.
read_size :
    (m n : ℕ) (rest : Bytes)
    → m ≤ usize_max
    → read_lines (reading_of ((codes "Content-Length: " ++ decimal m) ++ (crlf ++ rest)) n)
      ≡ read_lines (reading_of rest m)
unfolding decimal is_one_line
read_size m n rest l =
    let digits = decimal-AllDigits m in
    let line : OneLine (codes "Content-Length: " ++ decimal m) =
      OneLine-append (codes "Content-Length: ") (decimal m)
        (is_one_line-OneLine (codes "Content-Length: ") refl)
        (AllDigits-IsLine (decimal m) digits).0 in
    let value : parse_usize (trim (b' ' ∷ (decimal m ++ crlf))) ≡ some m =
      ap parse_usize (trim_digits (decimal m) digits) ∙ parse_usize-write_usize m l in
    read_lines_again (reading_of ((codes "Content-Length: " ++ decimal m) ++ (crlf ++ rest)) n)
      (reading_of rest m)
      (line_step_text b'C' (codes "ontent-Length: " ++ decimal m) rest n line
        ∙ ap (after_line (reading_of rest n)) (header_value_size (decimal m))
        ∙ ap (sized (reading_of rest n)) value)

status_text : Response → Bytes
status_text r = codes "HTTP/1.1 " ++ (decimal r.status.code ++ (b' ' ∷ reason r.status))

connection_text : Bool → Bytes
connection_text keep_alive =
    codes "Connection: " ++ (if keep_alive then codes "keep-alive" else codes "close")

status_text_some : (r : Response) → status_text r ≢ []
unfolding status_text
status_text_some r = λ e. cc

connection_text_some : (keep_alive : Bool) → connection_text keep_alive ≢ []
unfolding connection_text
connection_text_some keep_alive = λ e. cc

status_text-IsLine : (r : Response) → IsLine (status_text r)
unfolding status_text is_plain
status_text-IsLine r =
    IsLine-append (codes "HTTP/1.1 ") (decimal r.status.code ++ (b' ' ∷ reason r.status))
      (is_plain-IsLine (codes "HTTP/1.1 ") refl)
      (IsLine-append (decimal r.status.code) (b' ' ∷ reason r.status)
        (AllDigits-IsLine (decimal r.status.code) (decimal-AllDigits r.status.code))
        (IsLine-append (b' ' ∷ []) (reason r.status) (is_plain-IsLine (b' ' ∷ []) refl)
          (reason-IsLine r.status)))

connection_text-OneLine : (keep_alive : Bool) → OneLine (connection_text keep_alive)
unfolding connection_text is_one_line
connection_text-OneLine true = is_one_line-OneLine (codes "Connection: " ++ codes "keep-alive") refl
connection_text-OneLine false = is_one_line-OneLine (codes "Connection: " ++ codes "close") refl

connection_text_other :
    (keep_alive : Bool)
    → header_value (connection_text keep_alive ++ crlf) (codes "content-length") ≡ none
unfolding connection_text header_value split_colon trim trim_by width_front width_back is_space
    is_space_pair is_space_triple eq_ignore_ascii_case to_ascii_lowercase
connection_text_other true = refl
connection_text_other false = refl

-- The lines of a response, up to its body.
read_head :
    (r : Response) (keep_alive : Bool) (m : ℕ) (rest : Bytes)
    → AreClean r.headers.inner
    → m ≤ usize_max
    → read_lines (reading_of (head_of r keep_alive m ++ rest) 0) ≡ (reading_of rest m, ret whole)
read_head r keep_alive m rest h l =
    let blank = crlf ++ rest in
    let connected = connection_text keep_alive ++ (crlf ++ blank) in
    let size = (codes "Content-Length: " ++ decimal m) ++ (crlf ++ connected) in
    let fields = field_lines (kept r.headers.inner) ++ size in
    let cut : head_of r keep_alive m ++ rest ≡ status_text r ++ (crlf ++ fields) =
      (unfold status_text connection_text in simp append_assoc) in
    let (line, plain) = status_text-IsLine r in
    ap (λ s. read_lines (reading_of s 0)) cut
    ∙ passed (status_text r) fields 0 (status_text_some r) line
        (header_value-none (status_text r) plain)
    ∙ read_fields r.headers.inner size 0 h
    ∙ read_size m 0 connected l
    ∙ passed (connection_text keep_alive) blank m (connection_text_some keep_alive)
        (connection_text-OneLine keep_alive) (connection_text_other keep_alive)
    ∙ read_lines_end (reading_of blank m) (reading_of rest m) whole (line_step_blank rest m)

-- What the server encodes is read to its end: whatever follows it on the connection is still to
-- come, so the next response is read from its start. The fields that a handler has set are of one
-- line each, with nothing around the name or a colon in it.
pub read_response-encode :
    (r : Response) (keep_alive : Bool) (rest : Bytes)
    → AreClean r.headers.inner
    → length (body_bytes r.body) ≤ usize_max
    → read_response (encode r keep_alive true [] ++ rest) ≡ (rest, whole)
unfolding read_response read_lines
read_response-encode r keep_alive rest h l =
    let body = body_bytes r.body in
    let sent : encode r keep_alive true [] ++ rest
        ≡ head_of r keep_alive (length body) ++ (body ++ rest) =
      ap (λ s. s ++ rest) (encode_layout r keep_alive true [])
      ∙ append_assoc (head_of r keep_alive (length body)) body rest in
    let all_there : ltb (length (body ++ rest)) (length body) ≡ false =
      ground (arith, length-append body rest) in
    ap read_response sent
    ∙ ap body_read (read_head r keep_alive (length body) (body ++ rest) h l)
    ∙ rw (all_there, drop-length body rest) refl
