-- ===== src/Http/Parser/Accepts.antt =====
-- The parser reads a well-formed header block as the grammar says.
use rust_tcp_server.Base.{
  ℕ, suc, ◌+◌, ◌-◌, ◌≤◌, ◌<◌, ◌≡◌, ◌≢◌, refl, ap, ◌∙◌, false, ltb, [], ◌∷◌, ◌==◌, arith, Bytes,
  length, length-append, take-length, drop, slice,
}
use rust_tcp_server.Base.Rounds.{again}
use rust_tcp_server.Http.Headers.{insert_header}
use rust_tcp_server.Http.Parser.Grammar.{
  Field, field_line, ended, IsField, Lacks-append, At, next_crlf-ended, slice-ended, position-field,
  drop-field,
}
use rust_tcp_server.Http.Parser.{is_empty, header_at, header_step, accept_line, accept_field}
use rust_tcp_server.Http.State.{RequestParser}
use rust_tcp_server.Limits.{max_header_bytes, max_header_count}
use rust_tcp_server.Text.Split.{position}
use rust_tcp_server.Text.Trim.{trim}

-- The parser after one field, whose line ends at `eol`.
abbrev pub with_field : RequestParser → Field → ℕ → RequestParser
with_field p f eol = record p {
  header_count = p.header_count + 1;
  headers = insert_header p.headers (trim f.name) (trim f.value);
  line_start = eol + 2;
  scanned = eol + 2;
}

pub is_empty-named : (t : Bytes) → t ≢ [] → is_empty t ≡ false
is_empty-named [] h = absurd (h refl)
is_empty-named (c ∷ r) h = refl

accept_field-IsField :
    (p : RequestParser) (f : Field) (eol : ℕ)
    → IsField f
    → p.header_count < max_header_count
    → accept_field p eol f.name f.value ≡ (with_field p f eol, again)
accept_field-IsField p f eol h c =
    let over : ltb max_header_count (p.header_count + 1) ≡ false = ground arith in
    rw (h.name_utf8, h.value_utf8, is_empty-named (trim f.name) h.named, over) refl

accept_line-IsField :
    (p : RequestParser) (f : Field) (eol : ℕ)
    → IsField f
    → p.header_count < max_header_count
    → accept_line p eol (field_line f) (position b':' (field_line f)) ≡ (with_field p f eol, again)
accept_line-IsField p f eol h c =
    ap (accept_line p eol (field_line f)) (position-field f.name f.value h.name_colon)
    ∙ ap (λ n. accept_field p eol n (drop (length f.name + 1) (field_line f)))
        (take-length f.name (b':' ∷ f.value))
    ∙ ap (accept_field p eol f.name) (drop-field f.name f.value)
    ∙ accept_field-IsField p f eol h c

pub header_step-field :
    (p : RequestParser) (before : Bytes) (f : Field) (rest : Bytes)
    → At p before (ended (field_line f) rest)
    → IsField f
    → p.header_count < max_header_count
    → length before + length (field_line f) + 2 - p.header_block_start ≤ max_header_bytes
    → header_step p ≡ (with_field p f (length before + length (field_line f)), again)
unfolding header_step header_at
header_step-field p before f rest a h c m =
    let line = field_line f in
    let eol = length before + length line in
    let plain = Lacks-append b'\r' f.name (b':' ∷ f.value) h.name_plain (refl, h.value_plain) in
    let within : ltb max_header_bytes (eol + 2 - p.header_block_start) ≡ false = ground arith in
    let size : length line ≡ length f.name + suc (length f.value) =
      length-append f.name (b':' ∷ f.value) in
    let there : eol == p.line_start ≡ false = ground arith in
    let read : slice p.line_start eol p.buf ≡ line =
      ap (λ k. slice k eol p.buf) a.starts
      ∙ ap (slice (length before) eol) a.holds
      ∙ slice-ended before line rest in
    ap header_at (next_crlf-ended p before line rest a plain)
    ∙ rw (within, there)
        (ap (λ l. accept_line p eol l (position b':' l)) read ∙ accept_line-IsField p f eol h c)
