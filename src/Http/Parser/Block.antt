-- ===== src/Http/Parser/Block.antt =====
-- The parser reads a well-formed header block to its end, one field at each round of the loop.
use rust_tcp_server.Base.{
  ℕ, zero, suc, ◌+◌, ◌-◌, ◌≤◌, ◌<◌, ◌≡◌, refl, sym, ap, ◌∙◌, true, false, ltb, some, List, [], ◌∷◌,
  ◌++◌, ◌==◌, arith, Bytes, length,
}
use rust_tcp_server.Base.Rounds.{returned, loop, resume}
use rust_tcp_server.Http.Headers.{Headers}
use rust_tcp_server.Http.Parser.Accepts.{with_field, header_step-field}
use rust_tcp_server.Http.Parser.Grammar.{
  Field, field_line, ended, header_block, AreFields, insert_fields, At, next_crlf-ended,
  ended-append, length-ended,
}
use rust_tcp_server.Http.Parser.{header_at, header_step, determine_content_length}
use rust_tcp_server.Http.State.{RequestParser}
use rust_tcp_server.Limits.{max_header_bytes, max_header_count}

-- The bytes of the field lines, each with its end.
abbrev pub lines_size : List Field → ℕ
lines_size [] = 0
lines_size (f ∷ fs) = length (field_line f) + 2 + lines_size fs

abbrev pub at_line : RequestParser → ℕ → Headers → ℕ → RequestParser
at_line p count h l = record p { header_count = count; headers = h; line_start = l; scanned = l }

at_line_same :
    (p : RequestParser) (count l : ℕ)
    → p.header_count ≡ count
    → p.line_start ≡ l
    → p.scanned ≡ l
    → p ≡ at_line p count p.headers l
at_line_same p count l e f g =
    ap (λ c. record p { header_count = c }) e
    ∙ ap (λ k. record p { header_count = count; line_start = k }) f
    ∙ ap (λ k. record p { header_count = count; line_start = l; scanned = k }) g

header_step-end :
    (p : RequestParser) (before rest : Bytes)
    → At p before (ended [] rest)
    → length before + 2 - p.header_block_start ≤ max_header_bytes
    → header_step p
      ≡ returned (determine_content_length (record p { body_start = length before + 2 }))
unfolding header_step header_at
header_step-end p before rest a m =
    let within : ltb max_header_bytes (length before + 2 - p.header_block_start) ≡ false =
      ground arith in
    let there : length before == p.line_start ≡ true = ground arith in
    let none_left : length before + 0 ≡ length before = omega arith in
    ap header_at (next_crlf-ended p before [] rest a tt)
    ∙ ap (λ k. header_at (p, some k)) none_left
    ∙ rw (within, there) refl

abbrev pub block_end : RequestParser → List Field → ℕ → ℕ → RequestParser
block_end p fs count l = record (at_line p count (insert_fields p.headers fs) l) {
  body_start = l + 2;
}

pub loop-block :
    (fs : List Field) (fuel : ℕ) (p : RequestParser) (before rest : Bytes) (count l : ℕ)
    → length fs < fuel
    → At p before (header_block fs rest)
    → AreFields fs
    → p.header_count + length fs ≡ count
    → length before + lines_size fs ≡ l
    → count ≤ max_header_count
    → l + 2 - p.header_block_start ≤ max_header_bytes
    → loop fuel header_step p ≡ returned (determine_content_length (block_end p fs count l))
unfolding loop
loop-block fs zero p before rest count l u a h e k c m = absurd (omega arith)
loop-block [] (suc fuel) p before rest count l u a h e k c m =
    let here : length before ≡ l = omega arith in
    let e0 : p.header_count ≡ count = omega arith in
    let start : p.line_start ≡ l = a.starts ∙ here in
    let searched : p.scanned ≡ l = a.searched ∙ here in
    ap (λ x. resume x (loop fuel header_step))
      (header_step-end p before rest a (omega arith)
        ∙ ap
            (λ q. returned (determine_content_length (record q { body_start = length before + 2 })))
            (at_line_same p count l e0 start searched)
        ∙ ap
            (λ n. returned (
              determine_content_length
                (record (at_line p count p.headers l) { body_start = n + 2 })))
            here)
loop-block (f ∷ fs) (suc fuel) p before rest count l u a h e k c m =
    let eol = length before + length (field_line f) in
    let next = before ++ ended (field_line f) [] in
    let size : length next ≡ eol + 2 = length-ended before (field_line f) ∙ omega arith in
    let moved : At (with_field p f eol) next (header_block fs rest) = record {
      holds = a.holds ∙ ended-append before (field_line f) (header_block fs rest);
      starts = sym size;
      searched = sym size;
    } in
    ap (λ x. resume x (loop fuel header_step))
      (header_step-field p before f (header_block fs rest) a h.0 (omega arith) (omega arith))
    ∙ loop-block fs fuel (with_field p f eol) next rest count l (omega arith) moved h.1
        (omega arith) (omega arith) c m
