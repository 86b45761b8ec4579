-- ===== src/Http/Parser/Refusals.antt =====
-- A message whose declared length is no number, or too large, is refused.
use rust_tcp_server.Base.{
  ℕ, ◌+◌, ◌≤◌, ◌≡◌, refl, sym, ap, ◌∙◌, Bool-cases, inl, inr, ltb, Option, none, some, [], ◌∷◌,
  ◌++◌, arith, Bytes, codes, length, length-append, if◌then◌else◌,
}
use rust_tcp_server.Base.Rounds.{ret, returned}
use rust_tcp_server.Http.Headers.{get_header}
use rust_tcp_server.Http.Method.{Version}
use rust_tcp_server.Http.Parser.Block.{lines_size, block_end, loop-block}
use rust_tcp_server.Http.Parser.Chunks.{advance_lem}
use rust_tcp_server.Http.Parser.Grammar.{AreFields, ended, header_block}
use rust_tcp_server.Http.Parser.Messages.{Message, sent, declared_length, fields_of, ended_append}
use rust_tcp_server.Http.Parser.RequestLine.{request_line, IsRequestLine}
use rust_tcp_server.Http.Parser.RoundTrip.{filled, after_line, line_round, loop-again, loop-ret}
use rust_tcp_server.Http.Parser.{
  determine_content_length, header_fuel, parse_headers, end_of_headers, declared, proceed,
  advance_in, advance_step, settle, push,
}
use rust_tcp_server.Http.State.{failed, done, RequestParser, err, new_parser}
use rust_tcp_server.Http.Status.{ParseError, malformed_header, body_too_large}
use rust_tcp_server.Text.Number.{parse_usize}
use rust_tcp_server.Text.Trim.{trim}
use rust_tcp_server.Limits.{max_body_bytes, max_header_count, max_header_bytes}

-- What is wrong with a declared length; `none` as the length is a value that is no number.
abbrev pub length_error : Option ℕ → Option ParseError
length_error none = some malformed_header
length_error (some n) = if ltb max_body_bytes n then some body_too_large else none

declared_refused :
    (p : RequestParser) (o : Option ℕ) (e : ParseError)
    → length_error o ≡ some e
    → declared p o ≡ (p, err e)
declared_refused p none e h = (let same : malformed_header ≡ e = cc in ap (λ x. (p, err x)) same)
declared_refused p (some n) e h = elim (Bool-cases (ltb max_body_bytes n)) [
  | inl large ↦
      let shown : some body_too_large ≡ some e = rw large at h in
      let same : body_too_large ≡ e = cc in rw large (ap (λ x. (p, err x)) same)
  | inr fits ↦ (let shown : none ≡ some e = rw fits at h in cc)
]

-- A message that is well formed and within the limits but for its length.
pub record IsHead (m : Message) (v : Version) : Type 0 where
  pub first_line : IsRequestLine m.words v
  pub all_fields : AreFields m.fields
  pub few : length m.fields ≤ max_header_count
  pub small : lines_size m.fields + 2 ≤ max_header_bytes

end_of_headers_refused :
    (p : RequestParser) (o : Option Bytes) (e : ParseError)
    → length_error (declared_length o) ≡ some e
    → end_of_headers p o ≡ (p, err e)
end_of_headers_refused p none e h = (let fits : length_error (some 0) ≡ none = refl in cc)
end_of_headers_refused p (some v) e h = declared_refused p (parse_usize (trim v)) e h

block_refused :
    (m : Message) (v : Version) (rest : Bytes) (e : ParseError)
    → IsHead m v
    → length_error (declared_length (get_header (fields_of m) (codes "content-length"))) ≡ some e
    → (q : RequestParser) × (advance_step (after_line m v rest) ≡ (q, ret (failed e)))
unfolding advance_in new_parser parse_headers determine_content_length
block_refused m v rest e h bad =
    let line = request_line m.words in
    let size : length line + 2 ≡ length (ended line []) =
      sym (length-append line (b'\r' ∷ b'\n' ∷ [])) in
    let p =
      block_end (after_line m v rest) m.fields (length m.fields)
        (length (ended line []) + lines_size m.fields) in
    (
      record p { state = done },
      ap proceed (
          loop-block m.fields header_fuel (after_line m v rest) (ended line []) (m.body ++ rest)
            (length m.fields) (length (ended line []) + lines_size m.fields) (omega (arith, h.few))
            (record {
              holds = ended_append line [] (header_block m.fields (m.body ++ rest));
              starts = size;
              searched = size;
            })
            h.all_fields (omega arith) refl h.few (omega (arith, h.small, size))
          ∙ ap returned
              (end_of_headers_refused p (get_header (fields_of m) (codes "content-length")) e bad)),
    )

-- A message that is well formed but for the length that it declares is refused as soon as its header
-- block is there, whatever follows: as a malformed header if the length is no number of the machine,
-- and as a body that is too large if it is above the ceiling.
pub push_refused :
    (m : Message) (v : Version) (rest : Bytes) (e : ParseError)
    → IsHead m v
    → length_error (declared_length (get_header (fields_of m) (codes "content-length"))) ≡ some e
    → (push new_parser (sent m rest)).1 ≡ failed e
unfolding push new_parser
push_refused m v rest e h bad =
    let p = filled m rest in
    let (q, over) = block_refused m v rest e h bad in
    let run =
      loop-again 3 p (after_line m v rest) (line_round m v rest h.first_line)
      ∙ loop-ret 2 (after_line m v rest) q (failed e) over in
    ap (λ x. x.1) (advance_lem p ∙ ap settle run)
