-- ===== src/Http/Parser/RoundTrip.antt =====
-- The parser returns a request that was written out by the grammar, field by field and byte by byte.
use rust_tcp_server.Base.{
  ℕ, suc, ◌+◌, ◌-◌, ◌≤◌, ◌≡◌, refl, sym, ap, ◌∙◌, true, false, ltb, Option, none, some, [], ◌∷◌,
  ◌++◌, arith, Bytes, codes, length, length-append, drop, slice,
}
use rust_tcp_server.Base.Rounds.{again, ret, returned, loop, resume}
use rust_tcp_server.Http.Headers.{no_headers, get_header}
use rust_tcp_server.Http.Method.{Version}
use rust_tcp_server.Http.Parser.Block.{lines_size, block_end, loop-block}
use rust_tcp_server.Http.Parser.Chunks.{advance_lem}
use rust_tcp_server.Http.Parser.Grammar.{ended, header_block, insert_fields, At}
use rust_tcp_server.Http.Parser.RequestLine.{
  request_line, IsRequestLine, with_request_line, parse_request_line-IsRequestLine,
}
use rust_tcp_server.Http.Parser.{
  determine_content_length, header_fuel, parse_headers, parse_body, request_of, end_of_headers,
  declared, proceed, advance_in, advance_step, settle, push,
}
use rust_tcp_server.Http.Request.{Request}
use rust_tcp_server.Http.State.{ParseStatus, complete, at_body, done, RequestParser, new_parser, ok}
use rust_tcp_server.Limits.{max_body_bytes}
use rust_tcp_server.Http.Parser.Messages.{
  Message, sent, declared_length, IsMessage, message_request, ended_append, sent-head, head,
  length-head, slice-body, drop-body, length-sent,
}

end_of_headers-declared :
    (p : RequestParser) (o : Option Bytes) (n : ℕ)
    → declared_length o ≡ some n
    → n ≤ max_body_bytes
    → end_of_headers p o ≡ (record p { content_length = n; state = at_body }, ok true)
end_of_headers-declared p none n h k =
    ap (λ x. (record p { content_length = x; state = at_body }, ok true)) (ground arith)
end_of_headers-declared p (some v) n h k =
    let fits : ltb max_body_bytes n ≡ false = ground arith in ap (declared p) h ∙ rw fits refl

determine_content_length-declared :
    (p : RequestParser) (n : ℕ)
    → declared_length (get_header p.headers (codes "content-length")) ≡ some n
    → n ≤ max_body_bytes
    → determine_content_length p ≡ (record p { content_length = n; state = at_body }, ok true)
unfolding determine_content_length
determine_content_length-declared p n h k =
    end_of_headers-declared p (get_header p.headers (codes "content-length")) n h k

parse_headers-fields :
    (p : RequestParser) (m : Message) (v : Version) (before rest : Bytes) (count l : ℕ)
    → At p before (header_block m.fields rest)
    → IsMessage m v
    → p.header_count ≡ 0
    → p.headers ≡ no_headers
    → p.header_block_start ≡ length before
    → length m.fields ≡ count
    → length before + lines_size m.fields ≡ l
    → parse_headers p ≡ (
      record (block_end p m.fields count l) { content_length = length m.body; state = at_body },
      ret (ok true),
    )
unfolding parse_headers
parse_headers-fields p m v before rest count l a h z none_yet start e k =
    loop-block m.fields header_fuel p before rest count l (omega arith) a h.all_fields (omega arith)
      k (omega arith) (omega arith)
    ∙ ap returned (
        determine_content_length-declared (block_end p m.fields count l) (length m.body)
          (ap
              (λ hs.
                declared_length (get_header (insert_fields hs m.fields) (codes "content-length")))
              none_yet
            ∙ h.says_length)
          h.fits)

pub loop-again :
    (n : ℕ) (p q : RequestParser)
    → advance_step p ≡ (q, again)
    → loop (suc n) advance_step p ≡ loop n advance_step q
unfolding loop
loop-again n p q h = ap (λ x. resume x (loop n advance_step)) h

pub loop-ret :
    (n : ℕ) (p q : RequestParser) (s : ParseStatus)
    → advance_step p ≡ (q, ret s)
    → loop (suc n) advance_step p ≡ (q, ret s)
unfolding loop
loop-ret n p q s h = ap (λ x. resume x (loop n advance_step)) h

abbrev emptied : RequestParser → Bytes → RequestParser
emptied p rest = record p { path = []; headers = no_headers; buf = rest; state = done }

abbrev with_body : RequestParser → Bytes → Request
with_body p body = record {
  method = p.method;
  path = p.path;
  version = p.version;
  headers = p.headers;
  body = body;
}

parse_body-whole :
    (p : RequestParser) (before body rest : Bytes)
    → p.buf ≡ before ++ (body ++ rest)
    → p.body_start ≡ length before
    → p.content_length ≡ length body
    → parse_body p ≡ (emptied p rest, complete (with_body p body) (length before + length body))
unfolding parse_body
parse_body-whole p before body rest h s n =
    let bytes : length p.buf ≡ length before + length (body ++ rest) =
      ap length h ∙ length-append before (body ++ rest) in
    let tail : length (body ++ rest) ≡ length body + length rest = length-append body rest in
    let there : ltb (length p.buf - p.body_start) p.content_length ≡ false = ground arith in
    let taken : p.body_start + p.content_length ≡ length before + length body = omega arith in
    let left : drop (p.body_start + p.content_length) p.buf ≡ rest =
      ap (λ k. drop (p.body_start + k) p.buf) n
      ∙ ap (drop (p.body_start + length body)) h
      ∙ drop-body before body rest p.body_start (sym s) in
    let read : slice p.body_start (p.body_start + p.content_length) p.buf ≡ body =
      ap (λ k. slice p.body_start (p.body_start + k) p.buf) n
      ∙ ap (slice p.body_start (p.body_start + length body)) h
      ∙ slice-body before body rest p.body_start (sym s) in
    rw there (
      ap
        (λ b. (
          record p { path = []; headers = no_headers; buf = b; state = done },
          complete (request_of p) (p.body_start + p.content_length),
        ))
        left
      ∙ ap (λ b. (emptied p rest, complete (with_body p b) (p.body_start + p.content_length))) read
      ∙ ap (λ k. (emptied p rest, complete (with_body p body) k)) taken)

-- The parser at the three rounds of `advance` for a message.
abbrev pub filled : Message → Bytes → RequestParser
filled m rest = record new_parser { buf = sent m rest }

abbrev pub after_line : Message → Version → Bytes → RequestParser
after_line m v rest = with_request_line (filled m rest) m.words v (length (request_line m.words))

abbrev after_block : Message → Version → Bytes → RequestParser
after_block m v rest =
    record (block_end (after_line m v rest) m.fields (length m.fields)
      (length (ended (request_line m.words) []) + lines_size m.fields)) {
        content_length = length m.body;
        state = at_body;
      }

pub line_round :
    (m : Message) (v : Version) (rest : Bytes)
    → IsRequestLine m.words v
    → advance_step (filled m rest) ≡ (after_line m v rest, again)
unfolding advance_in new_parser
line_round m v rest h =
    ap (λ x. proceed (returned x))
      (parse_request_line-IsRequestLine (filled m rest) m.words v
        (header_block m.fields (m.body ++ rest))
        (record { holds = refl; starts = refl; searched = refl }) h)

block_round :
    (m : Message) (v : Version) (rest : Bytes)
    → IsMessage m v
    → advance_step (after_line m v rest) ≡ (after_block m v rest, again)
unfolding advance_in new_parser
block_round m v rest h =
    let line = request_line m.words in
    let size : length line + 2 ≡ length (ended line []) =
      sym (length-append line (b'\r' ∷ b'\n' ∷ [])) in
    ap proceed (
      parse_headers-fields (after_line m v rest) m v (ended line []) (m.body ++ rest)
        (length m.fields) (length (ended line []) + lines_size m.fields)
        (record {
          holds = ended_append line [] (header_block m.fields (m.body ++ rest));
          starts = size;
          searched = size;
        })
        h refl refl size refl refl)

body_round :
    (m : Message) (v : Version) (rest : Bytes)
    → advance_step (after_block m v rest) ≡ (
      emptied (after_block m v rest) rest,
      ret (complete (message_request m v) (length (sent m []))),
    )
unfolding advance_in new_parser
body_round m v rest =
    let line = request_line m.words in
    let size : length (ended line []) ≡ length line + 2 = length-append line (b'\r' ∷ b'\n' ∷ []) in
    let behind : length (ended line []) + lines_size m.fields + 2 ≡ length (head m) =
      ap (λ n. n + lines_size m.fields + 2) size ∙ omega arith ∙ sym (length-head m) in
    ap returned
      (parse_body-whole (after_block m v rest) (head m) m.body rest (sent-head m rest) behind refl)
    ∙ ap (λ k. (emptied (after_block m v rest) rest, ret (complete (message_request m v) k)))
        (sym (length-sent m))

-- A well-formed message within the limits, pushed whole into a new parser, is completed: the request
-- has the message's words, its fields trimmed, and its body byte by byte; as many bytes as the message
-- has are consumed, and what was pushed behind it is left in the buffer.
pub push-sent :
    (m : Message) (v : Version) (rest : Bytes)
    → IsMessage m v
    → (q : RequestParser) × (push new_parser (sent m rest)
        ≡ (q, complete (message_request m v) (length (sent m []))))
      × (q.buf ≡ rest)
unfolding push new_parser
push-sent m v rest h =
    let p = filled m rest in
    (
      emptied (after_block m v rest) rest,
      advance_lem p
          ∙ ap settle (
              loop-again 3 p (after_line m v rest) (line_round m v rest h.first_line)
              ∙ loop-again 2 (after_line m v rest) (after_block m v rest) (block_round m v rest h)
              ∙ loop-ret 1 (after_block m v rest) (emptied (after_block m v rest) rest)
                  (complete (message_request m v) (length (sent m []))) (body_round m v rest)),
      refl,
    )
