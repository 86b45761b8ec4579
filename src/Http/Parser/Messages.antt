-- ===== src/Http/Parser/Messages.antt =====
-- A whole message as its client sends it, when it is well formed and within the limits, and the
-- request that it stands for.
use rust_tcp_server.Base.{
  ℕ, suc, ◌+◌, ◌-◌, ◌≤◌, ◌≡◌, refl, sym, ap, ◌∙◌, Option, none, some, List, [], ◌∷◌, ◌++◌, arith,
  Bytes, codes, length, length-append, take, drop, drop-length, drop-drop, take-length, slice,
  append_assoc, append-nil,
}
use rust_tcp_server.Http.Headers.{Headers, no_headers, get_header}
use rust_tcp_server.Http.Method.{Version, parse_method}
use rust_tcp_server.Http.Parser.Block.{lines_size}
use rust_tcp_server.Http.Parser.Grammar.{
  Field, field_line, ended, header_block, AreFields, insert_fields,
}
use rust_tcp_server.Http.Parser.RequestLine.{Words, request_line, IsRequestLine}
use rust_tcp_server.Http.Request.{Request}
use rust_tcp_server.Limits.{max_header_bytes, max_header_count, max_body_bytes}
use rust_tcp_server.Text.Number.{parse_usize}
use rust_tcp_server.Text.Trim.{trim}

pub record Message : Type 0 where
  pub words : Words
  pub fields : List Field
  pub body : Bytes

-- The message as its client sends it, and what it sends after that.
abbrev pub sent : Message → Bytes → Bytes
sent m rest = ended (request_line m.words) (header_block m.fields (m.body ++ rest))

abbrev pub declared_length : Option Bytes → Option ℕ
declared_length none = some 0
declared_length (some v) = parse_usize (trim v)

abbrev pub fields_of : Message → Headers
fields_of m = insert_fields no_headers m.fields

pub record IsMessage (m : Message) (v : Version) : Type 0 where
  pub first_line : IsRequestLine m.words v
  pub all_fields : AreFields m.fields
  pub few : length m.fields ≤ max_header_count
  pub small : lines_size m.fields + 2 ≤ max_header_bytes
  pub says_length :
      declared_length (get_header (fields_of m) (codes "content-length")) ≡ some (length m.body)
  pub fits : length m.body ≤ max_body_bytes

abbrev pub message_request : Message → Version → Request
message_request m v = record {
  method = parse_method m.words.method;
  path = m.words.path;
  version = v;
  headers = fields_of m;
  body = m.body;
}

pub ended_append : (line xs ys : Bytes) → ended line (xs ++ ys) ≡ ended line xs ++ ys
ended_append line xs ys = sym (append_assoc line (b'\r' ∷ b'\n' ∷ xs) ys)

header_block-append :
    (fs : List Field) (rest : Bytes) → header_block fs rest ≡ header_block fs [] ++ rest
header_block-append [] rest = refl
header_block-append (f ∷ fs) rest =
    ap (λ r. ended (field_line f) r) (header_block-append fs rest)
    ∙ ended_append (field_line f) (header_block fs []) rest

length-header_block : (fs : List Field) → length (header_block fs []) ≡ lines_size fs + 2
length-header_block [] = refl
length-header_block (f ∷ fs) =
    length-append (field_line f) (b'\r' ∷ b'\n' ∷ header_block fs [])
    ∙ ap (λ n. length (field_line f) + suc (suc n)) (length-header_block fs)
    ∙ omega arith

-- The message without its body.
abbrev pub head : Message → Bytes
head m = ended (request_line m.words) (header_block m.fields [])

pub sent-head : (m : Message) (rest : Bytes) → sent m rest ≡ head m ++ (m.body ++ rest)
sent-head m rest =
    ap (λ r. ended (request_line m.words) r) (header_block-append m.fields (m.body ++ rest))
    ∙ ended_append (request_line m.words) (header_block m.fields []) (m.body ++ rest)

pub length-head :
    (m : Message) → length (head m) ≡ length (request_line m.words) + 2 + (lines_size m.fields + 2)
length-head m =
    length-append (request_line m.words) (b'\r' ∷ b'\n' ∷ header_block m.fields [])
    ∙ ap (λ n. length (request_line m.words) + suc (suc n)) (length-header_block m.fields)
    ∙ omega arith

pub slice-body :
    (before body rest : Bytes) (n : ℕ)
    → length before ≡ n
    → slice n (n + length body) (before ++ (body ++ rest)) ≡ body
slice-body before body rest n e =
    let size : n + length body - n ≡ length body = omega arith in
    ap (λ k. take k (drop n (before ++ (body ++ rest)))) size
    ∙ ap (λ k. take (length body) (drop k (before ++ (body ++ rest)))) (sym e)
    ∙ ap (take (length body)) (drop-length before (body ++ rest))
    ∙ take-length body rest

pub drop-body :
    (before body rest : Bytes) (n : ℕ)
    → length before ≡ n
    → drop (n + length body) (before ++ (body ++ rest)) ≡ rest
drop-body before body rest n e =
    sym (drop-drop (length body) n (before ++ (body ++ rest)))
    ∙ ap (λ k. drop (length body) (drop k (before ++ (body ++ rest)))) (sym e)
    ∙ ap (drop (length body)) (drop-length before (body ++ rest))
    ∙ drop-length body rest

pub length-sent : (m : Message) → length (sent m []) ≡ length (head m) + length m.body
length-sent m =
    ap length (sent-head m [])
    ∙ length-append (head m) (m.body ++ [])
    ∙ ap (λ b. length (head m) + length b) (append-nil m.body)
