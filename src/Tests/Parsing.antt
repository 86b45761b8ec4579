-- ===== src/Tests/Parsing.antt =====
-- The theorems on the parser at concrete inputs.
use rust_tcp_server.Base.{
  ◌≤◌, ◌≡◌, ◌≢◌, refl, true, List, [], ◌∷◌, some, ◌++◌, arith, Bytes, codes, length,
}
use rust_tcp_server.Connection.Refusals.{Refuses, on_bytes_refused}
use rust_tcp_server.Connection.{new_connection, on_bytes}
use rust_tcp_server.Http.Headers.{get_header}
use rust_tcp_server.Http.Method.{http11}
use rust_tcp_server.Http.Parser.{push}
use rust_tcp_server.Http.Parser.Bounds.{IsValid}
use rust_tcp_server.Http.Parser.Ceilings.{
  new_parser-IsValid, push_held, max_held, WithinLimits, push-WithinLimits, push-reset,
}
use rust_tcp_server.Http.Parser.Chunks.{seen, Grows, push-append}
use rust_tcp_server.Http.Parser.Grammar.{lacks, lacks-Lacks}
use rust_tcp_server.Http.Parser.Messages.{
  Message, sent, declared_length, fields_of, IsMessage, message_request,
}
use rust_tcp_server.Http.Parser.Refusals.{IsHead, length_error}
use rust_tcp_server.Http.Parser.RequestLine.{IsWord}
use rust_tcp_server.Http.Parser.RoundTrip.{push-sent}
use rust_tcp_server.Http.Parser.Stream.{flatten, push_each, Waits, push-flatten}
use rust_tcp_server.Http.State.{RequestParser, new_parser, reset, incomplete, complete, done}
use rust_tcp_server.Http.Status.{body_too_large}
use rust_tcp_server.Tests.Connections.{respond}
use rust_tcp_server.Tests.Requests.{hello, hello_request, push_runs}

abbrev message : Message
message = record {
  words = record { method = codes "GET"; path = codes "/a"; version = codes "HTTP/1.1" };
  fields =
      record { name = codes "Host "; value = codes " x" }
      ∷ record { name = codes "content-length"; value = codes " 2" }
      ∷ [];
  body = codes "hi";
}

word : (w : Bytes) → lacks b' ' w ≡ true → lacks b'\r' w ≡ true → w ≢ [] → IsWord w
word w s c n = record {
  one_word = lacks-Lacks b' ' w s;
  one_line = lacks-Lacks b'\r' w c;
  non_empty = n;
}

message-IsMessage : IsMessage message http11
unfolding push_runs
message-IsMessage = record {
  first_line = record {
    method_word = word (codes "GET") refl refl (λ e. cc);
    path_word = word (codes "/a") refl refl (λ e. cc);
    version_word = word (codes "HTTP/1.1") refl refl (λ e. cc);
    path_utf8 = refl;
    known_version = refl;
    short = omega arith;
  };
  all_fields = (
    record {
      name_plain = lacks-Lacks b'\r' (codes "Host ") refl;
      value_plain = lacks-Lacks b'\r' (codes " x") refl;
      name_colon = lacks-Lacks b':' (codes "Host ") refl;
      name_utf8 = refl;
      value_utf8 = refl;
      named = λ e. cc;
    },
    (
      record {
        name_plain = lacks-Lacks b'\r' (codes "content-length") refl;
        value_plain = lacks-Lacks b'\r' (codes " 2") refl;
        name_colon = lacks-Lacks b':' (codes "content-length") refl;
        name_utf8 = refl;
        value_utf8 = refl;
        named = λ e. cc;
      },
      tt,
    ),
  );
  few = omega arith;
  small = omega arith;
  says_length = refl;
  fits = omega arith;
}

push-sent_example :
    (q : RequestParser) × (push new_parser (sent message (codes "GET"))
      ≡ (q, complete (message_request message http11) (length (sent message []))))
    × (q.buf ≡ codes "GET")
push-sent_example = push-sent message http11 (codes "GET") message-IsMessage

-- The same with a length that is above the ceiling.
abbrev large : Message
large = record {
  words = record { method = codes "POST"; path = codes "/a"; version = codes "HTTP/1.1" };
  fields = record { name = codes "Content-Length"; value = codes " 9999999" } ∷ [];
  body = [];
}

large-IsHead : IsHead large http11
unfolding push_runs
large-IsHead = record {
  first_line = record {
    method_word = word (codes "POST") refl refl (λ e. cc);
    path_word = word (codes "/a") refl refl (λ e. cc);
    version_word = word (codes "HTTP/1.1") refl refl (λ e. cc);
    path_utf8 = refl;
    known_version = refl;
    short = omega arith;
  };
  all_fields = (
    record {
      name_plain = lacks-Lacks b'\r' (codes "Content-Length") refl;
      value_plain = lacks-Lacks b'\r' (codes " 9999999") refl;
      name_colon = lacks-Lacks b':' (codes "Content-Length") refl;
      name_utf8 = refl;
      value_utf8 = refl;
      named = λ e. cc;
    },
    tt,
  );
  few = omega arith;
  small = omega arith;
}

large_length :
    length_error (declared_length (get_header (fields_of large) (codes "content-length")))
    ≡ some body_too_large
unfolding push_runs
large_length = refl

on_bytes_refused_example :
    Refuses respond
      (on_bytes respond (new_connection 7 30) (sent large (codes "a=1")))
      body_too_large
      9
on_bytes_refused_example =
    on_bytes_refused respond large http11 (codes "a=1") body_too_large 7 30 9 large-IsHead
      large_length

abbrev cut_hello : List Bytes
cut_hello = codes "GE" ∷ (codes "T /a HTTP/1.1" ++ b'\r' ∷ []) ∷ []

abbrev cut_last : Bytes
cut_last = b'\n' ∷ b'\r' ∷ b'\n' ∷ codes "GET"

cut_hello-Waits : Waits new_parser cut_hello
unfolding push_runs
cut_hello-Waits = (refl, (refl, tt))

push-flatten_example :
    seen (push (push_each new_parser cut_hello) cut_last)
    ≡ seen (push new_parser (flatten cut_hello ++ cut_last))
push-flatten_example = push-flatten new_parser cut_hello cut_last new_parser-IsValid cut_hello-Waits

push-append_example :
    Grows (codes "GET") (push new_parser hello) (push new_parser (hello ++ codes "GET"))
push-append_example = push-append new_parser hello (codes "GET") new_parser-IsValid

abbrev after_hello : RequestParser
after_hello = (push new_parser hello).0

hello_completes : push new_parser hello ≡ (after_hello, complete hello_request 45)
unfolding push_runs
hello_completes = refl

push-WithinLimits_example : WithinLimits hello_request
push-WithinLimits_example =
    push-WithinLimits new_parser after_hello hello hello_request 45 new_parser-IsValid
      hello_completes

push-reset_example :
    (reset after_hello ≡ record new_parser { buf = after_hello.buf }) × IsValid (reset after_hello)
push-reset_example =
    push-reset new_parser after_hello hello hello_request 45 new_parser-IsValid hello_completes

abbrev part : Bytes
part = codes "GET /a HTTP/1.1" ++ b'\r' ∷ b'\n' ∷ codes "Ho"

abbrev after_part : RequestParser
after_part = (push new_parser part).0

part_waits : push new_parser part ≡ (after_part, incomplete)
unfolding push_runs
part_waits = refl

after_part_busy : after_part.state ≢ done
unfolding push_runs
after_part_busy e = cc

push_held_example : length after_part.buf ≤ max_held
push_held_example =
    push_held new_parser after_part part new_parser-IsValid part_waits after_part_busy
