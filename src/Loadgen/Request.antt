-- ===== src/Loadgen/Request.antt =====
-- loadgen/src/main.rs, the request of `run`, as the server takes it.
use rust_tcp_server.Base.{
  ◌≤◌, ◌≡◌, refl, true, not, [], ◌∷◌, ◌++◌, Bytes, codes, length, length-append, arith,
}
use rust_tcp_server.Http.Headers.{get_header, find_header, insert_header}
use rust_tcp_server.Http.Method.{http11, parse_method, same_method, parse_version, head}
use rust_tcp_server.Http.Parser.Grammar.{lacks-Lacks, Lacks}
use rust_tcp_server.Http.Parser.Messages.{Message, sent, IsMessage, message_request}
use rust_tcp_server.Http.Parser.RequestLine.{IsRequestLine}
use rust_tcp_server.Http.Request.{Request, wants_keep_alive, connection_has, any_token}
use rust_tcp_server.Loadgen.Reader.Fields.{OneLine}
use rust_tcp_server.Text.Ascii.{eq_ignore_ascii_case, to_ascii_lowercase}
use rust_tcp_server.Text.Split.{split}
use rust_tcp_server.Text.Trim.{
  is_space, is_space_pair, is_space_triple, width_front, width_back, trim_by, trim,
}
use rust_tcp_server.Text.Utf8.{is_utf8, IsAscii, is_utf8-IsAscii}

-- The text that each worker sends, with the target that the command line names.
unfoldable pub request_text : Bytes → Bytes
request_text target =
    codes "GET / HTTP/1.1\r\nHost: " ++ (target ++ codes "\r\nConnection: keep-alive\r\n\r\n")

abbrev pub request_message : Bytes → Message
request_message target = record {
  words = record { method = codes "GET"; path = codes "/"; version = codes "HTTP/1.1" };
  fields =
      record { name = codes "Host"; value = b' ' ∷ target }
      ∷ record { name = codes "Connection"; value = codes " keep-alive" }
      ∷ [];
  body = [];
}

pub request_text-sent : (target : Bytes) → request_text target ≡ sent (request_message target) []
unfolding request_text
request_text-sent target = refl

OneLine-Lacks : (l : Bytes) → OneLine l → Lacks b'\r' l
OneLine-Lacks [] h = tt
OneLine-Lacks (c ∷ l) (x, y, z, h) = (z, OneLine-Lacks l h)

OneLine-IsAscii : (l : Bytes) → OneLine l → IsAscii l
OneLine-IsAscii [] h = tt
OneLine-IsAscii (c ∷ l) (x, y, z, h) = (x, OneLine-IsAscii l h)

words-IsRequestLine : (target : Bytes) → IsRequestLine (request_message target).words http11
unfolding is_utf8 parse_version
words-IsRequestLine target = record {
  method_word = record {
    one_word = lacks-Lacks b' ' (codes "GET") refl;
    one_line = lacks-Lacks b'\r' (codes "GET") refl;
    non_empty = λ e. cc;
  };
  path_word = record { one_word = (refl, tt); one_line = (refl, tt); non_empty = λ e. cc };
  version_word = record {
    one_word = lacks-Lacks b' ' (codes "HTTP/1.1") refl;
    one_line = lacks-Lacks b'\r' (codes "HTTP/1.1") refl;
    non_empty = λ e. cc;
  };
  path_utf8 = refl;
  known_version = refl;
  short = omega arith;
}

pub request_message-IsMessage :
    (target : Bytes)
    → OneLine target
    → length target ≤ 256
    → IsMessage (request_message target) http11
unfolding trim trim_by width_front width_back is_space is_space_pair is_space_triple is_utf8
    get_header find_header insert_header eq_ignore_ascii_case to_ascii_lowercase
request_message-IsMessage target h l = record {
  first_line = words-IsRequestLine target;
  all_fields = (
    record {
      name_plain = lacks-Lacks b'\r' (codes "Host") refl;
      value_plain = (refl, OneLine-Lacks target h);
      name_colon = lacks-Lacks b':' (codes "Host") refl;
      name_utf8 = refl;
      value_utf8 = is_utf8-IsAscii (b' ' ∷ target) (omega arith, OneLine-IsAscii target h);
      named = λ e. cc;
    },
    (
      record {
        name_plain = lacks-Lacks b'\r' (codes "Connection") refl;
        value_plain = lacks-Lacks b'\r' (codes " keep-alive") refl;
        name_colon = lacks-Lacks b':' (codes "Connection") refl;
        name_utf8 = refl;
        value_utf8 = refl;
        named = λ e. cc;
      },
      tt,
    ),
  );
  few = omega arith;
  small = omega (arith, l, length-append (codes "Host: ") target);
  says_length = refl;
  fits = omega arith;
}

-- What the server's handlers are asked.
abbrev pub request_of : Bytes → Request
request_of target = message_request (request_message target) http11

pub request_of-kept : (target : Bytes) → wants_keep_alive (request_of target) ≡ true
unfolding wants_keep_alive connection_has any_token split trim trim_by width_front width_back
    is_space is_space_pair is_space_triple get_header find_header insert_header eq_ignore_ascii_case
    to_ascii_lowercase
request_of-kept target = refl

pub request_of-body : (target : Bytes) → not (same_method (request_of target).method head) ≡ true
unfolding parse_method same_method
request_of-body target = refl
