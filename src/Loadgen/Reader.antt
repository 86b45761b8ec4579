-- ===== src/Loadgen/Reader.antt =====
-- loadgen/src/main.rs, `send_and_read`: one response is read off a connection. What is still to come
-- on it before it ends or times out is a list of bytes.
pub mod Lines
pub mod Fields
pub mod Texts
pub mod RoundTrip
use rust_tcp_server.Base.{
  ℕ, zero, suc, Bool, true, false, ◌||◌, [], ◌∷◌, ◌++◌, Option, none, some, ◌==◌, ltb,
  if◌then◌else◌, Bytes, codes, length, drop,
}
use rust_tcp_server.Base.Rounds.{Round, again, ret, loop}
use rust_tcp_server.Text.Ascii.{same, eq_ignore_ascii_case}
use rust_tcp_server.Text.Number.{parse_usize}
use rust_tcp_server.Text.Trim.{trim}
use rust_tcp_server.Text.Utf8.{is_utf8}

-- `read_line`: up to a line feed and with it, or to the end.
unfoldable pub line_of : Bytes → Bytes
line_of [] = []
line_of (c ∷ r) = let rest = line_of r in if c == b'\n' then c ∷ [] else c ∷ rest

unfoldable pub behind_line : Bytes → Bytes
behind_line [] = []
behind_line (c ∷ r) = let rest = behind_line r in if c == b'\n' then r else rest

-- `split_once(':')`.
unfoldable pub split_colon : Bytes → Option (Bytes × Bytes)
split_colon [] = none
split_colon (c ∷ r) =
    let rest = split_colon r in
    if c == b':' then some ([], r) else (elim rest [ none ↦ none | some (a, b) ↦ some (c ∷ a, b) ])

abbrev pub value_under : Bytes → Option (Bytes × Bytes) → Option Bytes
value_under name none = none
value_under name (some (raw_name, raw_value)) =
    if eq_ignore_ascii_case (trim raw_name) name then some raw_value else none

unfoldable pub header_value : Bytes → Bytes → Option Bytes
unfolding split_colon
header_value line name = value_under name (split_colon line)

-- How a response is read: to its end, to the end of the connection before that, or to a line that is
-- no text or no length.
pub data ReadEnd : Type 0 where
  whole unexpected_eof invalid_data : ReadEnd

-- What is to come, and `content_length`.
pub record Reading : Type 0 where
  pub coming : Bytes
  pub content_length : ℕ

abbrev pub sized : Reading → Option ℕ → Reading × Round ReadEnd
sized s none = (s, ret invalid_data)
sized s (some n) = (record s { content_length = n }, again)

abbrev pub after_line : Reading → Option Bytes → Reading × Round ReadEnd
after_line s none = (s, again)
after_line s (some value) = sized s (parse_usize (trim value))

abbrev pub take_line : Bytes → Reading → Reading × Round ReadEnd
take_line [] s = (s, ret unexpected_eof)
take_line (c ∷ r) s =
    if is_utf8 (c ∷ r)
    then (if same (c ∷ r) (codes "\r\n") || same (c ∷ r) (codes "\n")
        then (s, ret whole)
        else after_line s (header_value (c ∷ r) (codes "content-length")))
    else (s, ret invalid_data)

unfoldable pub line_step : Reading → Reading × Round ReadEnd
unfolding line_of behind_line header_value
line_step s = take_line (line_of s.coming) (record s { coming = behind_line s.coming })

-- `read_exact` of the body.
abbrev pub body_read : Reading × Round ReadEnd → Bytes × ReadEnd
body_read (s, again) = (s.coming, unexpected_eof)
body_read (s, ret unexpected_eof) = (s.coming, unexpected_eof)
body_read (s, ret invalid_data) = (s.coming, invalid_data)
body_read (s, ret whole) =
    if ltb (length s.coming) s.content_length
    then ([], unexpected_eof)
    else (drop s.content_length s.coming, whole)

-- What is to come after the response, and how it ended. Each line takes a byte, and the last call
-- finds none.
unfoldable pub read_response : Bytes → Bytes × ReadEnd
unfolding line_step loop
read_response coming =
    body_read
      (loop (suc (length coming)) line_step (record { coming = coming; content_length = 0 }))
