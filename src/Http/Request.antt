-- ===== src/Http/Request.antt =====
-- core/src/http/request.rs, `Request`: what the parser hands on.
use rust_tcp_server.Base.{
  ℕ, Bool, false, not, ◌||◌, List, [], ◌∷◌, Option, none, some, Bytes, codes,
}
use rust_tcp_server.Http.Headers.{Headers, get_header}
use rust_tcp_server.Http.Method.{Method, Version, http10, http11}
use rust_tcp_server.Text.Ascii.{eq_ignore_ascii_case}
use rust_tcp_server.Text.Number.{parse_usize}
use rust_tcp_server.Text.Split.{split}
use rust_tcp_server.Text.Trim.{trim}

pub record Request : Type 0 where
  pub method : Method
  pub path : Bytes
  pub version : Version
  pub headers : Headers
  pub body : Bytes

-- `any(|t| t.trim().eq_ignore_ascii_case(token))`.
unfoldable pub any_token : Bytes → List Bytes → Bool
any_token token [] = false
any_token token (t ∷ ts) = eq_ignore_ascii_case (trim t) token || any_token token ts

unfoldable pub connection_has : Request → Bytes → Bool
unfolding any_token
connection_has r token = elim (get_header r.headers (codes "connection")) [
  | none ↦ false
  | some v ↦ any_token token (split b',' v)
]

-- The rule of each version, on whether its token stands in the `Connection` header.
abbrev keep_alive_rule : Version → Request → Bool
keep_alive_rule http11 r = not (connection_has r (codes "close"))
keep_alive_rule http10 r = connection_has r (codes "keep-alive")

unfoldable pub wants_keep_alive : Request → Bool
wants_keep_alive r = keep_alive_rule r.version r

abbrev and_parse : Option Bytes → ℕ
and_parse none = 0
and_parse (some v) = elim (parse_usize (trim v)) [ none ↦ 0 | some n ↦ n ]

unfoldable pub content_length_of : Request → ℕ
content_length_of r = and_parse (get_header r.headers (codes "content-length"))
