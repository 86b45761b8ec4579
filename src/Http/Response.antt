-- ===== src/Http/Response.antt =====
-- core/src/http/response.rs: responses and their encoder. `Arc<[u8]>` is the bytes that it shares.
pub mod Layout
pub mod Digits
pub mod Framing
use rust_tcp_server.Base.{
  ℕ, zero, suc, ◌+◌, ◌/◌, ◌%◌, Bool, true, false, ◌||◌, List, [], ◌∷◌, ◌++◌, Option, none, some,
  ◌==◌, if◌then◌else◌, Bytes, codes, length,
}
use rust_tcp_server.Http.Headers.{Headers, no_headers, insert_header}
use rust_tcp_server.Http.Status.{StatusCode, ok_status, reason}
use rust_tcp_server.Text.Ascii.{eq_ignore_ascii_case}

pub data Body : Type 0 where
  empty : Body
  bytes : Bytes → Body

pub record Response : Type 0 where
  pub status : StatusCode
  pub headers : Headers
  pub body : Body

unfoldable pub new_response : StatusCode → Response
new_response s = record { status = s; headers = no_headers; body = empty }

unfoldable pub ok_response : Bytes → Bytes → Response
unfolding new_response insert_header
ok_response content_type body = record (new_response ok_status) {
  headers = insert_header no_headers (codes "Content-Type") content_type;
  body = bytes body;
}

unfoldable pub text_response : StatusCode → Bytes → Response
unfolding new_response insert_header
text_response s msg = record (new_response s) {
  headers = insert_header no_headers (codes "Content-Type") (codes "text/plain; charset=utf-8");
  body = bytes msg;
}

unfoldable pub with_header : Response → Bytes → Bytes → Response
with_header r name value = record r { headers = insert_header r.headers name value }

abbrev pub body_bytes : Body → Bytes
body_bytes empty = []
body_bytes (bytes b) = b

-- The loop of `write_u16_usize` at index `i`, with `tmp[i..]` as the last argument. `none` is the
-- index below 0, where the source would panic.
unfoldable pub write_digits : ℕ → ℕ → Bytes → Option Bytes
write_digits zero n tmp = if n == 0 then some tmp else none
write_digits (suc i) n tmp =
    let rest = write_digits i (n / 10) ((b'0' + n % 10) ∷ tmp) in if n == 0 then some tmp else rest

abbrev pub appended : Bytes → Option Bytes → Bytes
appended out none = out
appended out (some digits) = out ++ digits

unfoldable pub write_usize : Bytes → ℕ → Bytes
write_usize out n = if n == 0 then out ++ b'0' ∷ [] else appended out (write_digits 20 n [])

-- The fields that the encoder writes itself.
unfoldable pub is_owned : Bytes → Bool
is_owned k =
    eq_ignore_ascii_case k (codes "content-length") || eq_ignore_ascii_case k (codes "connection")

abbrev pub crlf : Bytes
crlf = b'\r' ∷ b'\n' ∷ []

-- The loop over the fields, onto `out`.
unfoldable pub write_fields : Bytes → List (Bytes × Bytes) → Bytes
write_fields out [] = out
write_fields out ((k, v) ∷ rest) =
    write_fields (if is_owned k then out else (((out ++ k) ++ codes ": ") ++ v) ++ crlf) rest

unfoldable pub encode : Response → Bool → Bool → Bytes → Bytes
encode r keep_alive include_body out =
    let body = body_bytes r.body in
    let status_line =
      ((write_usize (out ++ codes "HTTP/1.1 ") r.status.code ++ b' ' ∷ []) ++ reason r.status)
      ++ crlf in
    let fields = write_fields status_line r.headers.inner in
    let sized = write_usize (fields ++ codes "Content-Length: ") (length body) ++ crlf in
    let connected =
      ((sized ++ codes "Connection: ")
        ++ (if keep_alive then codes "keep-alive" else codes "close"))
      ++ crlf in
    let head = connected ++ crlf in if include_body then head ++ body else head
