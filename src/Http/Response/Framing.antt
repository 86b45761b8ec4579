-- ===== src/Http/Response/Framing.antt =====
-- How `encode` frames a response, read from the bytes.
use rust_tcp_server.Base.{
  ℕ, ◌≤◌, ◌≡◌, refl, ap, ◌∙◌, ◌⊎◌, inl, inr, Bool, true, false, Bool-cases, none, some, List, [],
  ◌∷◌, ◌++◌, append_assoc, append-nil, Bytes, codes, length, if◌then◌else◌,
}
use rust_tcp_server.Http.Headers.{find_header}
use rust_tcp_server.Http.Response.Digits.{write_usize-AllDigits}
use rust_tcp_server.Http.Response.Layout.{
  decimal, kept, kept_free, field_lines, head_of, encode_layout, parse_usize-write_usize,
}
use rust_tcp_server.Http.Response.{Response, body_bytes, is_owned, crlf, encode}
use rust_tcp_server.Http.Status.{reason}
use rust_tcp_server.Text.Ascii.{eq_ignore_ascii_case}
use rust_tcp_server.Text.Digits.{AllDigits}
use rust_tcp_server.Text.Number.{usize_max, parse_usize}

-- Digits that `parse::<usize>` reads as a number.
abbrev pub Spells : ℕ → Bytes → Type 0
Spells n ds = AllDigits ds × (parse_usize ds ≡ some n)

-- The second fields are the first without those under the two names that the encoder keeps to itself,
-- in any spelling.
pub data Copied : List (Bytes × Bytes) → List (Bytes × Bytes) → Type 0 where
  no_fields : Copied [] []
  copied :
      (k v : Bytes) (hs fs : List (Bytes × Bytes))
      → eq_ignore_ascii_case k (codes "content-length") ≡ false
      → eq_ignore_ascii_case k (codes "connection") ≡ false
      → Copied hs fs
      → Copied ((k, v) ∷ hs) ((k, v) ∷ fs)
  left_out :
      (k v : Bytes) (hs fs : List (Bytes × Bytes))
      → (eq_ignore_ascii_case k (codes "content-length") ≡ true)
        ⊎ (eq_ignore_ascii_case k (codes "connection") ≡ true)
      → Copied hs fs
      → Copied ((k, v) ∷ hs) fs

-- The two fields of the encoder.
abbrev pub own_fields : Bytes → Bool → List (Bytes × Bytes)
own_fields size keep_alive =
    (codes "Content-Length", size)
    ∷ (codes "Connection", if keep_alive then codes "keep-alive" else codes "close")
    ∷ []

-- A status line, fields, and an empty line.
abbrev pub head_text : Bytes → Bytes → List (Bytes × Bytes) → Bytes
head_text code phrase fields =
    codes "HTTP/1.1 " ++ (code ++ (b' ' ∷ (phrase ++ (crlf ++ (field_lines fields ++ crlf)))))

abbrev pub Framed : Response → Bool → Bytes → Type 0
Framed r keep_alive head =
    (code : Bytes) × (size : Bytes) × (fs : List (Bytes × Bytes)) × Spells r.status.code code
    × Spells (length (body_bytes r.body)) size
    × Copied r.headers.inner fs
    × (find_header (codes "content-length") fs ≡ none)
    × (find_header (codes "connection") fs ≡ none)
    × (head ≡ head_text code (reason r.status) (fs ++ own_fields size keep_alive))

kept-Copied : (hs : List (Bytes × Bytes)) → Copied hs (kept hs)
unfolding is_owned
kept-Copied [] = no_fields
kept-Copied ((k, v) ∷ hs) = elim (Bool-cases (eq_ignore_ascii_case k (codes "content-length"))) [
  | inl y ↦ rw y (left_out k v hs (kept hs) (inl y) (kept-Copied hs))
  | inr n ↦ elim (Bool-cases (eq_ignore_ascii_case k (codes "connection"))) [
    | inl y ↦ rw (n, y) (left_out k v hs (kept hs) (inr y) (kept-Copied hs))
    | inr m ↦ rw (n, m) (copied k v hs (kept hs) n m (kept-Copied hs))
  ]
]

field_lines-append :
    (fs gs : List (Bytes × Bytes)) → field_lines (fs ++ gs) ≡ field_lines fs ++ field_lines gs
field_lines-append [] gs = refl
field_lines-append ((k, v) ∷ fs) gs = simp (field_lines-append fs gs, append_assoc)

decimal-Spells : (n : ℕ) → n ≤ usize_max → Spells n (decimal n)
unfolding decimal
decimal-Spells n l = (write_usize-AllDigits n, parse_usize-write_usize n l)

head_of-head_text :
    (r : Response) (keep_alive : Bool) (n : ℕ)
    → head_of r keep_alive n
      ≡ head_text
          (decimal r.status.code)
          (reason r.status)
          (kept r.headers.inner ++ own_fields (decimal n) keep_alive)
head_of-head_text r keep_alive n =
    simp
      (field_lines-append (kept r.headers.inner) (own_fields (decimal n) keep_alive), append_assoc)

-- `encode` adds a head to `out`, and the body behind it unless it is left out, so a response to HEAD has
-- the header block of the one to GET. The head is a status line, with the code in decimal digits,
-- and fields: those of the response but for any that is named `Content-Length` or `Connection`, in
-- whatever spelling, and then one `Content-Length`, with the size of the body in decimal digits, and
-- one `Connection`, which says whether the connection is kept. The code and the size are numbers of
-- 64 bits.
pub encode-Framed :
    (r : Response) (keep_alive : Bool) (out : Bytes)
    → r.status.code ≤ usize_max
    → length (body_bytes r.body) ≤ usize_max
    → (h : Bytes) × Framed r keep_alive h
      × (encode r keep_alive true out ≡ out ++ (h ++ body_bytes r.body))
      × (encode r keep_alive false out ≡ out ++ h)
encode-Framed r keep_alive out c l =
    let n = length (body_bytes r.body) in
    let free = kept_free r.headers.inner in
    let head = head_of r keep_alive n in
    (
      head,
      (
        decimal r.status.code,
        decimal n,
        kept r.headers.inner,
        decimal-Spells r.status.code c,
        decimal-Spells n l,
        kept-Copied r.headers.inner,
        free.0,
        free.1,
        head_of-head_text r keep_alive n,
      ),
      encode_layout r keep_alive true out,
      encode_layout r keep_alive false out ∙ ap (λ b. out ++ b) (append-nil head),
    )
