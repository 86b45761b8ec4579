-- ===== src/Http/Response/Layout.antt =====
-- What `encode` writes, as one text; and decimal numbers.
use rust_tcp_server.Base.{
  ℕ, zero, suc, ◌+◌, ◌*◌, ◌/◌, ◌%◌, ◌^◌, ◌≤◌, ◌<◌, ◌≡◌, refl, ap, sym, ◌∙◌, subst, ◌⊎◌, inl, inr,
  Bool, true, false, List, [], ◌∷◌, ◌++◌, Option, none, some, ◌==◌, if◌then◌else◌, Bytes,
  Bool-cases, codes, length, arith, append_assoc, append-nil,
}
use native.Mathlib.Nat.{pow-suc}
use rust_tcp_server.Http.Headers.{find_header}
use rust_tcp_server.Http.Response.{
  Response, body_bytes, write_digits, write_usize, is_owned, crlf, write_fields, encode, appended,
}
use rust_tcp_server.Http.Status.{reason}
use rust_tcp_server.Text.Number.{usize_max, parse_digits, parse_usize}

-- The digits end within the places of `tmp`.
write_digits_returns :
    (i n : ℕ) (tmp : Bytes) → n < 10 ^ i → (ds : Bytes) × (write_digits i n tmp ≡ some ds)
unfolding write_digits
write_digits_returns zero n tmp h = (tmp, ground arith)
write_digits_returns (suc i) n tmp h = elim (Bool-cases (n == 0)) [
  | inl e ↦ (tmp, rw e)
  | inr e ↦
      let p : 10 ^ suc i ≡ 10 ^ i * 10 = pow-suc 10 i in
      rw e (write_digits_returns i (n / 10) ((b'0' + n % 10) ∷ tmp) (omega (arith, p)))
]

-- Reading the digits back, with `tmp` behind them.
parse_digits-write_digits :
    (i n : ℕ) (tmp ds : Bytes)
    → n ≤ usize_max
    → write_digits i n tmp ≡ some ds
    → parse_digits 0 ds ≡ parse_digits n tmp
unfolding write_digits parse_digits
parse_digits-write_digits zero n tmp ds h e = ground arith
parse_digits-write_digits (suc i) n tmp ds h e =
    ground (arith, parse_digits-write_digits i (n / 10) ((b'0' + n % 10) ∷ tmp) ds)

abbrev StartsDigit : Bytes → Type 0
StartsDigit [] = ⊥
StartsDigit (c ∷ r) = (b'0' ≤ c) × (c ≤ b'9')

StartsDigit-left :
    (n : ℕ) (tmp : Bytes) → (n == 0) ≡ true → StartsDigit tmp ⊎ (0 < n) → StartsDigit tmp
StartsDigit-left n tmp z (inl d) = d
StartsDigit-left n tmp z (inr p) = absurd (ground arith)

write_digits-StartsDigit :
    (i n : ℕ) (tmp ds : Bytes)
    → StartsDigit tmp ⊎ (0 < n)
    → write_digits i n tmp ≡ some ds
    → StartsDigit ds
unfolding write_digits
write_digits-StartsDigit zero n tmp ds h e = elim (Bool-cases (n == 0)) [
  | inl z ↦
      (let same : tmp ≡ ds = ground arith in subst StartsDigit same (StartsDigit-left n tmp z h))
  | inr s ↦ cc (rw s at e)
]
write_digits-StartsDigit (suc i) n tmp ds h e = elim (Bool-cases (n == 0)) [
  | inl z ↦
      (let same : tmp ≡ ds = ground arith in subst StartsDigit same (StartsDigit-left n tmp z h))
  | inr s ↦
      write_digits-StartsDigit i (n / 10) ((b'0' + n % 10) ∷ tmp) ds (inl (omega arith)) (rw s at e)
]

parse_usize_digits : (ds : Bytes) → StartsDigit ds → parse_usize ds ≡ parse_digits 0 ds
unfolding parse_usize
parse_usize_digits [] h = absurd h
parse_usize_digits (c ∷ []) h = ground arith
parse_usize_digits (c ∷ d ∷ r) h = ground arith

-- The decimal form of a number, on its own.
unfoldable pub decimal : ℕ → Bytes
decimal n = write_usize [] n

appended_nil : (out : Bytes) (d : Option Bytes) → appended out d ≡ out ++ appended [] d
appended_nil out none = sym (append-nil out)
appended_nil out (some ds) = refl

pub write_usize-append : (out : Bytes) (n : ℕ) → write_usize out n ≡ out ++ decimal n
unfolding write_usize decimal
write_usize-append out n = ground (arith, appended_nil out (write_digits 20 n []))

-- A number that the encoder writes is read back by `parse::<usize>` as itself.
pub parse_usize-write_usize : (n : ℕ) → n ≤ usize_max → parse_usize (write_usize [] n) ≡ some n
unfolding write_usize
parse_usize-write_usize n h = elim (Bool-cases (n == 0)) [
  | inl z ↦ rw z (unfold parse_usize parse_digits in ground arith)
  | inr s ↦
      let (ds, e) = write_digits_returns 20 n [] (omega arith) in
      rw (s, e)
        (parse_usize_digits ds (write_digits-StartsDigit 20 n [] ds (inr (ground arith)) e)
          ∙ parse_digits-write_digits 20 n [] ds h e
          ∙ unfold parse_digits in refl)
]

-- The fields that are not the encoder's own.
abbrev pub kept : List (Bytes × Bytes) → List (Bytes × Bytes)
kept [] = []
kept ((k, v) ∷ rest) = if is_owned k then kept rest else (k, v) ∷ kept rest

abbrev pub field_lines : List (Bytes × Bytes) → Bytes
field_lines [] = []
field_lines ((k, v) ∷ rest) = k ++ (codes ": " ++ (v ++ (crlf ++ field_lines rest)))

write_fields_lem :
    (out : Bytes) (hs : List (Bytes × Bytes)) → write_fields out hs ≡ out ++ field_lines (kept hs)
unfolding write_fields
write_fields_lem out [] = sym (append-nil out)
write_fields_lem out ((k, v) ∷ rest) = elim (Bool-cases (is_owned k)) [
  | inl owned ↦ rw owned (write_fields_lem out rest)
  | inr free ↦
      rw free
        (write_fields_lem ((((out ++ k) ++ codes ": ") ++ v) ++ crlf) rest ∙ simp append_assoc)
]

-- The status line and the fields up to the empty line, for a body of `n` bytes.
abbrev pub head_of : Response → Bool → ℕ → Bytes
head_of r keep_alive n =
    codes "HTTP/1.1 "
    ++ (decimal r.status.code
        ++ (b' '
            ∷ (reason r.status
                ++ (crlf
                    ++ (field_lines (kept r.headers.inner)
                        ++ (codes "Content-Length: "
                            ++ (decimal n
                                ++ (crlf
                                    ++ (codes "Connection: "
                                        ++ ((if keep_alive
                                              then codes "keep-alive"
                                              else codes "close")
                                            ++ (crlf ++ crlf)))))))))))

encode_head :
    (r : Response) (keep_alive : Bool) (out : Bytes)
    → encode r keep_alive false out ≡ out ++ head_of r keep_alive (length (body_bytes r.body))
unfolding encode
encode_head r keep_alive out = simp (write_usize-append, write_fields_lem, append_assoc)

encode_body :
    (r : Response) (keep_alive : Bool) (out : Bytes)
    → encode r keep_alive true out ≡ encode r keep_alive false out ++ body_bytes r.body
unfolding encode
encode_body r keep_alive out = refl

-- What `encode` appends is its head and, unless it is left out, the body.
pub encode_layout :
    (r : Response) (keep_alive include_body : Bool) (out : Bytes)
    → encode r keep_alive include_body out
      ≡ out
        ++ (head_of r keep_alive (length (body_bytes r.body))
            ++ (if include_body then body_bytes r.body else []))
encode_layout r keep_alive true out =
    encode_body r keep_alive out
    ∙ ap (λ s. s ++ body_bytes r.body) (encode_head r keep_alive out)
    ∙ append_assoc out _ (body_bytes r.body)
encode_layout r keep_alive false out =
    encode_head r keep_alive out ∙ ap (◌++◌ out) (sym (append-nil _))

-- Among the fields that are copied there is none under the encoder's own names, in any spelling.
pub kept_free :
    (hs : List (Bytes × Bytes))
    → (find_header (codes "content-length") (kept hs) ≡ none)
      × (find_header (codes "connection") (kept hs) ≡ none)
unfolding find_header is_owned
kept_free [] = (refl, refl)
kept_free ((k, v) ∷ rest) = ground (arith, kept_free rest)
