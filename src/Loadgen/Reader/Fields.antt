-- ===== src/Loadgen/Reader/Fields.antt =====
-- Each kind of line in a response, as the load generator takes it.
use mathlib.Core.List.{reverse-append, reverse-cons, reverse-reverse}
use rust_tcp_server.Base.{
  ℕ, ◌<◌, ◌≡◌, refl, sym, ap, ◌∙◌, true, false, [], ◌∷◌, ◌++◌, append_assoc, reverse, none, some,
  ◌==◌, ◌||◌, Bytes, codes, arith,
}
use rust_tcp_server.Base.Rounds.{ret}
use rust_tcp_server.Http.Response.{is_owned, crlf}
use rust_tcp_server.Loadgen.Reader.Lines.{
  NoBreak, NoColon, line_of-append, behind_line-append, split_colon-append, split_colon-none,
}
use rust_tcp_server.Loadgen.Reader.{
  line_of, behind_line, split_colon, header_value, whole, after_line, line_step,
}
use rust_tcp_server.Text.Digits.{is_digit, AllDigits}
use rust_tcp_server.Text.Ascii.{same, to_ascii_lowercase, eq_ignore_ascii_case}
use rust_tcp_server.Text.Trim.{
  is_space, is_space_pair, is_space_triple, width_front, width_back, trim_by, trim,
}
use rust_tcp_server.Text.Utf8.{is_utf8, IsAscii, is_utf8-IsAscii}

-- Text that stays on its line.
abbrev pub OneLine : Bytes → Type 0
OneLine [] = Unit {0}
OneLine (c ∷ r) = (c < 0x80) × ((c == b'\n') ≡ false) × ((c == b'\r') ≡ false) × OneLine r

pub OneLine-append : (a b : Bytes) → OneLine a → OneLine b → OneLine (a ++ b)
OneLine-append [] b h k = k
OneLine-append (c ∷ a) b (x, y, z, h) k = (x, y, z, OneLine-append a b h k)

pub NoColon-append : (a b : Bytes) → NoColon a → NoColon b → NoColon (a ++ b)
NoColon-append [] b h k = k
NoColon-append (c ∷ a) b (x, h) k = (x, NoColon-append a b h k)

OneLine-IsAscii : (l : Bytes) → OneLine l → IsAscii (l ++ crlf)
OneLine-IsAscii [] h = (omega arith, (omega arith, tt))
OneLine-IsAscii (c ∷ l) (x, y, z, h) = (x, OneLine-IsAscii l h)

OneLine-NoBreak : (l : Bytes) → OneLine l → NoBreak (l ++ b'\r' ∷ [])
OneLine-NoBreak [] h = (refl, tt)
OneLine-NoBreak (c ∷ l) (x, y, z, h) = (y, OneLine-NoBreak l h)

-- A line that is not blank is looked at as a field.
pub line_step_text :
    (c : ℕ) (l rest : Bytes) (n : ℕ)
    → OneLine (c ∷ l)
    → line_step (record { coming = (c ∷ l) ++ (crlf ++ rest); content_length = n })
      ≡ after_line
          (record { coming = rest; content_length = n })
          (header_value ((c ∷ l) ++ crlf) (codes "content-length"))
unfolding line_step
line_step_text c l rest n h =
    let cut : (c ∷ l) ++ (crlf ++ rest) ≡ ((c ∷ l) ++ b'\r' ∷ []) ++ b'\n' ∷ rest =
      sym (append_assoc (c ∷ l) (b'\r' ∷ []) (b'\n' ∷ rest)) in
    let ended : ((c ∷ l) ++ b'\r' ∷ []) ++ b'\n' ∷ [] ≡ (c ∷ l) ++ crlf =
      append_assoc (c ∷ l) (b'\r' ∷ []) (b'\n' ∷ []) in
    let line : line_of ((c ∷ l) ++ (crlf ++ rest)) ≡ (c ∷ l) ++ crlf =
      ap line_of cut
      ∙ line_of-append ((c ∷ l) ++ b'\r' ∷ []) rest (OneLine-NoBreak (c ∷ l) h)
      ∙ ended in
    let behind : behind_line ((c ∷ l) ++ (crlf ++ rest)) ≡ rest =
      ap behind_line cut
      ∙ behind_line-append ((c ∷ l) ++ b'\r' ∷ []) rest (OneLine-NoBreak (c ∷ l) h) in
    let text : is_utf8 ((c ∷ l) ++ crlf) ≡ true =
      is_utf8-IsAscii ((c ∷ l) ++ crlf) (OneLine-IsAscii (c ∷ l) h) in
    let shown : (same ((c ∷ l) ++ crlf) (codes "\r\n") || same ((c ∷ l) ++ crlf) (codes "\n"))
        ≡ false =
      (unfold same in rw (h.1, h.2) refl) in
    rw (line, behind, text, shown) refl

pub line_step_blank :
    (rest : Bytes) (n : ℕ)
    → line_step (record { coming = crlf ++ rest; content_length = n })
      ≡ (record { coming = rest; content_length = n }, ret whole)
unfolding line_step line_of behind_line is_utf8 same
line_step_blank rest n = refl

trim_by_skip :
    (width : Bytes → ℕ) (c : ℕ) (r : Bytes)
    → width (c ∷ r) ≡ 1
    → trim_by width 0 (c ∷ r) ≡ trim_by width 0 r
unfolding trim_by
trim_by_skip width c r e = rw (e, trim_by) refl

trim_by_keep :
    (width : Bytes → ℕ) (c : ℕ) (r : Bytes) → width (c ∷ r) ≡ 0 → trim_by width 0 (c ∷ r) ≡ c ∷ r
unfolding trim_by
trim_by_keep width c r e = rw (e, trim_by) refl

front_space : (r : Bytes) → width_front (b' ' ∷ r) ≡ 1
unfolding width_front is_space
front_space [] = refl
front_space (a ∷ []) = refl
front_space (a ∷ b ∷ r) = refl

back_space : (c : ℕ) (r : Bytes) → is_space c ≡ true → width_back (c ∷ r) ≡ 1
unfolding width_back
back_space c [] h = rw h refl
back_space c (a ∷ []) h = rw h refl
back_space c (a ∷ b ∷ r) h = rw h refl

digit_plain : (c : ℕ) → is_digit c ≡ true → (is_space c ≡ false) × (c < 0x80)
unfolding is_space
digit_plain c h = (ground arith, ground arith)

front_digit : (c : ℕ) (r : Bytes) → is_digit c ≡ true → width_front (c ∷ r) ≡ 0
unfolding width_front is_space is_space_pair is_space_triple
front_digit c [] h = ground arith
front_digit c (a ∷ []) h = ground arith
front_digit c (a ∷ b ∷ r) h = ground arith

back_digit : (c : ℕ) (r : Bytes) → is_digit c ≡ true → width_back (c ∷ r) ≡ 0
unfolding width_back is_space is_space_pair is_space_triple
back_digit c [] h = ground arith
back_digit c (a ∷ []) h = ground arith
back_digit c (a ∷ b ∷ r) h = ground arith

AllDigits-append : (a b : Bytes) → AllDigits a → AllDigits b → AllDigits (a ++ b)
AllDigits-append [] b h k = k
AllDigits-append (c ∷ a) b (x, h) k = (x, AllDigits-append a b h k)

AllDigits-reverse : (a : Bytes) → AllDigits a → AllDigits (reverse a)
AllDigits-reverse [] h = h
AllDigits-reverse (c ∷ a) (x, h) =
    rw (reverse-cons c a) (AllDigits-append (reverse a) (c ∷ []) (AllDigits-reverse a h) (x, tt))

trim_by_digits :
    (width : Bytes → ℕ) (a : Bytes)
    → ((c : ℕ) (r : Bytes) → is_digit c ≡ true → width (c ∷ r) ≡ 0)
    → AllDigits a
    → trim_by width 0 a ≡ a
unfolding trim_by
trim_by_digits width [] k h = refl
trim_by_digits width (c ∷ a) k (x, h) = trim_by_keep width c a (k c a x)

-- The value of `Content-Length`, behind its colon.
pub trim_digits : (a : Bytes) → AllDigits a → trim (b' ' ∷ (a ++ crlf)) ≡ a
unfolding trim
trim_digits [] h = refl
trim_digits (d ∷ a) (x, h) =
    let front : trim_by width_front 0 (b' ' ∷ ((d ∷ a) ++ crlf)) ≡ (d ∷ a) ++ crlf =
      trim_by_skip width_front b' ' ((d ∷ a) ++ crlf) (front_space ((d ∷ a) ++ crlf))
      ∙ trim_by_keep width_front d (a ++ crlf) (front_digit d (a ++ crlf) x) in
    let turned : reverse ((d ∷ a) ++ crlf) ≡ b'\n' ∷ b'\r' ∷ reverse (d ∷ a) =
      reverse-append (d ∷ a) crlf in
    let back : trim_by width_back 0 (b'\n' ∷ b'\r' ∷ reverse (d ∷ a)) ≡ reverse (d ∷ a) =
      trim_by_skip width_back b'\n' (b'\r' ∷ reverse (d ∷ a))
        (back_space b'\n' (b'\r' ∷ reverse (d ∷ a)) (unfold is_space in refl))
      ∙ trim_by_skip width_back b'\r' (reverse (d ∷ a))
          (back_space b'\r' (reverse (d ∷ a)) (unfold is_space in refl))
      ∙ trim_by_digits width_back (reverse (d ∷ a)) back_digit (AllDigits-reverse (d ∷ a) (x, h)) in
    ap (λ s. reverse (trim_by width_back 0 (reverse s))) front
    ∙ ap (λ s. reverse (trim_by width_back 0 s)) turned
    ∙ ap reverse back
    ∙ reverse-reverse (d ∷ a)

-- A field that the encoder copies is not taken for the length.
pub header_value_other :
    (k v : Bytes)
    → NoColon k
    → trim k ≡ k
    → is_owned k ≡ false
    → header_value ((k ++ (codes ": " ++ v)) ++ crlf) (codes "content-length") ≡ none
unfolding header_value is_owned
header_value_other k v h t free =
    let cut : (k ++ (codes ": " ++ v)) ++ crlf ≡ k ++ b':' ∷ (b' ' ∷ (v ++ crlf)) =
      append_assoc k (codes ": " ++ v) crlf in
    let other : eq_ignore_ascii_case k (codes "content-length") ≡ false = ground arith in
    rw (cut, split_colon-append k (b' ' ∷ (v ++ crlf)) h, t, other) refl

pub header_value-none :
    (l : Bytes) → NoColon l → header_value (l ++ crlf) (codes "content-length") ≡ none
unfolding header_value
header_value-none l h =
    rw (split_colon-none (l ++ crlf) (NoColon-append l crlf h (refl, (refl, tt)))) refl

pub header_value_size :
    (a : Bytes)
    → header_value ((codes "Content-Length: " ++ a) ++ crlf) (codes "content-length")
      ≡ some (b' ' ∷ (a ++ crlf))
unfolding header_value split_colon trim trim_by width_front width_back is_space is_space_pair
    is_space_triple eq_ignore_ascii_case to_ascii_lowercase
header_value_size a = refl
