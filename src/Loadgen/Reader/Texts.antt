-- ===== src/Loadgen/Reader/Texts.antt =====
-- The parts of a response that stay on their line and have no colon.
use rust_tcp_server.Base.{
  ℕ, ◌≡◌, refl, Bool, true, Bool-cases, inl, inr, not, ◌&&◌, [], ◌∷◌, ◌++◌, ◌==◌, ltb,
  if◌then◌else◌, Bytes, codes, arith,
}
use rust_tcp_server.Http.Response.Layout.{decimal}
use rust_tcp_server.Http.Status.{StatusCode, reason}
use rust_tcp_server.Loadgen.Reader.Fields.{OneLine, OneLine-append, NoColon-append}
use rust_tcp_server.Loadgen.Reader.Lines.{NoColon}
use rust_tcp_server.Http.Response.Digits.{write_usize-AllDigits}
use rust_tcp_server.Text.Digits.{AllDigits}

abbrev pub IsLine : Bytes → Type 0
IsLine l = OneLine l × NoColon l

pub IsLine-append : (a b : Bytes) → IsLine a → IsLine b → IsLine (a ++ b)
IsLine-append a b (h, j) (k, l) = (OneLine-append a b h k, NoColon-append a b j l)

IsLine-if : (b : Bool) (x y : Bytes) → IsLine x → IsLine y → IsLine (if b then x else y)
IsLine-if b x y h k = elim (Bool-cases b) [ inl e ↦ rw e h | inr e ↦ rw e k ]

-- `OneLine` and `NoColon` of a literal.
unfoldable pub is_plain : Bytes → Bool
is_plain [] = true
is_plain (c ∷ r) =
    ltb c 0x80 && not (c == b'\n') && not (c == b'\r') && not (c == b':') && is_plain r

pub is_plain-IsLine : (l : Bytes) → is_plain l ≡ true → IsLine l
unfolding is_plain
is_plain-IsLine [] h = (tt, tt)
is_plain-IsLine (c ∷ r) h =
    let rest : is_plain r ≡ true = ground arith in
    let (o, n) = is_plain-IsLine r rest in
    ((ground arith, ground arith, ground arith, o), (ground arith, n))

unfoldable pub is_one_line : Bytes → Bool
is_one_line [] = true
is_one_line (c ∷ r) = ltb c 0x80 && not (c == b'\n') && not (c == b'\r') && is_one_line r

pub is_one_line-OneLine : (l : Bytes) → is_one_line l ≡ true → OneLine l
unfolding is_one_line
is_one_line-OneLine [] h = tt
is_one_line-OneLine (c ∷ r) h =
    let rest : is_one_line r ≡ true = ground arith in
    (ground arith, ground arith, ground arith, is_one_line-OneLine r rest)

pub reason-IsLine : (s : StatusCode) → IsLine (reason s)
unfolding reason is_plain
reason-IsLine s =
    let lit = λ (l : Bytes) (h : is_plain l ≡ true). is_plain-IsLine l h in
    IsLine-if (s.code == 200) _ _ (lit (codes "OK") refl) (
      IsLine-if (s.code == 400) _ _ (lit (codes "Bad Request") refl) (
        IsLine-if (s.code == 404) _ _ (lit (codes "Not Found") refl) (
          IsLine-if (s.code == 405) _ _ (lit (codes "Method Not Allowed") refl) (
            IsLine-if (s.code == 413) _ _ (lit (codes "Payload Too Large") refl) (
              IsLine-if (s.code == 414) _ _ (lit (codes "URI Too Long") refl) (
                IsLine-if (s.code == 431) _ _ (lit (codes "Request Header Fields Too Large") refl) (
                  IsLine-if (s.code == 500) _ _ (lit (codes "Internal Server Error") refl) (
                    IsLine-if (s.code == 505) _ _ (lit (codes "HTTP Version Not Supported") refl)
                      (lit (codes "Unknown") refl)))))))))

pub AllDigits-IsLine : (a : Bytes) → AllDigits a → IsLine a
AllDigits-IsLine [] h = (tt, tt)
AllDigits-IsLine (c ∷ a) (x, h) =
    let (o, n) = AllDigits-IsLine a h in
    ((ground arith, ground arith, ground arith, o), (ground arith, n))

pub decimal-AllDigits : (n : ℕ) → AllDigits (decimal n)
unfolding decimal
decimal-AllDigits n = write_usize-AllDigits n
