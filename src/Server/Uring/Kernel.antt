-- ===== src/Server/Uring/Kernel.antt =====
-- server/src/models/io_uring.rs, `parse_release` and `check_kernel`: the gate on the kernel's version.
use rust_tcp_server.Base.{
  ℕ, ◌-◌, ◌^◌, ◌≤◌, ◌<◌, ◌≡◌, refl, ap, ◌∙◌, ◌⊎◌, Bool, true, false, inl, inr, ◌&&◌, ◌||◌, List, [],
  ◌∷◌, ◌++◌, Option, none, some, ltb, ◌==◌, if◌then◌else◌, Bytes, arith,
}
use rust_tcp_server.Http.Response.Digits.{write_usize-AllDigits}
use rust_tcp_server.Http.Response.{write_usize}
use rust_tcp_server.Http.Response.Layout.{parse_usize-write_usize}
use rust_tcp_server.Text.Digits.{is_digit, AllDigits}
use rust_tcp_server.Text.Number.{parse_usize}
use rust_tcp_server.Text.Split.{onto_first}
use rust_tcp_server.Text.Utf8.{is_utf8}

unfoldable pub split_non_digit : Bytes → List Bytes
split_non_digit [] = [] ∷ []
split_non_digit (c ∷ r) =
    let rest = split_non_digit r in if is_digit c then onto_first c rest else [] ∷ rest

abbrev as_u32 : Option ℕ → Option ℕ
as_u32 none = none
as_u32 (some n) = if ltb (2 ^ 32 - 1) n then none else some n

-- `parse::<u32>().ok()`.
unfoldable pub parse_u32 : Bytes → Option ℕ
parse_u32 s = as_u32 (parse_usize s)

abbrev or_0 : Option ℕ → ℕ
or_0 none = 0
or_0 (some n) = n

abbrev pub number_or_0 : Bytes → ℕ
number_or_0 s = or_0 (parse_u32 s)

abbrev pub first_two : List Bytes → ℕ × ℕ
first_two [] = (0, 0)
first_two (p ∷ []) = (number_or_0 p, 0)
first_two (p ∷ q ∷ rest) = (number_or_0 p, number_or_0 q)

unfoldable pub parse_release : Bytes → ℕ × ℕ
unfolding split_non_digit parse_u32
parse_release s = first_two (split_non_digit s)

pub data Gate : Type 0 where
  supported os_error : Gate
  unsupported : ℕ → ℕ → Gate

-- `<` on pairs.
abbrev older : ℕ × ℕ → ℕ × ℕ → Bool
older (a, b) (c, d) = ltb a c || (a == c && ltb b d)

abbrev min_kernel : ℕ × ℕ
min_kernel = (5, 19)

abbrev gate : ℕ × ℕ → Gate
gate v = if older v min_kernel then unsupported v.0 v.1 else supported

abbrev release_text : Bytes → Bytes
release_text raw = if is_utf8 raw then raw else []

-- What `uname` gives as the release, up to its NUL; `none` is its error.
unfoldable pub check_kernel : Option Bytes → Gate
unfolding parse_release
check_kernel none = os_error
check_kernel (some raw) = gate (parse_release (release_text raw))

-- A text that ends or goes on with something else than a digit.
abbrev pub Separated : Bytes → Type 0
Separated [] = Unit {0}
Separated (c ∷ r) = is_digit c ≡ false

abbrev tail_parts : Bytes → List Bytes
tail_parts [] = []
tail_parts (c ∷ r) = split_non_digit r

split_non_digit-append :
    (d r : Bytes) → AllDigits d → Separated r → split_non_digit (d ++ r) ≡ d ∷ tail_parts r
unfolding split_non_digit
split_non_digit-append [] [] h s = refl
split_non_digit-append [] (c ∷ r) h s = rw s refl
split_non_digit-append (c ∷ d) r h s = rw (h.0, split_non_digit-append d r h.1 s) refl

parse_u32-write_usize : (n : ℕ) → n < 2 ^ 32 → parse_u32 (write_usize [] n) ≡ some n
unfolding parse_u32
parse_u32-write_usize n l =
    let fits : ltb (2 ^ 32 - 1) n ≡ false = ground arith in
    ap as_u32 (parse_usize-write_usize n (omega (arith, l))) ∙ rw fits refl

-- A release that starts with two decimal numbers and a separator between them is that version.
parse_release-write_usize :
    (major minor sep : ℕ) (rest : Bytes)
    → major < 2 ^ 32
    → minor < 2 ^ 32
    → is_digit sep ≡ false
    → Separated rest
    → parse_release (write_usize [] major ++ sep ∷ (write_usize [] minor ++ rest)) ≡ (major, minor)
unfolding parse_release
parse_release-write_usize major minor sep rest l m s r =
    let a = ap or_0 (parse_u32-write_usize major l) in
    let b = ap or_0 (parse_u32-write_usize minor m) in
    rw
      (
        split_non_digit-append (write_usize [] major) (sep ∷ (write_usize [] minor ++ rest))
            (write_usize-AllDigits major) s,
        split_non_digit-append (write_usize [] minor) rest (write_usize-AllDigits minor) r,
      )
      cc

abbrev pub release : ℕ → ℕ → Bytes → Bytes
release major minor rest = write_usize [] major ++ b'.' ∷ (write_usize [] minor ++ rest)

gate_lem :
    (major minor : ℕ)
    → (((5 < major) ⊎ ((major ≡ 5) × (19 ≤ minor))) → gate (major, minor) ≡ supported)
      × (((major < 5) ⊎ ((major ≡ 5) × (minor < 19)))
          → gate (major, minor) ≡ unsupported major minor)
gate_lem major minor = (
  λ h. elim h [ inl a ↦ ground arith | inr (a, b) ↦ ground arith ],
  λ h. elim h [ inl a ↦ ground arith | inr (a, b) ↦ ground arith ],
)

-- A kernel that gives the release `major.minor`, with anything but a digit behind it, is supported
-- from version 5.19 on; an older one is refused with its version.
pub check_kernel-release :
    (major minor : ℕ) (rest : Bytes)
    → major < 2 ^ 32
    → minor < 2 ^ 32
    → Separated rest
    → is_utf8 (release major minor rest) ≡ true
    → (((5 < major) ⊎ ((major ≡ 5) × (19 ≤ minor)))
        → check_kernel (some (release major minor rest)) ≡ supported)
      × (((major < 5) ⊎ ((major ≡ 5) × (minor < 19)))
          → check_kernel (some (release major minor rest)) ≡ unsupported major minor)
unfolding check_kernel
check_kernel-release major minor rest l m r u =
    rw (u, parse_release-write_usize major minor b'.' rest l m refl r) (gate_lem major minor)
