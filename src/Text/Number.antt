-- ===== src/Text/Number.antt =====
-- `str::parse::<usize>` on a 64-bit target, and decimal output.
use rust_tcp_server.Base.{
  ℕ, ◌+◌, ◌-◌, ◌*◌, ◌^◌, ◌||◌, [], ◌∷◌, Option, none, some, ltb, ◌==◌, if◌then◌else◌, Bytes,
}

abbrev pub usize_max : ℕ
usize_max = 2 ^ 64 - 1

-- The digits of `from_str_radix(_, 10)`, with `checked_mul` and `checked_add`.
unfoldable pub parse_digits : ℕ → Bytes → Option ℕ
parse_digits n [] = some n
parse_digits n (c ∷ r) =
    let rest = parse_digits (n * 10 + (c - b'0')) r in
    if ltb c b'0' || ltb b'9' c
    then none
    else if ltb usize_max (n * 10 + (c - b'0'))
    then none
    else rest

-- `parse::<usize>()`: one leading `+` is taken, and no digit at all is an error.
unfoldable pub parse_usize : Bytes → Option ℕ
unfolding parse_digits
parse_usize [] = none
parse_usize (c ∷ []) = if c == b'+' then none else parse_digits 0 (c ∷ [])
parse_usize (c ∷ d ∷ r) = if c == b'+' then parse_digits 0 (d ∷ r) else parse_digits 0 (c ∷ d ∷ r)
