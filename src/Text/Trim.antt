-- ===== src/Text/Trim.antt =====
-- `str::trim` and `str::trim_start_matches('/')`. A white-space character of Unicode has one, two
-- or three bytes; in well-formed UTF-8 its bytes stand for that character alone.
use rust_tcp_server.Base.{
  ℕ, zero, suc, Bool, ◌&&◌, ◌||◌, [], ◌∷◌, reverse, leb, ◌==◌, if◌then◌else◌, Bytes,
}

-- U+0009 to U+000D, and U+0020.
unfoldable pub is_space : ℕ → Bool
is_space c = (leb 0x09 c && leb c 0x0d) || c == 0x20

-- U+0085 and U+00A0.
unfoldable pub is_space_pair : ℕ → ℕ → Bool
is_space_pair a b = a == 0xc2 && (b == 0x85 || b == 0xa0)

-- U+1680, U+2000 to U+200A, U+2028, U+2029, U+202F, U+205F and U+3000.
unfoldable pub is_space_triple : ℕ → ℕ → ℕ → Bool
is_space_triple a b c =
    (a == 0xe1 && b == 0x9a && c == 0x80)
    || (a == 0xe2 && b == 0x80 && leb 0x80 c && leb c 0x8a)
    || (a == 0xe2 && b == 0x80 && (c == 0xa8 || c == 0xa9 || c == 0xaf))
    || (a == 0xe2 && b == 0x81 && c == 0x9f)
    || (a == 0xe3 && b == 0x80 && c == 0x80)

-- The bytes of a white-space character at the front; 0 if another character stands there.
unfoldable pub width_front : Bytes → ℕ
unfolding is_space is_space_pair is_space_triple
width_front (a ∷ b ∷ c ∷ r) =
    if is_space a
    then 1
    else if is_space_pair a b
    then 2
    else if is_space_triple a b c
    then 3
    else 0
width_front (a ∷ b ∷ []) = if is_space a then 1 else if is_space_pair a b then 2 else 0
width_front (a ∷ []) = if is_space a then 1 else 0
width_front [] = 0

-- The same at the end, on the reversed bytes.
unfoldable pub width_back : Bytes → ℕ
unfolding is_space is_space_pair is_space_triple
width_back (c ∷ b ∷ a ∷ r) =
    if is_space c
    then 1
    else if is_space_pair b c
    then 2
    else if is_space_triple a b c
    then 3
    else 0
width_back (c ∷ b ∷ []) = if is_space c then 1 else if is_space_pair b c then 2 else 0
width_back (c ∷ []) = if is_space c then 1 else 0
width_back [] = 0

-- Drop characters as long as `width` finds one; `skip` bytes of the last one are still to drop.
unfoldable pub trim_by : (Bytes → ℕ) → ℕ → Bytes → Bytes
trim_by width skip [] = []
trim_by width (suc k) (c ∷ r) = trim_by width k r
trim_by width zero (c ∷ r) = elim (width (c ∷ r)) [ zero ↦ c ∷ r | suc k ↦ trim_by width k r ]

unfoldable pub trim : Bytes → Bytes
unfolding trim_by width_front width_back
trim s = reverse (trim_by width_back 0 (reverse (trim_by width_front 0 s)))

-- `trim_start_matches('/')`.
unfoldable pub trim_slashes : Bytes → Bytes
trim_slashes [] = []
trim_slashes (c ∷ r) = if c == b'/' then trim_slashes r else c ∷ r
