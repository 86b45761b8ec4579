-- ===== src/Text/Digits.antt =====
-- `is_ascii_digit`, and texts of digits.
use rust_tcp_server.Base.{ℕ, ◌≡◌, Bool, true, ◌&&◌, [], ◌∷◌, leb, Bytes}

abbrev pub is_digit : ℕ → Bool
is_digit c = leb b'0' c && leb c b'9'

abbrev pub AllDigits : Bytes → Type 0
AllDigits [] = Unit {0}
AllDigits (c ∷ r) = (is_digit c ≡ true) × AllDigits r
