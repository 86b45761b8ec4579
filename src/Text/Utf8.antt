-- ===== src/Text/Utf8.antt =====
-- `std::str::from_utf8`: the well-formed byte sequences of UTF-8, as a machine that knows how many
-- continuation bytes are due and the range of the next one.
use rust_tcp_server.Base.{
  ℕ, zero, suc, ◌<◌, ◌≡◌, refl, Bool, true, false, ◌&&◌, [], ◌∷◌, arith, ltb, leb, ◌==◌,
  if◌then◌else◌, Bytes,
}

-- What a lead byte asks for: the count of continuation bytes, and the range of the first.
pub record Lead : Type 0 where
  pub valid : Bool
  pub due : ℕ
  pub low : ℕ
  pub high : ℕ

abbrev lead : ℕ → ℕ → ℕ → Lead
lead n lo hi = record { valid = true; due = n; low = lo; high = hi }

unfoldable pub utf8_lead : ℕ → Lead
utf8_lead c =
    if ltb c 0x80
    then lead 0 0x80 0xbf
    else if ltb c 0xc2
    then record { valid = false; due = 0; low = 0; high = 0 }
    else if ltb c 0xe0
    then lead 1 0x80 0xbf
    else if c == 0xe0
    then lead 2 0xa0 0xbf
    else if c == 0xed
    then lead 2 0x80 0x9f
    else if ltb c 0xf0
    then lead 2 0x80 0xbf
    else if c == 0xf0
    then lead 3 0x90 0xbf
    else if ltb c 0xf4
    then lead 3 0x80 0xbf
    else if c == 0xf4
    then lead 3 0x80 0x8f
    else record { valid = false; due = 0; low = 0; high = 0 }

unfoldable pub utf8_run : ℕ → ℕ → ℕ → Bytes → Bool
unfolding utf8_lead
utf8_run zero lo hi [] = true
utf8_run (suc n) lo hi [] = false
utf8_run zero lo hi (c ∷ r) = let l = utf8_lead c in l.valid && utf8_run l.due l.low l.high r
utf8_run (suc n) lo hi (c ∷ r) = leb lo c && leb c hi && utf8_run n 0x80 0xbf r

-- Whether `from_utf8` returns `Ok`.
unfoldable pub is_utf8 : Bytes → Bool
unfolding utf8_run
is_utf8 = utf8_run 0 0x80 0xbf

abbrev pub IsAscii : Bytes → Type 0
IsAscii [] = Unit {0}
IsAscii (c ∷ r) = (c < 0x80) × IsAscii r

pub is_utf8-IsAscii : (s : Bytes) → IsAscii s → is_utf8 s ≡ true
unfolding is_utf8
is_utf8-IsAscii [] h = refl
is_utf8-IsAscii (c ∷ r) h = ground (arith, is_utf8-IsAscii r h.1)
