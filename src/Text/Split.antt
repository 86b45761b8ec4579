-- ===== src/Text/Split.antt =====
-- `split` by one byte on slices and strings, and `splitn(2, '/')`.
use rust_tcp_server.Base.{ℕ, List, [], ◌∷◌, ◌==◌, if◌then◌else◌, Bytes, suc, Option, none, some}

-- Put a byte in front of the first part.
abbrev pub onto_first : ℕ → List Bytes → List Bytes
onto_first c [] = (c ∷ []) ∷ []
onto_first c (p ∷ ps) = (c ∷ p) ∷ ps

-- All the parts of `split(sep)`; there is always at least one.
unfoldable pub split : ℕ → Bytes → List Bytes
split sep [] = [] ∷ []
split sep (c ∷ r) = let rest = split sep r in if c == sep then [] ∷ rest else onto_first c rest

-- `splitn(2, sep)`: what stands before the first separator, and what follows it or "".
unfoldable pub before : ℕ → Bytes → Bytes
before sep [] = []
before sep (c ∷ r) = if c == sep then [] else c ∷ before sep r

unfoldable pub after : ℕ → Bytes → Bytes
after sep [] = []
after sep (c ∷ r) = if c == sep then r else after sep r

-- `iter().position(|&b| b == sep)`.
unfoldable pub position : ℕ → Bytes → Option ℕ
position sep [] = none
position sep (c ∷ r) =
    if c == sep then some 0 else (elim (position sep r) [ none ↦ none | some i ↦ some (suc i) ])
