-- ===== src/Http/Parser/Search.antt =====
-- The search of `next_crlf`: its bounds, what it finds, and how it goes on when bytes are added.
use rust_tcp_server.Base.{
  ℕ, suc, ◌+◌, ◌-◌, ◌≤◌, ◌≡◌, refl, ap, ◌∙◌, Bool-cases, inl, inr, false, ◌&&◌, [], ◌∷◌, ◌++◌,
  arith, ◌==◌, if◌then◌else◌, Bytes, length, drop,
}
use rust_tcp_server.Http.Parser.{Scan, found, stopped, scan_crlf}

abbrev pub ScanBounds : ℕ → Bytes → Scan → Type 0
ScanBounds i s (found e) = (i ≤ e) × (e + 2 ≤ i + length s)
ScanBounds i s (stopped j) = (i ≤ j) × (j ≤ i + length s) × (i + length s ≤ j + 1)

pub scan_crlf-ScanBounds : (i : ℕ) (s : Bytes) → ScanBounds i s (scan_crlf i s)
unfolding scan_crlf
scan_crlf-ScanBounds i [] = omega arith
scan_crlf-ScanBounds i (c ∷ []) = omega arith
scan_crlf-ScanBounds i (c ∷ d ∷ r) = ground (arith, scan_crlf-ScanBounds (i + 1) (d ∷ r))

-- The search with `b` behind the bytes: a line end that was found is found, and else the search
-- goes on where it stopped.
abbrev pub ScanMore : ℕ → Bytes → Bytes → Scan → Type 0
ScanMore i s b (found e) = scan_crlf i (s ++ b) ≡ found e
ScanMore i s b (stopped j) = scan_crlf i (s ++ b) ≡ scan_crlf j (drop (j - i) s ++ b)

drop_none : (i : ℕ) (s b : Bytes) → scan_crlf i (s ++ b) ≡ scan_crlf i (drop (i - i) s ++ b)
drop_none i s b = let e : 0 ≡ i - i = omega arith in ap (λ k. scan_crlf i (drop k s ++ b)) e

scan_first :
    (i c d : ℕ) (r : Bytes)
    → scan_crlf i (c ∷ d ∷ r)
      ≡ (if c == b'\r' && d == b'\n' then found i else scan_crlf (i + 1) (d ∷ r))
unfolding scan_crlf
scan_first i c d r = refl

scan_pass :
    (i c d : ℕ) (r b : Bytes) (x : Scan)
    → (c == b'\r' && d == b'\n') ≡ false
    → ScanBounds (i + 1) (d ∷ r) x
    → ScanMore (i + 1) (d ∷ r) b x
    → ScanMore i (c ∷ d ∷ r) b x
scan_pass i c d r b (found e) miss w h = rw (scan_first i c d (r ++ b), miss) h
scan_pass i c d r b (stopped j) miss w h =
    let e : suc (j - (i + 1)) ≡ j - i = omega arith in
    rw (scan_first i c d (r ++ b), miss) (h ∙ ap (λ k. scan_crlf j (drop k (c ∷ d ∷ r) ++ b)) e)

pub scan_crlf-ScanMore : (i : ℕ) (s b : Bytes) → ScanMore i s b (scan_crlf i s)
unfolding scan_crlf
scan_crlf-ScanMore i [] b = drop_none i [] b
scan_crlf-ScanMore i (c ∷ []) b = drop_none i (c ∷ []) b
scan_crlf-ScanMore i (c ∷ d ∷ r) b = elim (Bool-cases (c == b'\r' && d == b'\n')) [
  | inl e ↦ rw e (rw e)
  | inr miss ↦ rw miss (
      scan_pass i c d r b (scan_crlf (i + 1) (d ∷ r)) miss (scan_crlf-ScanBounds (i + 1) (d ∷ r))
        (scan_crlf-ScanMore (i + 1) (d ∷ r) b))
]
