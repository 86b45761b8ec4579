-- ===== src/Loadgen/Reader/Lines.antt =====
-- Lines and header fields as the load generator reads them.
use rust_tcp_server.Base.{
  ℕ, suc, ◌-◌, ◌<◌, ◌≤◌, ◌≡◌, ◌≢◌, subst, refl, ap, ◌∙◌, false, Bool-cases, inl, inr, [], ◌∷◌, ◌++◌,
  Option, none, some, ◌==◌, ◌||◌, Bytes, codes, length, arith,
}
use rust_tcp_server.Base.Extension.{unclaimed, Falls, loop_fuel, loop_returns}
use rust_tcp_server.Base.Rounds.{Round, again, ret, loop, resume}
use rust_tcp_server.Loadgen.Reader.{
  line_of, behind_line, split_colon, header_value, ReadEnd, Reading, sized, after_line, take_line,
  line_step,
}
use rust_tcp_server.Text.Ascii.{same}
use rust_tcp_server.Text.Number.{parse_usize}
use rust_tcp_server.Text.Trim.{trim}
use rust_tcp_server.Text.Utf8.{is_utf8}

-- A text of one line.
abbrev pub NoBreak : Bytes → Type 0
NoBreak [] = Unit {0}
NoBreak (c ∷ r) = ((c == b'\n') ≡ false) × NoBreak r

abbrev pub NoColon : Bytes → Type 0
NoColon [] = Unit {0}
NoColon (c ∷ r) = ((c == b':') ≡ false) × NoColon r

pub line_of-append : (l rest : Bytes) → NoBreak l → line_of (l ++ b'\n' ∷ rest) ≡ l ++ b'\n' ∷ []
unfolding line_of
line_of-append [] rest h = refl
line_of-append (c ∷ l) rest h = rw h.0 (ap (λ r. c ∷ r) (line_of-append l rest h.1))

pub behind_line-append : (l rest : Bytes) → NoBreak l → behind_line (l ++ b'\n' ∷ rest) ≡ rest
unfolding behind_line
behind_line-append [] rest h = refl
behind_line-append (c ∷ l) rest h = rw h.0 (behind_line-append l rest h.1)

pub split_colon-append : (k t : Bytes) → NoColon k → split_colon (k ++ b':' ∷ t) ≡ some (k, t)
unfolding split_colon
split_colon-append [] t h = refl
split_colon-append (c ∷ k) t h = rw (h.0, split_colon-append k t h.1) refl

pub split_colon-none : (l : Bytes) → NoColon l → split_colon l ≡ none
unfolding split_colon
split_colon-none [] h = refl
split_colon-none (c ∷ l) h = rw (h.0, split_colon-none l h.1) refl

behind_line-length : (s : Bytes) → length (behind_line s) ≤ length s - 1
unfolding behind_line
behind_line-length [] = omega arith
behind_line-length (c ∷ r) = ground (arith, behind_line-length r)

abbrev left : Reading → ℕ
left s = length s.coming

abbrev Any : Reading → Type 0
Any s = Unit {0}

sized-Falls :
    (s t : Reading) (o : Option ℕ) → left t < left s → Falls (λ e. unclaimed) Any left s (sized t o)
sized-Falls s t none l = λ e. cc
sized-Falls s t (some n) l = (tt, l)

after_line-Falls :
    (s t : Reading) (o : Option Bytes)
    → left t < left s
    → Falls (λ e. unclaimed) Any left s (after_line t o)
after_line-Falls s t none l = (tt, l)
after_line-Falls s t (some value) l = sized-Falls s t (parse_usize (trim value)) l

take_line-Falls :
    (line : Bytes) (s t : Reading)
    → left t ≤ left s - 1
    → (line ≢ [] → 0 < left s)
    → Falls (λ e. unclaimed) Any left s (take_line line t)
take_line-Falls [] s t l some_left = λ e. cc
take_line-Falls (c ∷ r) s t l some_left =
    let more : 0 < left s = some_left (λ e. cc) in
    elim (Bool-cases (is_utf8 (c ∷ r))) [
      | inl text ↦
          rw text (elim (Bool-cases (same (c ∷ r) (codes "\r\n") || same (c ∷ r) (codes "\n"))) [
            | inl blank ↦ rw blank (λ e. cc)
            | inr field ↦
                rw field (
                  after_line-Falls s t (header_value (c ∷ r) (codes "content-length"))
                    (omega arith))
          ])
      | inr other ↦ rw other (λ e. cc)
    ]

some_left_of : (s : Bytes) → line_of s ≢ [] → 0 < length s
unfolding line_of
some_left_of [] h = absurd (h refl)
some_left_of (c ∷ r) h = omega arith

line_step-Falls : (s : Reading) → Any s → Falls (λ e. unclaimed) Any left s (line_step s)
unfolding line_step
line_step-Falls s t =
    take_line-Falls (line_of s.coming) s (record s { coming = behind_line s.coming })
      (behind_line-length s.coming) (some_left_of s.coming)

-- The lines up to the blank one.
unfoldable pub read_lines : Reading → Reading × Round ReadEnd
read_lines s = loop (suc (left s)) line_step s

-- The loop over the lines returns, whatever is to come.
pub read_lines_returns : (s : Reading) → (t : Reading) × (e : ReadEnd) × (read_lines s ≡ (t, ret e))
unfolding read_lines
read_lines_returns s =
    loop_returns (λ e. unclaimed) Any left line_step line_step-Falls (suc (left s)) s tt
      (omega arith)

pub read_lines_again : (s t : Reading) → line_step s ≡ (t, again) → read_lines s ≡ read_lines t
unfolding read_lines loop
read_lines_again s t e =
    let less : left t < left s =
      (subst (Falls (λ e. unclaimed) Any left s) e (line_step-Falls s tt)).1 in
    ap (λ x. resume x (loop (left s) line_step)) e
    ∙ loop_fuel (λ e. unclaimed) Any left line_step line_step-Falls (left s) (suc (left t)) t tt
        less (omega arith)

pub read_lines_end :
    (s t : Reading) (r : ReadEnd) → line_step s ≡ (t, ret r) → read_lines s ≡ (t, ret r)
unfolding read_lines loop
read_lines_end s t r e = ap (λ x. resume x (loop (left s) line_step)) e
