-- ===== src/Http/Parser/Grammar.antt =====
-- The messages that the parser is to accept, written from their parts, and how it finds a line.
use rust_tcp_server.Base.{
  ℕ, ◌+◌, ◌-◌, max, ◌≡◌, ◌≢◌, refl, sym, ap, ◌∙◌, true, false, some, List, [], ◌∷◌, ◌++◌, ◌==◌,
  arith, Bytes, length, length-append, drop-length, drop-drop, take-length, take, drop, slice,
  append_assoc, Bool, Bool-cases, not, ◌&&◌, inl, inr,
}
use rust_tcp_server.Http.Headers.{Headers, insert_header}
use rust_tcp_server.Http.Parser.{found, after_scan, scan_crlf, next_crlf}
use rust_tcp_server.Http.State.{RequestParser}
use rust_tcp_server.Text.Split.{position}
use rust_tcp_server.Text.Trim.{trim}
use rust_tcp_server.Text.Utf8.{is_utf8}

-- A field line is its name, a colon, and the text behind it.
pub record Field : Type 0 where
  pub name : Bytes
  pub value : Bytes

abbrev pub field_line : Field → Bytes
field_line f = f.name ++ (b':' ∷ f.value)

-- A line with its end, and what follows it.
abbrev pub ended : Bytes → Bytes → Bytes
ended line rest = line ++ (b'\r' ∷ b'\n' ∷ rest)

-- The header block and what follows it.
abbrev pub header_block : List Field → Bytes → Bytes
header_block [] rest = ended [] rest
header_block (f ∷ fs) rest = ended (field_line f) (header_block fs rest)

-- No byte of the text is `b`.
abbrev pub Lacks : ℕ → Bytes → Type 0
Lacks b [] = Unit {0}
Lacks b (c ∷ r) = ((c == b) ≡ false) × Lacks b r

abbrev pub lacks : ℕ → Bytes → Bool
lacks b [] = true
lacks b (c ∷ r) = not (c == b) && lacks b r

pub lacks-Lacks : (b : ℕ) (s : Bytes) → lacks b s ≡ true → Lacks b s
lacks-Lacks b [] h = tt
lacks-Lacks b (c ∷ r) h = elim (Bool-cases (c == b)) [
  | inl e ↦ cc (rw e at h)
  | inr e ↦ (e, lacks-Lacks b r (rw e at h))
]

pub record IsField (f : Field) : Type 0 where
  pub name_plain : Lacks b'\r' f.name
  pub value_plain : Lacks b'\r' f.value
  pub name_colon : Lacks b':' f.name
  pub name_utf8 : is_utf8 f.name ≡ true
  pub value_utf8 : is_utf8 f.value ≡ true
  pub named : trim f.name ≢ []

abbrev pub AreFields : List Field → Type 0
AreFields [] = Unit {0}
AreFields (f ∷ fs) = IsField f × AreFields fs

-- The fields as the parser keeps them: in order, with white space trimmed off names and values.
abbrev pub insert_fields : Headers → List Field → Headers
insert_fields h [] = h
insert_fields h (f ∷ fs) = insert_fields (insert_header h (trim f.name) (trim f.value)) fs

pub Lacks-append : (b : ℕ) (xs ys : Bytes) → Lacks b xs → Lacks b ys → Lacks b (xs ++ ys)
Lacks-append b [] ys h k = k
Lacks-append b (x ∷ xs) ys h k = (h.0, Lacks-append b xs ys h.1 k)

scan_crlf-ended :
    (i : ℕ) (line rest : Bytes)
    → Lacks b'\r' line
    → scan_crlf i (ended line rest) ≡ found (i + length line)
unfolding scan_crlf
scan_crlf-ended i [] rest h = ap found (omega arith)
scan_crlf-ended i (c ∷ []) rest h = rw h.0 (ap found (omega arith))
scan_crlf-ended i (c ∷ d ∷ r) rest h =
    rw h.0 (scan_crlf-ended (i + 1) (d ∷ r) rest h.1 ∙ ap found (omega arith))

-- The buffer holds `before`, which is parsed, and then `after`.
pub record At (p : RequestParser) (before after : Bytes) : Type 0 where
  pub holds : p.buf ≡ before ++ after
  pub starts : p.line_start ≡ length before
  pub searched : p.scanned ≡ length before

pub next_crlf-ended :
    (p : RequestParser) (before line rest : Bytes)
    → At p before (ended line rest)
    → Lacks b'\r' line
    → next_crlf p ≡ (p, some (length before + length line))
unfolding next_crlf
next_crlf-ended p before line rest a h =
    let i : max p.scanned p.line_start ≡ length before = omega arith in
    let at = length before in
    ap (λ k. after_scan p (scan_crlf k (drop k p.buf))) i
    ∙ ap (λ s. after_scan p (scan_crlf at (drop at s))) a.holds
    ∙ ap (λ s. after_scan p (scan_crlf at s)) (drop-length before (ended line rest))
    ∙ ap (after_scan p) (scan_crlf-ended at line rest h)

pub slice-ended :
    (before line rest : Bytes)
    → slice (length before) (length before + length line) (before ++ ended line rest) ≡ line
slice-ended before line rest =
    let e : length before + length line - length before ≡ length line = omega arith in
    ap (λ k. take k (drop (length before) (before ++ ended line rest))) e
    ∙ ap (take (length line)) (drop-length before (ended line rest))
    ∙ take-length line (b'\r' ∷ b'\n' ∷ rest)

pub position-field :
    (name value : Bytes)
    → Lacks b':' name
    → position b':' (name ++ (b':' ∷ value)) ≡ some (length name)
unfolding position
position-field [] value h = refl
position-field (c ∷ r) value h = ground (arith, position-field r value h.1)

pub drop-field : (name value : Bytes) → drop (length name + 1) (name ++ (b':' ∷ value)) ≡ value
drop-field name value =
    sym (drop-drop 1 (length name) (name ++ (b':' ∷ value)))
    ∙ ap (drop 1) (drop-length name (b':' ∷ value))

pub ended-append :
    (before line rest : Bytes) → before ++ ended line rest ≡ (before ++ ended line []) ++ rest
ended-append before line rest =
    ap (λ r. before ++ r) (sym (append_assoc line (b'\r' ∷ b'\n' ∷ []) rest))
    ∙ sym (append_assoc before (ended line []) rest)

pub length-ended :
    (before line : Bytes) → length (before ++ ended line []) ≡ length before + (length line + 2)
length-ended before line =
    length-append before (ended line [])
    ∙ ap (λ n. length before + n) (length-append line (b'\r' ∷ b'\n' ∷ []))
