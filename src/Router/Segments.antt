-- ===== src/Router/Segments.antt =====
-- The trie seen through the segments of a path: what stands between the slashes.
use rust_tcp_server.Base.{
  ℕ, zero, suc, ◌≤◌, ◌<◌, ◌≡◌, refl, ap, sym, ◌∙◌, subst, Bool, true, false, Option, some, List, [],
  ◌∷◌, arith, ◌&&◌, ◌==◌, Bool-cases, ◌⊎◌, inl, inr, Bytes, length,
}
use mathlib.Core.Path.{fun_ext}
use rust_tcp_server.Router.{
  Node, node, find_child, change_child, insert_in, get_in, get_from, insert_node, get_node,
}
use rust_tcp_server.Text.Ascii.{same}
use rust_tcp_server.Text.Split.{split, onto_first, before, after}
use rust_tcp_server.Text.Trim.{trim_slashes}

-- The segments of a path: its parts between slashes, the empty ones left out.
abbrev pub nonempty : List Bytes → List Bytes
nonempty [] = []
nonempty ([] ∷ rest) = nonempty rest
nonempty ((c ∷ r) ∷ rest) = (c ∷ r) ∷ nonempty rest

abbrev pub segments : Bytes → List Bytes
segments path = nonempty (split b'/' path)

abbrev pub same_segments : List Bytes → List Bytes → Bool
same_segments [] [] = true
same_segments (x ∷ xs) (y ∷ ys) = same x y && same_segments xs ys
same_segments _ _ = false

-- The trie over segments, with no text.
unfoldable pub get_at : {H : Type 0} → Node H → List Bytes → Option H
get_at (node key children handler) [] = handler
get_at (node key children handler) (s ∷ ss) =
    get_from (λ child. get_at child ss) (find_child s children)

unfoldable pub insert_at : {H : Type 0} → Node H → List Bytes → H → Node H
insert_at (node key children handler) [] h = node key children (some h)
insert_at (node key children handler) (s ∷ ss) h =
    node key (change_child s (λ child. insert_at child ss h) children) handler

-- How `split` cuts at the first separator.
split_first :
    (sep : ℕ) (s : Bytes)
    → (split sep s ≡ before sep s ∷ split sep (after sep s))
      ⊎ ((split sep s ≡ before sep s ∷ []) × (after sep s ≡ []))
unfolding split before after
split_first sep [] = inr (refl, refl)
split_first sep (c ∷ r) = elim (Bool-cases (c == sep)) [
  | inl e ↦ rw e (inl refl)
  | inr e ↦ rw e (elim (split_first sep r) [
    | inl d ↦ inl (ap (onto_first c) d)
    | inr (d, n) ↦ inr (ap (onto_first c) d, n)
  ])
]

segments_empty : (path : Bytes) → trim_slashes path ≡ [] → segments path ≡ []
unfolding trim_slashes split
segments_empty [] e = refl
segments_empty (c ∷ r) e = ground (arith, segments_empty r)

length-after-le : (sep : ℕ) (s : Bytes) → length (after sep s) ≤ length s
unfolding after
length-after-le sep [] = omega arith
length-after-le sep (c ∷ r) = ground (arith, length-after-le sep r)

segments_here :
    (c : ℕ) (r : Bytes)
    → (c == b'/') ≡ false
    → (segments (c ∷ r) ≡ before b'/' (c ∷ r) ∷ segments (after b'/' (c ∷ r)))
      × (length (after b'/' (c ∷ r)) < length (c ∷ r))
unfolding split before after
segments_here c r e = (
  rw e (elim (split_first b'/' r) [
    | inl d ↦ ap (λ parts. nonempty (onto_first c parts)) d
    | inr (d, n) ↦
        ap (λ parts. nonempty (onto_first c parts)) d
        ∙ ap (λ t. (c ∷ before b'/' r) ∷ segments t) (sym n)
  ]),
  ground (arith, length-after-le b'/' r),
)

segments_slash : (d : ℕ) (p : Bytes) → (d == b'/') ≡ true → segments (d ∷ p) ≡ segments p
unfolding split
segments_slash d p slash = rw slash

-- A path that does not trim to nothing starts with the segment that the trie looks for.
segments_cons :
    (path : Bytes) (c : ℕ) (r : Bytes)
    → trim_slashes path ≡ c ∷ r
    → (segments path ≡ before b'/' (c ∷ r) ∷ segments (after b'/' (c ∷ r)))
      × (length (after b'/' (c ∷ r)) < length path)
unfolding trim_slashes
segments_cons [] c r e = cc
segments_cons (d ∷ p) c r e = elim (Bool-cases (d == b'/')) [
  | inl slash ↦
      let ih = segments_cons p c r (rw slash at e) in
      (segments_slash d p slash ∙ ih.0, omega (arith, ih.1))
  | inr other ↦
      subst
        (λ path.
          (segments (d ∷ p) ≡ before b'/' path ∷ segments (after b'/' path))
          × (length (after b'/' path) < length (d ∷ p)))
        (rw other at e) (segments_here d p other)
]

-- `get` and `insert` with enough fuel work on the segments.
get_in-segments :
    {H : Type 0} (fuel : ℕ) (n : Node H) (path : Bytes)
    → length path < fuel
    → get_in fuel n path ≡ get_at n (segments path)
unfolding get_in get_at
get_in-segments zero n path l = absurd (omega arith)
get_in-segments {H} (suc fuel) (node key children handler) path l =
    go (trim_slashes path) refl (λ child rest m. get_in-segments fuel child rest m)
  where
    go :
        (t : Bytes)
        → trim_slashes path ≡ t
        → ((child : Node H) (rest : Bytes)
            → length rest < fuel
            → get_in fuel child rest ≡ get_at child (segments rest))
        → get_in (suc fuel) (node key children handler) path
          ≡ get_at (node key children handler) (segments path)
    go [] e ih = rw (segments_empty path e, e, get_in)
    go (c ∷ r) e ih =
        let (d, m) = segments_cons path c r e in
        let rest = after b'/' (c ∷ r) in
        rw (d, e, get_in)
          (ap (λ f. get_from f (find_child (before b'/' (c ∷ r)) children))
            (fun_ext λ child. ih child rest (omega arith)))

insert_in-segments :
    {H : Type 0} (fuel : ℕ) (n : Node H) (path : Bytes) (h : H)
    → length path < fuel
    → insert_in fuel n path h ≡ insert_at n (segments path) h
unfolding insert_in insert_at
insert_in-segments zero n path h l = absurd (omega arith)
insert_in-segments {H} (suc fuel) (node key children handler) path h l =
    go (trim_slashes path) refl (λ child rest m. insert_in-segments fuel child rest h m)
  where
    go :
        (t : Bytes)
        → trim_slashes path ≡ t
        → ((child : Node H) (rest : Bytes)
            → length rest < fuel
            → insert_in fuel child rest h ≡ insert_at child (segments rest) h)
        → insert_in (suc fuel) (node key children handler) path h
          ≡ insert_at (node key children handler) (segments path) h
    go [] e ih = rw (segments_empty path e, e, insert_in)
    go (c ∷ r) e ih =
        let (d, m) = segments_cons path c r e in
        let rest = after b'/' (c ∷ r) in
        rw (d, e, insert_in)
          (ap (λ f. node key (change_child (before b'/' (c ∷ r)) f children) handler)
            (fun_ext λ child. ih child rest (omega arith)))

pub get_node-segments :
    {H : Type 0} (n : Node H) (path : Bytes) → get_node n path ≡ get_at n (segments path)
unfolding get_node
get_node-segments n path = get_in-segments (suc (length path)) n path (omega arith)

pub insert_node-segments :
    {H : Type 0} (n : Node H) (path : Bytes) (h : H)
    → insert_node n path h ≡ insert_at n (segments path) h
unfolding insert_node
insert_node-segments n path h = insert_in-segments (suc (length path)) n path h (omega arith)
