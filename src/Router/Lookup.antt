-- ===== src/Router/Lookup.antt =====
-- What `lookup` finds after `insert`: the trie is a map from segments to handlers.
use rust_tcp_server.Base.{
  ◌≡◌, refl, ap, sym, ◌∙◌, true, Option, none, some, List, [], ◌∷◌, arith, if◌then◌else◌, ◌&&◌,
  Bool-cases, inl, inr, Bytes,
}
use rust_tcp_server.Http.Method.{Method, get, head, unsupported, same_method}
use rust_tcp_server.Router.Segments.{
  segments, same_segments, get_at, insert_at, get_node-segments, insert_node-segments,
}
use rust_tcp_server.Router.{
  Node, node, Nodes, no_nodes, more_nodes, key_of, new_node, find_child, change_child, get_from,
  insert_node, get_node, Router, insert_route, lookup_route, or_new,
}
use rust_tcp_server.Text.Ascii.{same, same_iff}

abbrev child_or_new : {H : Type 0} → Bytes → Option (Node H) → Node H
child_or_new t none = node t no_nodes none
child_or_new t (some n) = n

find_child-change_child :
    {H : Type 0} (s t : Bytes) (go : Node H → Node H) (ns : Nodes H)
    → ((n : Node H) → key_of (go n) ≡ key_of n)
    → find_child s (change_child t go ns)
      ≡ (if same t s then some (go (child_or_new t (find_child t ns))) else find_child s ns)
unfolding find_child change_child new_node
find_child-change_child s t go no_nodes k = rw (k (node t no_nodes none))
find_child-change_child s t go (more_nodes n rest) k = elim (Bool-cases (same (key_of n) t)) [
  | inl e ↦ rw (e, k n) (ground (arith, same_iff (key_of n) t, same_iff (key_of n) s, same_iff t s))
  | inr e ↦ rw e (
      ground (
        arith,
        find_child-change_child s t go rest k,
        same_iff (key_of n) t,
        same_iff (key_of n) s,
        same_iff t s,
      ))
]

key-insert_at :
    {H : Type 0} (n : Node H) (ss : List Bytes) (h : H) → key_of (insert_at n ss h) ≡ key_of n
unfolding insert_at
key-insert_at (node key children handler) [] h = refl
key-insert_at (node key children handler) (s ∷ ss) h = refl

get_at-new :
    {H : Type 0} (key : Bytes) (ss : List Bytes) → get_at {H = H} (node key no_nodes none) ss ≡ none
unfolding get_at find_child
get_at-new key [] = refl
get_at-new key (s ∷ ss) = refl

get_at-child_or_new :
    {H : Type 0} (t : Bytes) (o : Option (Node H)) (ss : List Bytes)
    → get_at (child_or_new t o) ss ≡ get_from (λ child. get_at child ss) o
get_at-child_or_new t none ss = get_at-new t ss
get_at-child_or_new t (some n) ss = refl

-- Over segments, an insertion is seen at its own place and nowhere else.
get_at-insert_at :
    {H : Type 0} (n : Node H) (ps qs : List Bytes) (h : H)
    → get_at (insert_at n ps h) qs ≡ (if same_segments ps qs then some h else get_at n qs)
unfolding get_at insert_at
get_at-insert_at (node key children handler) [] [] h = refl
get_at-insert_at (node key children handler) [] (q ∷ qs) h = refl
get_at-insert_at (node key children handler) (p ∷ ps) [] h = refl
get_at-insert_at (node key children handler) (p ∷ ps) (q ∷ qs) h =
    rw
      (find_child-change_child q p (λ child. insert_at child ps h) children
        (λ n. key-insert_at n ps h))
      (elim (Bool-cases (same p q)) [
        | inl e ↦
            rw
              (
                e,
                get_at-insert_at (child_or_new p (find_child p children)) ps qs h,
                get_at-child_or_new p (find_child p children) qs,
                (same_iff p q).0 e,
              )
              refl
        | inr e ↦ rw e refl
      ])

-- A handler that is inserted at a path is found at the paths with the same segments, however many
-- slashes stand between or around them, and every other path is looked up as before.
pub get_node-insert_node :
    {H : Type 0} (n : Node H) (path other : Bytes) (h : H)
    → get_node (insert_node n path h) other
      ≡ (if same_segments (segments path) (segments other) then some h else get_node n other)
get_node-insert_node n path other h =
    get_node-segments (insert_node n path h) other
    ∙ ap (λ m. get_at m (segments other)) (insert_node-segments n path h)
    ∙ get_at-insert_at n (segments path) (segments other) h
    ∙ ap (λ o. if same_segments (segments path) (segments other) then some h else o)
        (sym (get_node-segments n other))

same_method_iff : (a b : Method) → (same_method a b ≡ true) → a ≡ b
unfolding same_method
same_method_iff get get e = refl
same_method_iff head head e = refl
same_method_iff unsupported unsupported e = refl
same_method_iff get head e = cc
same_method_iff get unsupported e = cc
same_method_iff head get e = cc
same_method_iff head unsupported e = cc
same_method_iff unsupported get e = cc
same_method_iff unsupported head e = cc

get_node-or_new :
    {H : Type 0} (o : Option (Node H)) (path : Bytes)
    → get_node (or_new o) path ≡ get_from (λ root. get_node root path) o
get_node-or_new none path =
    get_node-segments (node [] no_nodes none) path ∙ get_at-new [] (segments path)
get_node-or_new (some n) path = refl

-- The router keeps the methods apart: a route is found under its own method, at the paths with its
-- segments; any other request is looked up as before.
pub lookup_route-insert_route :
    {H : Type 0} (r : Router H) (method m : Method) (path other : Bytes) (h : H)
    → lookup_route (insert_route r method path h) m other ≡ (
        if same_method method m && same_segments (segments path) (segments other)
        then some h
        else lookup_route r m other)
unfolding lookup_route insert_route
lookup_route-insert_route r method m path other h = elim (Bool-cases (same_method method m)) [
  | inl e ↦ rw e (
      get_node-insert_node (or_new (r.routes method)) path other h
      ∙ ap (λ o. if same_segments (segments path) (segments other) then some h else o)
          (get_node-or_new (r.routes method) other
            ∙ ap (λ k. get_from (λ root. get_node root other) (r.routes k))
                (same_method_iff method m e)))
  | inr e ↦ rw e refl
]
