-- ===== src/Router.antt =====
-- core/src/router.rs: the path trie. A handler is a code pointer `H`; what it computes is a
-- parameter where it is called (App).
pub mod Segments
pub mod Lookup
use rust_tcp_server.Base.{
  ℕ, zero, suc, Bool, true, false, Option, none, some, [], ◌∷◌, if◌then◌else◌, Bytes, length,
}
use rust_tcp_server.Http.Method.{Method, same_method}
use rust_tcp_server.Text.Ascii.{same}
use rust_tcp_server.Text.Split.{before, after}
use rust_tcp_server.Text.Trim.{trim_slashes}

-- A node has its segment, its children in order of insertion, and its handler.
mutual
  pub data Node (H : Type 0) : Type 0 where
    node : Bytes → Nodes H → Option H → Node H

  pub data Nodes (H : Type 0) : Type 0 where
    no_nodes : Nodes H
    more_nodes : Node H → Nodes H → Nodes H

abbrev pub key_of : {H : Type 0} → Node H → Bytes
key_of (node key children handler) = key

unfoldable pub new_node : {H : Type 0} → Bytes → Node H
new_node key = node key no_nodes none

-- `children.iter().find(|n| n.key == segment)`.
unfoldable pub find_child : {H : Type 0} → Bytes → Nodes H → Option (Node H)
find_child segment no_nodes = none
find_child segment (more_nodes n rest) =
    if same (key_of n) segment then some n else find_child segment rest

-- Insert into the child found so, or into a new one that is pushed behind the others.
unfoldable pub change_child : {H : Type 0} → Bytes → (Node H → Node H) → Nodes H → Nodes H
unfolding new_node
change_child segment go no_nodes = more_nodes (go (new_node segment)) no_nodes
change_child segment go (more_nodes n rest) =
    if same (key_of n) segment
    then more_nodes (go n) rest
    else more_nodes n (change_child segment go rest)

-- `Node::insert` and `Node::get` with fuel: each call has a shorter path, so one more than the
-- path's length is enough.
unfoldable pub insert_in : {H : Type 0} → ℕ → Node H → Bytes → H → Node H
insert_in zero n path h = n
insert_in (suc fuel) (node key children handler) path h = elim (trim_slashes path) [
  | [] ↦ node key children (some h)
  | c ∷ r ↦
      node key
        (change_child (before b'/' (c ∷ r)) (λ child. insert_in fuel child (after b'/' (c ∷ r)) h)
          children)
        handler
]

abbrev pub get_from : {H : Type 0} → (Node H → Option H) → Option (Node H) → Option H
get_from go none = none
get_from go (some child) = go child

unfoldable pub get_in : {H : Type 0} → ℕ → Node H → Bytes → Option H
get_in zero n path = none
get_in (suc fuel) (node key children handler) path = elim (trim_slashes path) [
  | [] ↦ handler
  | c ∷ r ↦
      get_from (λ child. get_in fuel child (after b'/' (c ∷ r)))
        (find_child (before b'/' (c ∷ r)) children)
]

unfoldable pub insert_node : {H : Type 0} → Node H → Bytes → H → Node H
insert_node n path h = insert_in (suc (length path)) n path h

unfoldable pub get_node : {H : Type 0} → Node H → Bytes → Option H
get_node n path = get_in (suc (length path)) n path

pub record Router (H : Type 0) : Type 0 where
  pub routes : Method → Option (Node H)

unfoldable pub new_router : {H : Type 0} → Router H
new_router = record { routes = λ m. none }

abbrev pub or_new : {H : Type 0} → Option (Node H) → Node H
or_new none = node [] no_nodes none
or_new (some n) = n

unfoldable pub insert_route : {H : Type 0} → Router H → Method → Bytes → H → Router H
insert_route r method path h = record {
  routes = λ m.
      if same_method method m
      then some (insert_node (or_new (r.routes method)) path h)
      else r.routes m;
}

unfoldable pub lookup_route : {H : Type 0} → Router H → Method → Bytes → Option H
lookup_route r method path = get_from (λ root. get_node root path) (r.routes method)
