-- ===== src/Tests/System.antt =====
-- A small system for the reactor: sockets as scripts, the interest list as an association list.
use rust_tcp_server.Base.{
  ℕ, zero, suc, ◌+◌, ◌≡◌, refl, sym, ap, Option, none, some, ◌==◌, Bool-cases, inl, inr,
  if◌then◌else◌, true, List, [], ◌∷◌, ◌++◌, arith, Bytes, length, take, false,
}
use rust_tcp_server.Base.Assoc.{
  find_key, remove_key, insert_key, find_key-remove_key, find_key-insert_key,
}
use rust_tcp_server.Server.Epoll.Shared.{chosen}
use rust_tcp_server.Server.EventIo.Delivery.{Took, Wrote}
use rust_tcp_server.Server.EventIo.Loop.{ReadMoves, WriteMoves}
use rust_tcp_server.Server.EventIo.{IoResult, got, would_block}
use rust_tcp_server.Server.Reactor.Watch.{Apart, Laws}
use rust_tcp_server.Server.Reactor.{Trigger, edge, Interest, Accept, accepted, none_pending, Calls}
use rust_tcp_server.Tests.Connections.{respond}

-- A socket: the chunks that came in, how many writes it takes, what it was sent, and what was read.
pub record Sock : Type 0 where
  pub chunks : List Bytes
  pub room : ℕ
  pub out : Bytes
  pub taken : List Bytes

abbrev pub read_in : Sock → List Bytes → Sock × IoResult Bytes
read_in k [] = (k, would_block)
read_in k ([] ∷ cs) = (record k { chunks = cs }, got [])
read_in k ((b ∷ bs) ∷ cs) =
    (record k { chunks = cs; taken = k.taken ++ (b ∷ bs) ∷ [] }, got (b ∷ bs))

abbrev pub sock_read : Sock → Sock × IoResult Bytes
sock_read k = read_in k k.chunks

abbrev pub write_in : Sock → ℕ → Bytes → Sock × IoResult ℕ
write_in k zero p = (k, would_block)
write_in k (suc r) p = (record k { room = r; out = k.out ++ p }, got (length p))

abbrev pub sock_write : Sock → Bytes → Sock × IoResult ℕ
sock_write k p = write_in k k.room p

abbrev pub sock_out : Sock → Bytes
sock_out k = k.out

abbrev pub sock_moves : Sock → ℕ
sock_moves k = length k.chunks + k.room

abbrev pub sock_pieces : Sock → List Bytes
sock_pieces k = k.taken

pub sock_read_takes : (k : Sock) → Took sock_out sock_pieces k (sock_read k)
sock_read_takes k = go k.chunks
  where
    go : (cs : List Bytes) → Took sock_out sock_pieces k (read_in k cs)
    go [] = (refl, refl)
    go ([] ∷ cs) = (refl, refl)
    go ((b ∷ bs) ∷ cs) = (refl, refl)

take_whole : (p : Bytes) → take (length p) p ≡ p
take_whole [] = refl
take_whole (c ∷ r) = ap (λ s. c ∷ s) (take_whole r)

pub sock_write_sends : (k : Sock) (p : Bytes) → Wrote sock_out sock_pieces k p (sock_write k p)
sock_write_sends k p = go k.room
  where
    go : (r : ℕ) → Wrote sock_out sock_pieces k p (write_in k r p)
    go zero = (refl, refl)
    go (suc r) = (omega arith, ap (λ s. k.out ++ s) (sym (take_whole p)), refl)

pub sock_read_moves : (k : Sock) → ReadMoves sock_moves k (sock_read k)
sock_read_moves k = go k.chunks refl
  where
    go : (cs : List Bytes) → k.chunks ≡ cs → ReadMoves sock_moves k (read_in k cs)
    go [] e = tt
    go ([] ∷ cs) e = tt
    go ((b ∷ bs) ∷ cs) e =
        let size : length k.chunks ≡ suc (length cs) = ap length e in omega (arith, size)

pub sock_write_moves : (k : Sock) (p : Bytes) → WriteMoves sock_moves k (sock_write k p)
sock_write_moves k p = go k.room refl p
  where
    go : (r : ℕ) → k.room ≡ r → (p : Bytes) → WriteMoves sock_moves k (write_in k r p)
    go zero e p = tt
    go (suc r) e [] = tt
    go (suc r) e (b ∷ bs) = omega (arith, e)

pub record Registered : Type 0 where
  pub interest : Interest
  pub trigger : Trigger

abbrev pub registered_for : Interest → Trigger → Registered
registered_for i t = record { interest = i; trigger = t }

abbrev pub Watching : Type 0
Watching = List (ℕ × Registered)

abbrev pub next_client : List Sock → List Sock × Accept Sock
next_client [] = ([], none_pending)
next_client (k ∷ ks) = (ks, accepted (suc (length ks)) k true)

-- At most `limit` connections, and the listener under descriptor 0.
abbrev pub system : ℕ → Calls Sock Watching (List Sock)
system limit = record {
  add = λ e fd i t. (insert_key fd (registered_for i t) e, true);
  modify = λ e fd i t. (insert_key fd (registered_for i t) e, true);
  delete = λ e fd. remove_key fd e;
  accept = next_client;
  read = sock_read;
  write = sock_write;
  respond = respond;
  listener_fd = 0;
  max_connections = limit;
  read_timeout = 30;
  io_fuel = λ k. suc (sock_moves k);
  accept_fuel = λ l. suc (length l);
}

next_client-Apart : (l : List Sock) → Apart 0 (next_client l)
next_client-Apart [] = tt
next_client-Apart (k ∷ ks) = ground arith

abbrev interest_of : Option Registered → Option Interest
interest_of none = none
interest_of (some r) = some r.interest

abbrev watching_for : Watching → ℕ → Option Interest
watching_for e q = interest_of (find_key q e)

watching_for-insert_key :
    (e : Watching) (fd : ℕ) (i : Interest) (t : Trigger) (q : ℕ)
    → watching_for (insert_key fd (registered_for i t) e) q
      ≡ (if fd == q then some i else watching_for e q)
watching_for-insert_key e fd i t q = elim (Bool-cases (fd == q)) [
  | inl y ↦ rw (find_key-insert_key fd q (registered_for i t) e, y) refl
  | inr n ↦ rw (find_key-insert_key fd q (registered_for i t) e, n) refl
]

watching_for-remove_key :
    (e : Watching) (fd q : ℕ)
    → watching_for (remove_key fd e) q ≡ (if fd == q then none else watching_for e q)
watching_for-remove_key e fd q = elim (Bool-cases (fd == q)) [
  | inl y ↦ rw (find_key-remove_key fd q e, y) refl
  | inr n ↦ rw (find_key-remove_key fd q e, n) refl
]

-- Whatever trigger the loop asks for.
pub chosen_laws :
    (limit : ℕ) (choose : Trigger → Trigger) → Laws (chosen (system limit) choose false)
chosen_laws limit choose = record {
  registered = watching_for;
  add_sets = λ e fd i q. watching_for-insert_key e fd i (choose edge) q;
  modify_sets = λ e fd i q. watching_for-insert_key e fd i (choose edge) q;
  delete_clears = watching_for-remove_key;
  accept_apart = next_client-Apart;
  moves = sock_moves;
  read_moves = sock_read_moves;
  write_moves = sock_write_moves;
  enough = λ k. omega arith;
}

pub system_laws : (limit : ℕ) → Laws (system limit)
system_laws limit = chosen_laws limit (λ t. t)
