-- ===== src/Server/Reactor/Watch.antt =====
-- Each live connection of the reactor is registered for what its state machine waits for.
use rust_tcp_server.Base.{
  ℕ, ◌<◌, ◌≡◌, ◌≢◌, refl, ◌==◌, Bool, true, false, Bool-cases, inl, inr, Option, none, some,
  if◌then◌else◌, Bytes,
}
use rust_tcp_server.Base.Assoc.{find_key, insert_key, find_key-remove_key, find_key-insert_key}
use rust_tcp_server.Connection.Invariant.{Inv, new_connection-Inv}
use rust_tcp_server.Connection.{ConnState, reading, writing, closed, Connection, new_connection}
use rust_tcp_server.Server.EventIo.Loop.{ReadMoves, WriteMoves}
use rust_tcp_server.Server.Reactor.{
  edge, Interest, for_read, for_write, for_read_write, Accept, accepted, none_pending, accept_error,
  matches_interest, Reactor, Calls, drop_conn, watched, admit,
}
use rust_tcp_server.Server.Table.{Slot, get_slot}

abbrev pub interest_in : ConnState → Option Interest
interest_in reading = some for_read
interest_in writing = some for_write
interest_in closed = none

-- The slot of a descriptor, its entry in `wants`, and its registration.
abbrev pub Watched : {K : Type 0} → Option (Slot K) → Option Interest → Option Interest → Type 0
Watched none w r = Unit {0}
Watched (some slot) w r =
    Inv slot.conn × (slot.conn.state ≢ closed) × (w ≡ interest_in slot.conn.state) × (r ≡ w)

-- What the kernel's interest list has after a call that worked, or did not.
abbrev pub Sets : {E : Type 0} → (E → ℕ → Option Interest) → E → ℕ → Interest → E × Bool → Type 0
Sets registered e fd i (d, true) =
    (q : ℕ) → registered d q ≡ (if fd == q then some i else registered e q)
Sets registered e fd i (d, false) = (q : ℕ) → registered d q ≡ registered e q

pub matches_interest_lem :
    (w : Option Interest) (i : Interest) → matches_interest w i ≡ true → w ≡ some i
unfolding matches_interest
matches_interest_lem none i h = cc
matches_interest_lem (some for_read) for_read h = refl
matches_interest_lem (some for_write) for_write h = refl
matches_interest_lem (some for_read_write) for_read_write h = refl
matches_interest_lem (some for_read) for_write h = cc
matches_interest_lem (some for_read) for_read_write h = cc
matches_interest_lem (some for_write) for_read h = cc
matches_interest_lem (some for_write) for_read_write h = cc
matches_interest_lem (some for_read_write) for_read h = cc
matches_interest_lem (some for_read_write) for_write h = cc

-- A descriptor that is new is not the listener's.
abbrev pub Apart : {K L : Type 0} → ℕ → L × Accept K → Type 0
Apart listener_fd (l, accepted fd stream ok) = (fd == listener_fd) ≡ false
Apart listener_fd (l, none_pending) = Unit {0}
Apart listener_fd (l, accept_error) = Unit {0}

-- What the reactor relies on of the system: the interest list as a map, and how
-- many calls in a row can move bytes on it.
pub record Laws {K E L : Type 0} (calls : Calls K E L) : Type 0 where
  pub registered : E → ℕ → Option Interest
  pub add_sets : (e : E) (fd : ℕ) (i : Interest) → Sets registered e fd i (calls.add e fd i edge)
  pub modify_sets :
      (e : E) (fd : ℕ) (i : Interest) → Sets registered e fd i (calls.modify e fd i edge)
  pub delete_clears :
      (e : E) (fd q : ℕ)
      → registered (calls.delete e fd) q ≡ (if fd == q then none else registered e q)
  pub accept_apart : (l : L) → Apart calls.listener_fd (calls.accept l)
  pub moves : K → ℕ
  pub read_moves : (k : K) → ReadMoves moves k (calls.read k)
  pub write_moves : (k : K) (p : Bytes) → WriteMoves moves k (calls.write k p)
  pub enough : (k : K) → moves k < calls.io_fuel k

module _ {K E L : Type 0} (calls : Calls K E L) (laws : Laws calls) where
  abbrev pub WatchedAt : Reactor K E L → ℕ → Type 0
  WatchedAt s q = Watched (get_slot s.conns q) (find_key q s.wants) (laws.registered s.epoll q)

  -- Every live connection is watched for what it waits for; or every one but that of `fd`.
  abbrev pub Sound : Reactor K E L → Type 0
  Sound s = (q : ℕ) → WatchedAt s q

  abbrev pub SoundBut : ℕ → Reactor K E L → Type 0
  SoundBut fd s = (q : ℕ) → (fd == q) ≡ false → WatchedAt s q

  pub drop_conn-Sound : (s : Reactor K E L) (fd : ℕ) → SoundBut fd s → Sound (drop_conn calls s fd)
  unfolding drop_conn
  drop_conn-Sound s fd h q = elim (Bool-cases (fd == q)) [
    | inl e ↦ rw (find_key-remove_key fd q s.conns.slots, e) tt
    | inr e ↦
        rw
          (
            find_key-remove_key fd q s.conns.slots,
            find_key-remove_key fd q s.wants,
            laws.delete_clears s.epoll fd q,
            e,
          )
          (h q e)
  ]

  -- A slot that is put in, and watched for what it waits for.
  abbrev pub put : Reactor K E L → ℕ → Slot K → Reactor K E L
  put s fd slot = record s { conns = record { slots = insert_key fd slot s.conns.slots } }

  pub put-SoundBut :
      (s : Reactor K E L) (fd : ℕ) (slot : Slot K) → SoundBut fd s → SoundBut fd (put s fd slot)
  put-SoundBut s fd slot h q e = rw (find_key-insert_key fd q slot s.conns.slots, e) (h q e)

  abbrev pub Live : Connection → Interest → Type 0
  Live c i = Inv c × (c.state ≢ closed) × (some i ≡ interest_in c.state)

  pub set-Sound :
      (s : Reactor K E L) (fd : ℕ) (slot : Slot K) (i : Interest) (e : E)
      → SoundBut fd s
      → Live slot.conn i
      → ((q : ℕ) → laws.registered e q ≡ (if fd == q then some i else laws.registered s.epoll q))
      → Sound (record (put s fd slot) { epoll = e; wants = insert_key fd i s.wants })
  set-Sound s fd slot i e h (v, o, w) r q = elim (Bool-cases (fd == q)) [
    | inl y ↦
        rw (find_key-insert_key fd q slot s.conns.slots, find_key-insert_key fd q i s.wants, r q, y)
          (v, o, w, refl)
    | inr n ↦
        rw (find_key-insert_key fd q slot s.conns.slots, find_key-insert_key fd q i s.wants, r q, n)
          (h q n)
  ]

  pub admit-Sound :
      (now : ℕ) (s : Reactor K E L) (fd : ℕ) (stream : K)
      → Sound s
      → Sound (admit calls now s fd stream)
  unfolding new_connection
  admit-Sound now s fd stream h =
      go (calls.add s.epoll fd for_read edge) (laws.add_sets s.epoll fd for_read)
    where
      slot : Slot K
      slot = record { stream = stream; conn = new_connection now calls.read_timeout }

      go :
          (x : E × Bool)
          → Sets laws.registered s.epoll fd for_read x
          → Sound (watched calls (put s fd slot) fd x)
      go (e, true) r =
          set-Sound s fd slot for_read e (λ q n. h q)
            (new_connection-Inv now calls.read_timeout, λ c. cc, refl) r
      go (e, false) r = λ q. elim (Bool-cases (fd == q)) [
        | inl y ↦ rw (find_key-remove_key fd q (put s fd slot).conns.slots, y) tt
        | inr n ↦
            rw
              (
                find_key-remove_key fd q (put s fd slot).conns.slots,
                find_key-insert_key fd q slot s.conns.slots,
                r q,
                n,
              )
              (h q)
      ]
