-- ===== src/Server/Poll/Pairs.antt =====
-- The table and the interests of the poll loop agree, and stay within the limit.
use rust_tcp_server.Base.{
  ℕ, ◌<◌, ◌≡◌, ◌≢◌, refl, sym, ap, subst, ◌==◌, true, false, Bool-cases, inl, inr, ◌&&◌, ◌||◌, List,
  [], ◌∷◌, Option, none, some, Bytes,
}
use rust_tcp_server.Base.Assoc.{find_key, insert_key, find_key-remove_key, find_key-insert_key}
use rust_tcp_server.Connection.Actions.{action_in-want_read, action_in-want_write}
use rust_tcp_server.Connection.Invariant.{Inv, new_connection-Inv}
use rust_tcp_server.Connection.{
  ConnAction, want_read, want_write, close, closed, new_connection, action_in,
}
use rust_tcp_server.Server.EventIo.Loop.{ReadMoves, WriteMoves, drive_io_ends}
use rust_tcp_server.Server.Poll.{
  Revents, Poll, PollCalls, Polled, keys, poll_drop, taken, accept_one, want, drive_found,
  poll_drive, poll_event, poll_events, poll_sweep, listener_in_set, listener_part, poll_once,
}
use rust_tcp_server.Server.Reactor.Watch.{interest_in}
use rust_tcp_server.Server.Reactor.{
  Interest, for_read, for_write, Accept, accepted, none_pending, accept_error,
}
use rust_tcp_server.Server.Table.{Slot, expired_in, get_slot}

-- A live connection has exactly the interest of its state, and no other descriptor has one.
abbrev pub Paired : {K : Type 0} → Option (Slot K) → Option Interest → Type 0
Paired none w = w ≡ none
Paired (some slot) w =
    Inv slot.conn × (slot.conn.state ≢ closed) × (w ≡ interest_in slot.conn.state)

-- What the loop relies on of streams.
pub record StreamLaws {K L : Type 0} (calls : PollCalls K L) : Type 0 where
  pub moves : K → ℕ
  pub read_moves : (k : K) → ReadMoves moves k (calls.read k)
  pub write_moves : (k : K) (p : Bytes) → WriteMoves moves k (calls.write k p)
  pub enough : (k : K) → moves k < calls.io_fuel k

module _ {K L : Type 0} (calls : PollCalls K L) (laws : StreamLaws calls) where
  abbrev PairedAt : Poll K L → ℕ → Type 0
  PairedAt s q = Paired (get_slot s.conns q) (find_key q s.wants)

  abbrev pub Agreed : Poll K L → Type 0
  Agreed s = (q : ℕ) → PairedAt s q

  poll_drop-Agreed :
      (s : Poll K L) (fd : ℕ)
      → ((q : ℕ) → (fd == q) ≡ false → PairedAt s q)
      → Agreed (poll_drop calls s fd)
  unfolding poll_drop
  poll_drop-Agreed s fd h q = elim (Bool-cases (fd == q)) [
    | inl e ↦ rw (find_key-remove_key fd q s.conns.slots, find_key-remove_key fd q s.wants, e) refl
    | inr e ↦
        rw (find_key-remove_key fd q s.conns.slots, find_key-remove_key fd q s.wants, e) (h q e)
  ]

  abbrev put : Poll K L → ℕ → Slot K → Poll K L
  put s fd slot = record s { conns = record { slots = insert_key fd slot s.conns.slots } }

  put_want-Agreed :
      (s : Poll K L) (fd : ℕ) (slot : Slot K) (i : Interest)
      → Agreed s
      → Paired (some slot) (some i)
      → Agreed (record (put s fd slot) { wants = insert_key fd i s.wants })
  put_want-Agreed s fd slot i h p q = elim (Bool-cases (fd == q)) [
    | inl e ↦
        rw (find_key-insert_key fd q slot s.conns.slots, find_key-insert_key fd q i s.wants, e) p
    | inr e ↦
        rw (find_key-insert_key fd q slot s.conns.slots, find_key-insert_key fd q i s.wants, e)
          (h q)
  ]

  accept_one-Agreed : (now : ℕ) (s : Poll K L) → Agreed s → Agreed (accept_one calls now s)
  unfolding accept_one new_connection
  accept_one-Agreed now s h = go (calls.accept s.listener)
    where
      go : (x : L × Accept K) → Agreed (taken calls now s x)
      go (l, accepted fd stream false) = h
      go (l, accepted fd stream true) =
          put_want-Agreed (record s { listener = l }) fd
            (record { stream = stream; conn = new_connection now calls.read_timeout }) for_read h
            (new_connection-Inv now calls.read_timeout, λ e. cc, refl)
      go (l, none_pending) = h
      go (l, accept_error) = h

  want-Agreed :
      (s : Poll K L) (fd : ℕ) (slot : Slot K) (a : ConnAction)
      → Agreed s
      → Inv slot.conn
      → (a ≢ close → a ≡ action_in slot.conn.state)
      → Agreed (want calls (put s fd slot) fd a)
  want-Agreed s fd slot want_read h v m =
      let e = action_in-want_read slot.conn.state (sym (m (λ x. cc))) in
      put_want-Agreed s fd slot for_read h (v, λ c. cc, ap interest_in (sym e))
  want-Agreed s fd slot want_write h v m =
      let e = action_in-want_write slot.conn.state (sym (m (λ x. cc))) in
      put_want-Agreed s fd slot for_write h (v, λ c. cc, ap interest_in (sym e))
  want-Agreed s fd slot close h v m =
      poll_drop-Agreed (put s fd slot) fd
        (λ q e. rw (find_key-insert_key fd q slot s.conns.slots, e) (h q))

  drive_found-Agreed :
      (now : ℕ) (s : Poll K L) (fd : ℕ) (o : Option (Slot K))
      → get_slot s.conns fd ≡ o
      → Agreed s
      → Agreed (drive_found calls now s fd o)
  drive_found-Agreed now s fd none e h = h
  drive_found-Agreed now s fd (some slot) e h =
      let live = subst (λ x. Paired x (find_key fd s.wants)) e (h fd) in
      let (d, a, r, v, acts) =
        drive_io_ends calls.read calls.write laws.moves laws.read_moves laws.write_moves
          calls.respond now false (calls.io_fuel slot.stream) slot.stream slot.conn s.metrics live.0
          live.1 (laws.enough slot.stream) in
      rw r (
        want-Agreed (record s { metrics = d.metrics }) fd
          (record { stream = d.stream; conn = d.conn }) a h v acts)

  poll_event-Agreed :
      (s : Poll K L) (fd : ℕ) (v : Revents) → Agreed s → Agreed (poll_event calls s fd v)
  unfolding poll_event poll_drive
  poll_event-Agreed s fd v h = elim (Bool-cases (v.error || v.hup)) [
    | inl over ↦ rw over (poll_drop-Agreed s fd (λ q _. h q))
    | inr fine ↦ rw fine (elim (Bool-cases (v.readable || v.writable)) [
      | inl ready ↦ rw ready (drive_found-Agreed v.at s fd (get_slot s.conns fd) refl h)
      | inr idle ↦ rw idle h
    ])
  ]

  poll_events-Agreed :
      (events_of : ℕ → Revents) (s : Poll K L) (fds : List ℕ)
      → Agreed s
      → Agreed (poll_events calls events_of s fds)
  unfolding poll_events
  poll_events-Agreed events_of s [] h = h
  poll_events-Agreed events_of s (fd ∷ fds) h =
      poll_events-Agreed events_of (poll_event calls s fd (events_of fd)) fds
        (poll_event-Agreed s fd (events_of fd) h)

  poll_sweep-Agreed : (s : Poll K L) (fds : List ℕ) → Agreed s → Agreed (poll_sweep calls s fds)
  unfolding poll_sweep
  poll_sweep-Agreed s [] h = h
  poll_sweep-Agreed s (fd ∷ fds) h =
      poll_sweep-Agreed (poll_drop calls s fd) fds (poll_drop-Agreed s fd (λ q _. h q))

  listener_part-Agreed : (s : Poll K L) (v : Revents) → Agreed s → Agreed (listener_part calls s v)
  listener_part-Agreed s v h = elim (Bool-cases (listener_in_set calls s && v.readable)) [
    | inl e ↦ rw e (accept_one-Agreed v.at s h)
    | inr e ↦ rw e h
  ]

  -- After an iteration, whatever `poll` reported and the sockets did, the set of the next one has
  -- exactly the live connections, each with the direction that its state machine waits for, and
  -- each of them satisfies its invariant.
  pub poll_once-Agreed :
      (now : ℕ) (s : Poll K L) (polled : Option Polled)
      → Agreed s
      → Agreed (poll_once calls now s polled)
  unfolding poll_once
  poll_once-Agreed now s none h = h
  poll_once-Agreed now s (some polled) h =
      let t = listener_part calls s polled.listener_events in
      let u = poll_events calls polled.events_of t (keys s.wants) in
      poll_sweep-Agreed u (expired_in now u.conns.slots) (
        poll_events-Agreed polled.events_of t (keys s.wants)
          (listener_part-Agreed s polled.listener_events h))
