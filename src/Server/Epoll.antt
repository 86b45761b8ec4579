-- ===== src/Server/Epoll.antt =====
-- server/src/models/epoll.rs: the event loop of epoll-lt and epoll-et, with the trigger and the drain
-- as parameters. What it keeps in local variables is the state of a `Reactor`, and it
-- makes the same calls.
pub mod Shared
pub mod Edge
pub mod Watch
use rust_tcp_server.Base.{
  ℕ, Bool, true, false, not, ◌&&◌, ◌||◌, ◌==◌, leb, ltb, List, [], ◌∷◌, Option, none, some,
  if◌then◌else◌, Bytes,
}
use rust_tcp_server.App.{Metrics, inc_connections}
use rust_tcp_server.Base.Assoc.{find_key, remove_key, insert_key}
use rust_tcp_server.Base.Rounds.{Round, again, ret, loop}
use rust_tcp_server.Connection.{ConnAction, want_read, want_write, close, new_connection}
use rust_tcp_server.Http.Request.{Request}
use rust_tcp_server.Http.Response.{Response}
use rust_tcp_server.Server.EventIo.{IoResult, Driven, drive_io}
use rust_tcp_server.Server.Reactor.{
  Interest, for_read, for_write, for_read_write, Event, Accept, accepted, none_pending,
  accept_error, Reactor, Trigger, Calls,
}
use rust_tcp_server.Server.Table.{
  Slot, new_table, insert_slot, get_slot, set_slot, remove_slot, table_len, expired_in,
}

unfoldable pub same_interest : Option Interest → Interest → Bool
same_interest (some for_read) for_read = true
same_interest (some for_write) for_write = true
same_interest (some for_read_write) for_read_write = true
same_interest _ _ = false

module _ {K E L : Type 0} (calls : Calls K E L) (trigger : Trigger) (drain : Bool) where
  unfoldable pub close_conn : Reactor K E L → ℕ → Reactor K E L
  close_conn s fd = record s {
    epoll = calls.delete s.epoll fd;
    wants = remove_key fd s.wants;
    conns = remove_slot s.conns fd;
  }

  -- The end of a round of the accept loop that took a client: one is enough without the drain.
  abbrev pub next_accept : Reactor K E L → Reactor K E L × Round Bool
  next_accept s = if drain then (s, again) else (s, ret false)

  abbrev pub added_client : Reactor K E L → ℕ → E × Bool → Reactor K E L
  added_client s fd (e, false) = record s { epoll = e; conns = remove_slot s.conns fd }
  added_client s fd (e, true) = record s {
    epoll = e;
    wants = insert_key fd for_read s.wants;
    metrics = inc_connections s.metrics;
  }

  abbrev pub add_client : ℕ → Reactor K E L → ℕ → K → Reactor K E L
  add_client now s fd stream =
      let slot : Slot K = record {
        stream = stream;
        conn = new_connection now calls.read_timeout;
      } in
      added_client (record s { conns = insert_slot s.conns fd slot }) fd
        (calls.add s.epoll fd for_read trigger)

  abbrev pub accept_result : ℕ → Reactor K E L → L × Accept K → Reactor K E L × Round Bool
  accept_result now s (l, accepted fd stream false) = next_accept (record s { listener = l })
  accept_result now s (l, accepted fd stream true) =
      next_accept (add_client now (record s { listener = l }) fd stream)
  accept_result now s (l, none_pending) = (record s { listener = l }, ret true)
  accept_result now s (l, accept_error) = (record s { listener = l }, ret false)

  -- A round that returns says whether the backlog was drained.
  unfoldable pub accept_round : ℕ → Reactor K E L → Reactor K E L × Round Bool
  accept_round now s =
      if leb calls.max_connections (table_len s.conns)
      then (s, ret false)
      else accept_result now s (calls.accept s.listener)

  unfoldable pub accept_clients : ℕ → Reactor K E L → Reactor K E L × Round Bool
  unfolding accept_round loop
  accept_clients now s = loop (calls.accept_fuel s.listener) (accept_round now) s

  abbrev pub modified : Reactor K E L → ℕ → Interest → E × Bool → Reactor K E L
  modified s fd next (e, true) = record s { epoll = e; wants = insert_key fd next s.wants }
  modified s fd next (e, false) = close_conn (record s { epoll = e }) fd

  abbrev pub want_next : Reactor K E L → ℕ → Interest → Reactor K E L
  want_next s fd next =
      if same_interest (find_key fd s.wants) next
      then s
      else modified s fd next (calls.modify s.epoll fd next trigger)

  abbrev pub act_on : Reactor K E L → ℕ → ConnAction → Reactor K E L
  act_on s fd want_read = want_next s fd for_read
  act_on s fd want_write = want_next s fd for_write
  act_on s fd close = close_conn s fd

  abbrev pub after_drive : Reactor K E L → ℕ → Driven K × Round ConnAction → Reactor K E L
  after_drive s fd (d, again) = s
  after_drive s fd (d, ret a) =
      let slot : Slot K = record { stream = d.stream; conn = d.conn } in
      act_on (record s { conns = set_slot s.conns fd slot; metrics = d.metrics }) fd a

  abbrev pub drive_in : ℕ → Reactor K E L → ℕ → Option (Slot K) → Reactor K E L
  drive_in now s fd none = s
  drive_in now s fd (some slot) = after_drive s fd (
      drive_io calls.read calls.write calls.respond now drain (calls.io_fuel slot.stream)
        slot.stream slot.conn s.metrics)

  unfoldable pub drive_ready : ℕ → Reactor K E L → ℕ → Reactor K E L
  unfolding close_conn same_interest
  drive_ready now s fd = drive_in now s fd (get_slot s.conns fd)

  unfoldable pub epoll_event : Reactor K E L → Event → Reactor K E L
  epoll_event s v =
      if v.fd == calls.listener_fd
      then (if v.readable then (accept_clients v.at s).0 else s)
      else if v.error || v.hup
      then close_conn s v.fd
      else if v.readable || v.writable
      then drive_ready v.at s v.fd
      else s

  unfoldable pub epoll_events : Reactor K E L → List Event → Reactor K E L
  epoll_events s [] = s
  epoll_events s (v ∷ vs) = epoll_events (epoll_event s v) vs

  abbrev pub listens_again : Reactor K E L → E × Bool → Reactor K E L
  listens_again s (e, true) = record s { epoll = e; listener_registered = true }
  listens_again s (e, false) = record s { epoll = e }

  unfoldable pub shed : Reactor K E L → Reactor K E L
  shed s =
      if s.listener_registered && leb calls.max_connections (table_len s.conns)
      then record s { epoll = calls.delete s.epoll calls.listener_fd; listener_registered = false }
      else if not s.listener_registered && ltb (table_len s.conns) calls.max_connections
      then listens_again s (calls.add s.epoll calls.listener_fd for_read trigger)
      else s

  unfoldable pub close_each : Reactor K E L → List ℕ → Reactor K E L
  close_each s [] = s
  close_each s (fd ∷ fds) = close_each (close_conn s fd) fds

  -- One iteration of the loop: what `epoll_wait` reported, or `none` for its error, and the time of
  -- the sweep.
  unfoldable pub epoll_once : ℕ → Reactor K E L → Option (List Event) → Reactor K E L
  unfolding close_each
  epoll_once now s none = s
  epoll_once now s (some ready) =
      let t = shed (epoll_events s ready) in close_each t (expired_in now t.conns.slots)

  abbrev first_state : L → Metrics → E × Bool → Option (Reactor K E L)
  first_state l m (e, false) = none
  first_state l m (e, true) = some (record {
    epoll = e;
    conns = new_table;
    listener = l;
    wants = [];
    listener_registered = true;
    metrics = m;
  })

  -- Up to the loop: whether `set_nonblocking` works, and what `Epoll::new` returns.
  unfoldable pub epoll_start : Bool → Option E → L → Metrics → Option (Reactor K E L)
  epoll_start false e l m = none
  epoll_start true none l m = none
  epoll_start true (some e) l m = first_state l m (calls.add e calls.listener_fd for_read trigger)

  -- The iterations of a run, with the time of each sweep.
  unfoldable pub epoll_run : Reactor K E L → List (ℕ × Option (List Event)) → Reactor K E L
  unfolding epoll_once
  epoll_run s [] = s
  epoll_run s ((now, ready) ∷ rest) = epoll_run (epoll_once now s ready) rest
